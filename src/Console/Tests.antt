-- ===== src/Console/Tests.antt =====
-- A text that leaves the last row of the screen.
use hydra_os.Common.{ℕ, ◌≡◌, refl, List, [], ◌∷◌, arith}
use hydra_os.Console.{Console, printf, printf_hex}
use hydra_os.Console.Laws.{OnScreen, Continues, is_ascii-IsAscii, printf-Continues}

abbrev last : Console
last = record { video_memory = λ q. 0x1F00; x = 79; y = 24 }

last-OnScreen : OnScreen last
last-OnScreen = record { column = omega arith; row = omega arith }

abbrev word : List ℕ
word = 72 ∷ 105 ∷ 10 ∷ 33 ∷ []

printf-Continues_example : Continues last (printf last word)
printf-Continues_example = printf-Continues last word last-OnScreen (is_ascii-IsAscii word refl)

-- The cell at the start of the screen has its old colours and a digit.
printed_digit : (printf_hex (record last { x = 0; y = 0 }) 0xA7).video_memory 0 ≡ 0x1F41
unfolding printf_hex printf
printed_digit = refl
