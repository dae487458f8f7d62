-- ===== src/Console/Laws.antt =====
-- `printf` stays on the screen and leaves the colours alone.
use Prim.Native.Nat.{bit_or}
use hydra_os.Common.{
  ℕ, zero, suc, ◌+◌, ◌*◌, ◌/◌, ◌%◌, ◌^◌, ◌≤◌, ◌<◌, ◌≡◌, ◌∙◌, refl, ap, List, [], ◌∷◌, inl, inr,
  Bool, true, subst, leb, ltb, ◌&&◌, ◌==◌, arith, Bool-cases,
}
use hydra_os.Common.Bits.{bit_or_high}
use hydra_os.TextMode.{store, widen, hex_digit}
use hydra_os.Console.{
  Console, recolored, place, wrap, blank_row, blank_rows, restart, print_char, printf, printf_hex,
}

-- The colours of a cell.
abbrev pub colors : ℕ → ℕ
colors cell = cell / 2 ^ 8 % 2 ^ 8

-- A memory with the colours of `m`, and its cells beyond the screen.
pub record Recolors (m m' : ℕ → ℕ) : Type 0 where
  pub kept : (q : ℕ) → colors (m' q) ≡ colors (m q)
  pub beyond : (q : ℕ) → 2000 ≤ q → m' q ≡ m q

Recolors-refl : (m : ℕ → ℕ) → Recolors m m
Recolors-refl m = record { kept = λ q. refl; beyond = λ q le. refl }

Recolors-trans : (m m' m'' : ℕ → ℕ) → Recolors m m' → Recolors m' m'' → Recolors m m''
Recolors-trans m m' m'' a b = record {
  kept = λ q. b.kept q ∙ a.kept q;
  beyond = λ q le. b.beyond q le ∙ a.beyond q le;
}

colors-recolored : (cell c : ℕ) → c < 128 → colors (recolored cell c) ≡ colors cell
unfolding recolored
colors-recolored cell c lt = omega (
  arith,
  ap (λ w. colors (bit_or (colors cell * 2 ^ 8) w)) narrow,
  bit_or_high c (colors cell) (omega arith),
)
  where
    narrow : widen c ≡ c
    narrow = unfold widen in ground arith

store-Recolors :
    (m : ℕ → ℕ) (at c : ℕ) → at < 2000 → c < 128 → Recolors m (store m at (recolored (m at) c))
unfolding store
store-Recolors m at c inside lt = record {
  kept = λ q. ground (arith, colors-recolored (m at) c lt, λ (e : q ≡ at). ap m e);
  beyond = λ q le. ground arith;
}

blank_row-Recolors : (n x y : ℕ) (m : ℕ → ℕ) → x + n ≤ 80 → y < 25 → Recolors m (blank_row n x y m)
unfolding blank_row
blank_row-Recolors zero x y m le lt = Recolors-refl m
blank_row-Recolors (suc n) x y m le lt =
    Recolors-trans m next (blank_row n (x + 1) y next)
      (store-Recolors m (80 * y + x) 32 (omega arith) (omega arith))
      (blank_row-Recolors n (x + 1) y next (omega arith) lt)
  where
    next : ℕ → ℕ
    next = store m (80 * y + x) (recolored (m (80 * y + x)) 32)

blank_rows-Recolors : (n y : ℕ) (m : ℕ → ℕ) → y + n ≤ 25 → Recolors m (blank_rows n y m)
unfolding blank_rows
blank_rows-Recolors zero y m le = Recolors-refl m
blank_rows-Recolors (suc n) y m le =
    Recolors-trans m (blank_row 80 0 y m) (blank_rows n (y + 1) (blank_row 80 0 y m))
      (blank_row-Recolors 80 0 y m (omega arith) (omega arith))
      (blank_rows-Recolors n (y + 1) (blank_row 80 0 y m) (omega arith))

pub record OnScreen (k : Console) : Type 0 where
  pub column : k.x < 80
  pub row : k.y < 25

-- What `printf` may have at hand before it wraps.
record Placed (k k' : Console) : Type 0 where
  column : k'.x ≤ 80
  row : k'.y ≤ 25
  -- A full row and a full screen do not meet.
  one : (k'.x ≡ 80) → k'.y < 25
  memory : Recolors k.video_memory k'.video_memory

-- A console on the screen that has the colours of `k`.
pub record Continues (k k' : Console) : Type 0 where
  pub inside : OnScreen k'
  pub memory : Recolors k.video_memory k'.video_memory

place-Placed : (k : Console) (c : ℕ) → OnScreen k → c < 128 → Placed k (place k c)
unfolding place
place-Placed k c v lt = elim (Bool-cases (c == 10)) [
  | inl e ↦ rw e (record {
    column = ground arith;
    row = ground (arith, v.row);
    one = λ full. absurd (omega arith);
    memory = Recolors-refl k.video_memory;
  })
  | inr n ↦ rw n (record {
    column = ground (arith, v.column);
    row = ground (arith, v.row);
    one = λ full. v.row;
    memory = store-Recolors k.video_memory (80 * k.y + k.x) c (ground (arith, v.row, v.column)) lt;
  })
]

wrap-x : (k : Console) → k.x ≤ 80 → (wrap k).x < 80
unfolding wrap
wrap-x k le = ground arith

wrap-y : (k : Console) → k.x ≤ 80 → k.y ≤ 25 → ((k.x ≡ 80) → k.y < 25) → (wrap k).y ≤ 25
unfolding wrap
wrap-y k column row one = ground arith

wrap-memory : (k : Console) → (wrap k).video_memory ≡ k.video_memory
unfolding wrap
wrap-memory k = ground arith

restart-Continues : (k : Console) → k.x < 80 → Continues k (restart k)
unfolding restart
restart-Continues k column = elim (Bool-cases (leb 25 k.y)) [
  | inl e ↦ rw e (record {
    inside = record { column = omega arith; row = omega arith };
    memory = blank_rows-Recolors 25 0 k.video_memory (omega arith);
  })
  | inr n ↦ rw n (record {
    inside = record { column = column; row = ground arith };
    memory = Recolors-refl k.video_memory;
  })
]

print_char-Continues : (k : Console) (c : ℕ) → OnScreen k → c < 128 → Continues k (print_char k c)
unfolding print_char
print_char-Continues k c v lt =
    let r = restart-Continues (wrap (place k c)) (wrap-x (place k c) p.column) in
    record {
      inside = r.inside;
      memory =
          Recolors-trans k.video_memory (place k c).video_memory
            (restart (wrap (place k c))).video_memory p.memory
            (subst (λ m. Recolors m (restart (wrap (place k c))).video_memory)
              (wrap-memory (place k c)) r.memory);
    }
  where
    p : Placed k (place k c)
    p = place-Placed k c v lt

-- Characters below 128, whose upper byte is 0 when `printf` widens them.
pub data IsAscii : List ℕ → Type 0 where
  empty : IsAscii []
  next : {c : ℕ} {cs : List ℕ} → c < 128 → IsAscii cs → IsAscii (c ∷ cs)

abbrev is_ascii : List ℕ → Bool
is_ascii [] = true
is_ascii (c ∷ cs) = ltb c 128 && is_ascii cs

pub is_ascii-IsAscii : (cs : List ℕ) → is_ascii cs ≡ true → IsAscii cs
is_ascii-IsAscii [] e = empty
is_ascii-IsAscii (c ∷ cs) e = next (ground (arith, e)) (is_ascii-IsAscii cs (ground (arith, e)))

-- With its position on the screen, printf of any text of characters below 128 leaves its
-- position on the screen, keeps the colours of every cell of video memory and changes no cell
-- beyond the 2000 of the screen.
pub printf-Continues :
    (k : Console) (cs : List ℕ) → OnScreen k → IsAscii cs → Continues k (printf k cs)
unfolding printf
printf-Continues k [] v empty = record { inside = v; memory = Recolors-refl k.video_memory }
printf-Continues k (c ∷ cs) v (next lt rest) =
    let first = print_char-Continues k c v lt in
    let others = printf-Continues (print_char k c) cs first.inside rest in
    record {
      inside = others.inside;
      memory =
          Recolors-trans k.video_memory (print_char k c).video_memory
            (printf (print_char k c) cs).video_memory first.memory others.memory;
    }

hex_digit-below : (d : ℕ) → d < 16 → hex_digit d < 128
hex_digit-below d lt = unfold hex_digit in ground arith

pub printf_hex-Continues : (k : Console) (key : ℕ) → OnScreen k → Continues k (printf_hex k key)
unfolding printf_hex
printf_hex-Continues k key v = printf-Continues k _ v (
    next (hex_digit-below (key / 2 ^ 4 % 2 ^ 4) (omega arith))
      (next (hex_digit-below (key % 2 ^ 4) (omega arith)) empty))
