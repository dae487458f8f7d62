-- ===== src/Shell/Strings/Tests.antt =====
-- The string routines on a small memory with "rm" at 10, "rm" at 20 and "rx" at 30.
use hydra_os.Common.{
  ℕ, ◌==◌, ◌≡◌, refl, if◌then◌else◌, true, false, some, List, [], ◌∷◌, length, suc, inr, arith,
}
use hydra_os.Bytes.{Bytes, memcpy}
use hydra_os.Shell.Strings.{strcmp, strcmp_loop, strncmp, strncmp_loop, strcpy}
use hydra_os.Shell.Strings.Laws.{Text}
use hydra_os.Shell.Strings.Copy.{strcpy_lem}

abbrev memory : Bytes
memory q =
    if q == 10
    then 114
    else if q == 11
    then 109
    else if q == 20
    then 114
    else if q == 21
    then 109
    else if q == 30
    then 114
    else if q == 31
    then 120
    else 0

abbrev rm : List ℕ
rm = 114 ∷ 109 ∷ []

abbrev rx : List ℕ
rx = 114 ∷ 120 ∷ []

rm_at_10 : Text memory 10 0 rm
unfolding Text
rm_at_10 = (refl, omega arith, (refl, omega arith, refl))

rx_at_30 : Text memory 30 0 rx
unfolding Text
rx_at_30 = (refl, omega arith, (refl, omega arith, refl))

same_words : strcmp 3 memory 10 20 ≡ some true
unfolding strcmp strcmp_loop
same_words = refl

other_words : strcmp 3 memory 10 30 ≡ some false
unfolding strcmp strcmp_loop
other_words = refl

first_character : strncmp memory 10 30 1 ≡ true
unfolding strncmp strncmp_loop
first_character = refl

strcpy_example : strcpy 3 memory 40 10 ≡ some (memcpy memory 40 10 (suc (length rm)))
strcpy_example = strcpy_lem 3 memory 40 10 rm rm_at_10 (inr (omega arith)) (omega arith)
