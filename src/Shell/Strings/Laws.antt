-- ===== src/Shell/Strings/Laws.antt =====
-- What strlen, strcmp and strncmp of shell.cpp answer on C strings.
use hydra_os.Common.{
  ℕ, zero, suc, ◌+◌, ◌<◌, ◌≡◌, ◌≢◌, ◌∙◌, refl, ap, Bool, true, false, ◌⊎◌, inl, inr, subst, Option,
  some, List, [], ◌∷◌, length, take, arith,
}
use hydra_os.Bytes.{Bytes}
use hydra_os.Shell.Strings.{strlen, strlen_loop, strcmp, strcmp_loop, strncmp, strncmp_loop}

-- From `str + i` on, the memory holds these characters and a NUL behind them.
unfoldable pub Text : Bytes → ℕ → ℕ → List ℕ → Type 0
Text m str i [] = m (str + i) ≡ 0
Text m str i (c ∷ cs) = (m (str + i) ≡ c) × (c ≢ 0) × Text m str (suc i) cs

strlen_loop_lem :
    (fuel : ℕ) (m : Bytes) (str i : ℕ) (cs : List ℕ)
    → Text m str i cs
    → length cs < fuel
    → strlen_loop fuel m str i ≡ some (i + length cs)
unfolding strlen_loop Text
strlen_loop_lem zero m str i cs t lt = absurd (omega arith)
strlen_loop_lem (suc fuel) m str i [] t lt = ground arith
strlen_loop_lem (suc fuel) m str i (c ∷ cs) (e, nz, t) lt =
    stop ∙ strlen_loop_lem fuel m str (suc i) cs t (omega arith) ∙ ap some (omega arith)
  where
    stop : strlen_loop (suc fuel) m str i ≡ strlen_loop fuel m str (suc i)
    stop = ground arith

-- On a C string, with fuel for one round per character and one more, strlen returns the number
-- of its characters.
pub strlen_lem :
    (fuel : ℕ) (m : Bytes) (str : ℕ) (cs : List ℕ)
    → Text m str 0 cs
    → length cs < fuel
    → strlen fuel m str ≡ some (length cs)
unfolding strlen
strlen_lem fuel m str cs t lt = strlen_loop_lem fuel m str 0 cs t lt ∙ ap some (omega arith)

-- `strcmp` returns, and answers whether the strings are the same.
pub Compares : Option Bool → List ℕ → List ℕ → Type 0
Compares answer xs ys = ((answer ≡ some true) × (xs ≡ ys)) ⊎ ((answer ≡ some false) × (xs ≢ ys))

eq_cases : (a b : ℕ) → (a ≡ b) ⊎ (a ≢ b)
eq_cases a b = ground arith

Compares-step :
    (a b : Option Bool) (x : ℕ) (xs ys : List ℕ)
    → a ≡ b
    → Compares b xs ys
    → Compares a (x ∷ xs) (x ∷ ys)
unfolding Compares
Compares-step a b x xs ys e (inl (r, p)) = inl (e ∙ r, ap (λ zs. x ∷ zs) p)
Compares-step a b x xs ys e (inr (r, ne)) = inr (e ∙ r, λ p. ne cc)

strcmp_loop_lem :
    (fuel : ℕ) (m : Bytes) (str1 str2 i : ℕ) (xs ys : List ℕ)
    → Text m str1 i xs
    → Text m str2 i ys
    → length xs < fuel
    → Compares (strcmp_loop fuel m str1 str2 i) xs ys
unfolding strcmp_loop Text Compares
strcmp_loop_lem zero m str1 str2 i xs ys t u lt = absurd (omega arith)
strcmp_loop_lem (suc fuel) m str1 str2 i [] [] t u lt = inl (ground arith, refl)
strcmp_loop_lem (suc fuel) m str1 str2 i [] (y ∷ ys) t (e, nz, u) lt = inr (ground arith, λ p. cc)
strcmp_loop_lem (suc fuel) m str1 str2 i (x ∷ xs) [] (e, nz, t) u lt = inr (ground arith, λ p. cc)
strcmp_loop_lem (suc fuel) m str1 str2 i (x ∷ xs) (y ∷ ys) (e, nz, t) (e', nz', u) lt =
    elim (eq_cases x y) [
      | inl q ↦
          subst (λ z. Compares (strcmp_loop (suc fuel) m str1 str2 i) (x ∷ xs) (z ∷ ys)) q
            (Compares-step (strcmp_loop (suc fuel) m str1 str2 i)
              (strcmp_loop fuel m str1 str2 (suc i)) x xs ys (ground arith)
              (strcmp_loop_lem fuel m str1 str2 (suc i) xs ys t u (omega arith)))
      | inr ne ↦ inr (ground arith, λ p. ne cc)
    ]

-- On two C strings, with fuel for one round per character of the first and one more, strcmp
-- returns: true where the strings are the same, false where they differ.
pub strcmp_lem :
    (fuel : ℕ) (m : Bytes) (str1 str2 : ℕ) (xs ys : List ℕ)
    → Text m str1 0 xs
    → Text m str2 0 ys
    → length xs < fuel
    → Compares (strcmp fuel m str1 str2) xs ys
unfolding strcmp
strcmp_lem fuel m str1 str2 xs ys t u lt = strcmp_loop_lem fuel m str1 str2 0 xs ys t u lt

strncmp_loop_lem :
    (left : ℕ) (m : Bytes) (str1 str2 i : ℕ) (xs ys : List ℕ)
    → Text m str1 i xs
    → Text m str2 i ys
    → Compares (some (strncmp_loop left m str1 str2 i)) (take left xs) (take left ys)
unfolding strncmp_loop Text Compares
strncmp_loop_lem zero m str1 str2 i xs ys t u = inl (refl, refl)
strncmp_loop_lem (suc left) m str1 str2 i [] [] t u = inl (ap some (ground arith), refl)
strncmp_loop_lem (suc left) m str1 str2 i [] (y ∷ ys) t (e, nz, u) =
    inr (ap some (ground arith), λ p. cc)
strncmp_loop_lem (suc left) m str1 str2 i (x ∷ xs) [] (e, nz, t) u =
    inr (ap some (ground arith), λ p. cc)
strncmp_loop_lem (suc left) m str1 str2 i (x ∷ xs) (y ∷ ys) (e, nz, t) (e', nz', u) =
    elim (eq_cases x y) [
      | inl q ↦
          subst
            (λ z.
              Compares (some (strncmp_loop (suc left) m str1 str2 i)) (x ∷ take left xs)
                (z ∷ take left ys))
            q
            (Compares-step (some (strncmp_loop (suc left) m str1 str2 i))
              (some (strncmp_loop left m str1 str2 (suc i))) x (take left xs) (take left ys)
              (ap some (ground arith)) (strncmp_loop_lem left m str1 str2 (suc i) xs ys t u))
      | inr ne ↦ inr (ap some (ground arith), λ p. ne cc)
    ]

-- On two C strings, strncmp answers true where their first n characters, or all of them in a
-- shorter string, are the same, and false where they differ.
pub strncmp_lem :
    (m : Bytes) (str1 str2 n : ℕ) (xs ys : List ℕ)
    → Text m str1 0 xs
    → Text m str2 0 ys
    → Compares (some (strncmp m str1 str2 n)) (take n xs) (take n ys)
unfolding strncmp
strncmp_lem m str1 str2 n xs ys t u = strncmp_loop_lem n m str1 str2 0 xs ys t u
