-- ===== src/Shell/Strings/Copy.antt =====
-- What strcpy of shell.cpp leaves in the memory.
use hydra_os.Common.{
  ℕ, zero, suc, ◌+◌, ◌<◌, ◌≤◌, ◌≡◌, ◌≢◌, ◌∙◌, sym, ap, ap₂, ◌⊎◌, some, List, [], ◌∷◌, length, arith,
}
use hydra_os.Bytes.{Bytes, poke, memcpy}
use hydra_os.Shell.Strings.{strcpy, strcpy_loop}
use hydra_os.Shell.Strings.Laws.{Text}

poke-other : (m : Bytes) (p v q : ℕ) → q ≢ p → poke m p v q ≡ m q
unfolding poke
poke-other m p v q ne = ground arith

Text-poke :
    (m : Bytes) (p v str i : ℕ) (cs : List ℕ)
    → (p < str + i) ⊎ (str + i + length cs < p)
    → Text m str i cs
    → Text (poke m p v) str i cs
unfolding Text
Text-poke m p v str i [] away t = poke-other m p v (str + i) (ground arith) ∙ t
Text-poke m p v str i (c ∷ cs) away (e, nz, t) = (
  poke-other m p v (str + i) (ground arith) ∙ e,
  nz,
  Text-poke m p v str (suc i) cs (ground arith) t,
)

strcpy_loop_lem :
    (fuel : ℕ) (m : Bytes) (dest src i : ℕ) (cs : List ℕ)
    → Text m src i cs
    → (dest ≤ src) ⊎ (src + i + length cs < dest)
    → length cs < fuel
    → strcpy_loop fuel m dest src i ≡ some (memcpy m (dest + i) (src + i) (suc (length cs)))
unfolding strcpy_loop Text memcpy
strcpy_loop_lem zero m dest src i cs t away lt = absurd (omega arith)
strcpy_loop_lem (suc fuel) m dest src i [] t away lt =
    stop ∙ ap (λ v. some (poke m (dest + i) v)) (sym t)
  where
    stop : strcpy_loop (suc fuel) m dest src i ≡ some (poke m (dest + i) 0)
    stop = ground arith
strcpy_loop_lem (suc fuel) m dest src i (c ∷ cs) (e, nz, t) away lt =
    step
    ∙ strcpy_loop_lem fuel (poke m (dest + i) (m (src + i))) dest src (suc i) cs
        (Text-poke m (dest + i) (m (src + i)) src (suc i) cs (ground arith) t) (ground arith)
        (omega arith)
    ∙ ap₂ (λ d s. some (memcpy (poke m (dest + i) (m (src + i))) d s (suc (length cs))))
        (omega arith) (omega arith)
  where
    step :
        strcpy_loop (suc fuel) m dest src i
        ≡ strcpy_loop fuel (poke m (dest + i) (m (src + i))) dest src (suc i)
    step = ground arith

-- On a C string, with fuel for one round per character and one more, and a target that starts
-- at or before the string or behind its terminator, strcpy leaves the memory that memcpy of the
-- string and its terminator leaves.
pub strcpy_lem :
    (fuel : ℕ) (m : Bytes) (dest src : ℕ) (cs : List ℕ)
    → Text m src 0 cs
    → (dest ≤ src) ⊎ (src + length cs < dest)
    → length cs < fuel
    → strcpy fuel m dest src ≡ some (memcpy m dest src (suc (length cs)))
unfolding strcpy
strcpy_lem fuel m dest src cs t away lt =
    strcpy_loop_lem fuel m dest src 0 cs t (ground arith) lt
    ∙ ap₂ (λ d s. some (memcpy m d s (suc (length cs)))) (omega arith) (omega arith)
