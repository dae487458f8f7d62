-- ===== src/Shell/Files/TestData.antt =====
-- The test data of `CommandWrite`, as `CommandCat` prints it.
use hydra_os.Common.{
  ℕ, suc, ◌<◌, ◌≡◌, ◌≢◌, ◌∙◌, refl, ap, ap₂, Bool, true, false, not, ◌&&◌, List, [], ◌∷◌, codes,
  length, get_or, set, get_or-set_ne, arith, ltb, ◌==◌, if◌then◌else◌,
}
use hydra_os.Filesystem.Names.{IsString, empty, char}
use hydra_os.Shell.Output.{color, text, chars}
use hydra_os.Shell.Colors.{white}
use hydra_os.Shell.Files.{c_string, test_data, content_text}

-- A text of characters that are no terminators.
abbrev is_text : List ℕ → Bool
is_text [] = true
is_text (c ∷ cs) = (not (c == 0) && ltb c 256) && is_text cs

is_text-IsString : (cs : List ℕ) → is_text cs ≡ true → IsString cs
is_text-IsString [] e = empty
is_text-IsString (c ∷ cs) e =
    char (ground arith) (ground arith) (is_text-IsString cs (ground arith))

abbrev pub data_bytes : List ℕ
data_bytes = codes test_data

abbrev pub data_size : ℕ
data_size = length data_bytes

pub data-IsString : IsString data_bytes
data-IsString = is_text-IsString data_bytes refl

no_end : (c : ℕ) → c ≢ 0 → (c == 0) ≡ false
no_end c ne = ground arith

-- A buffer that begins with a text, cut behind it, is that text.
c_string-set :
    (cs buffer : List ℕ)
    → IsString cs
    → length cs < length buffer
    → ((q : ℕ) → q < length cs → get_or buffer q 0 ≡ get_or cs q 0)
    → c_string (set buffer (length cs) 0) ≡ cs
c_string-set [] [] v lt same = absurd (omega arith)
c_string-set [] (b ∷ buffer) v lt same = refl
c_string-set (c ∷ cs) [] v lt same = absurd (omega arith)
c_string-set (c ∷ cs) (b ∷ buffer) (char ne l v) lt same =
    ap (λ d. if d == 0 then [] else d ∷ c_string (set buffer (length cs) 0)) (same 0 (omega arith))
    ∙ ap (λ t. if t then [] else c ∷ c_string (set buffer (length cs) 0)) (no_end c ne)
    ∙ ap (λ l. c ∷ l) (c_string-set cs buffer v (omega arith) (λ q lt'. same (suc q) (omega arith)))

-- The test data ends with a new line, so that `CommandCat` adds none.
pub content_text-data :
    (buffer : List ℕ)
    → data_size < length buffer
    → ((q : ℕ) → q < data_size → get_or buffer q 0 ≡ get_or data_bytes q 0)
    → content_text (set buffer data_size 0) data_size ≡ color white ∷ chars data_bytes ∷ []
unfolding content_text
content_text-data buffer lt same =
    ap₂ (λ cs last. color white ∷ chars cs ∷ (if not (last == 10) then text "\n" ∷ [] else []))
      (c_string-set data_bytes buffer data-IsString lt same)
      (get_or-set_ne buffer 52 51 0 0 (omega arith) ∙ same 51 (omega arith))
