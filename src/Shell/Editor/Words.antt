-- ===== src/Shell/Editor/Words.antt =====
-- How `ExecuteCommand` cuts a line into its command and the arguments.
use hydra_os.Common.{
  ℕ, zero, suc, ◌≤◌, ◌<◌, ◌≡◌, ◌≢◌, ◌∙◌, refl, ap, ◌↔◌, Bool, true, not, ◌&&◌, List, [], ◌∷◌, ◌++◌,
  length, replicate, ◌==◌, if◌then◌else◌, arith,
}
use hydra_os.Timer.{Timer}
use hydra_os.Filesystem.Machine.{Machine}
use hydra_os.Filesystem.Store.{FileSystem}
use hydra_os.Shell.Output.{Output}
use hydra_os.Shell.Editor.{
  skip_spaces, first_word, same_text, dispatch, execute_command, blank_char,
}

-- A word: characters that are neither blanks nor terminators.
pub data IsWord : List ℕ → Type 0 where
  empty : IsWord []
  letter : {c : ℕ} {cs : List ℕ} → c ≢ 32 → IsWord cs → IsWord (c ∷ cs)

-- The check, for a word at hand.
abbrev pub is_word : List ℕ → Bool
is_word [] = true
is_word (c ∷ cs) = not (c == 32) && is_word cs

pub is_word-IsWord : (cs : List ℕ) → is_word cs ≡ true → IsWord cs
is_word-IsWord [] e = empty
is_word-IsWord (c ∷ cs) e = letter (ground (arith, e)) (is_word-IsWord cs (ground (arith, e)))

-- A text that does not start with a blank.
pub data StartsFull : List ℕ → Type 0 where
  nothing : StartsFull []
  full : {c : ℕ} {cs : List ℕ} → c ≢ 32 → StartsFull (c ∷ cs)

pub skip_spaces-append :
    (n : ℕ) (cs : List ℕ) → skip_spaces (replicate n blank_char ++ cs) ≡ skip_spaces cs
unfolding skip_spaces
skip_spaces-append zero cs = refl
skip_spaces-append (suc n) cs = skip_spaces-append n cs

pub skip_spaces-full : (cs : List ℕ) → StartsFull cs → skip_spaces cs ≡ cs
unfolding skip_spaces
skip_spaces-full [] nothing = refl
skip_spaces-full (c ∷ cs) (full ne) = ground arith

-- The word ends at the end of the text or at a blank.
pub data EndsWord : List ℕ → Type 0 where
  nothing : EndsWord []
  blank : {cs : List ℕ} → EndsWord (blank_char ∷ cs)

pub first_word-append :
    (n : ℕ) (word rest : List ℕ)
    → IsWord word
    → length word ≤ n
    → EndsWord rest
    → first_word n (word ++ rest) ≡ (word, rest)
unfolding first_word
first_word-append zero [] rest w le e = refl
first_word-append zero (c ∷ word) rest w le e = absurd (omega arith)
first_word-append (suc n) [] [] w le e = refl
first_word-append (suc n) [] (c ∷ rest) w le blank = refl
first_word-append (suc n) (c ∷ word) rest (letter ne w) le e =
    ground (arith, first_word-append n word rest w (omega arith) e)

pub same_text_iff : (xs ys : List ℕ) → (same_text xs ys ≡ true) ↔ (xs ≡ ys)
unfolding same_text
same_text_iff [] [] = (λ e. refl, λ e. refl)
same_text_iff [] (y ∷ ys) = (λ e. cc, λ e. cc)
same_text_iff (x ∷ xs) [] = (λ e. cc, λ e. cc)
same_text_iff (x ∷ xs) (y ∷ ys) =
    (λ e. ground (arith, (same_text_iff xs ys).0), λ e. ground (arith, (same_text_iff xs ys).1))

module _ (m : Machine) (timer : Timer) (fs : FileSystem m) where
  -- `ExecuteCommand` behind the blanks, on what the copying loop finds.
  run_words : List ℕ → List ℕ × List ℕ → List Output × FileSystem m
  run_words line words =
      if length line == 0 then ([], fs) else dispatch m timer fs words.0 (skip_spaces words.1)

  execute_command-run :
      (command : List ℕ)
      → execute_command m timer fs command
        ≡ run_words (skip_spaces command) (first_word 63 (skip_spaces command))
  unfolding execute_command run_words
  execute_command-run command = refl

  run_words-full :
      (line : List ℕ) (words : List ℕ × List ℕ)
      → 0 < length line
      → run_words line words ≡ dispatch m timer fs words.0 (skip_spaces words.1)
  unfolding run_words
  run_words-full line words pos = ground arith

  -- ExecuteCommand of a line of blanks, a word of at most 63 characters without a blank, and an
  -- end or a blank with anything behind it runs the command that the word names, on the rest of
  -- the line without its leading blanks.
  pub execute_command_lem :
      (n : ℕ) (word rest : List ℕ)
      → IsWord word
      → 0 < length word
      → length word ≤ 63
      → EndsWord rest
      → execute_command m timer fs (replicate n blank_char ++ (word ++ rest))
        ≡ dispatch m timer fs word (skip_spaces rest)
  execute_command_lem n [] rest w pos le ends = absurd (omega arith)
  execute_command_lem n (c ∷ word) rest (letter ne w) pos le ends =
      execute_command-run (replicate n blank_char ++ (c ∷ word ++ rest))
      ∙ ap (λ line. run_words line (first_word 63 line)) skipped
      ∙ ap (run_words (c ∷ word ++ rest))
          (first_word-append 63 (c ∷ word) rest (letter ne w) le ends)
      ∙ run_words-full (c ∷ word ++ rest) (c ∷ word, rest) (omega arith)
    where
      skipped : skip_spaces (replicate n blank_char ++ (c ∷ word ++ rest)) ≡ c ∷ word ++ rest
      skipped =
          skip_spaces-append n (c ∷ word ++ rest) ∙ skip_spaces-full (c ∷ word ++ rest) (full ne)
