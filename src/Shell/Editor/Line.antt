-- ===== src/Shell/Editor/Line.antt =====
-- `HandleKeyPress` against a line editor on the line alone: what each key leaves in the buffer,
-- prints and runs.
use hydra_os.Common.{
  ℕ, zero, suc, ◌-◌, ◌<◌, ◌≡◌, ◌∙◌, refl, ap, List, [], ◌∷◌, ◌++◌, length, replicate, set, ltb,
  ◌==◌, if◌then◌else◌, arith,
}
use hydra_os.TextMode.{Screen}
use hydra_os.Shell.Output.{Output, char, display, show}
use hydra_os.Shell.Files.{c_string}
use hydra_os.Shell.Editor.{blank_char}

-- The line without its last character.
abbrev pub drop_last : List ℕ → List ℕ
drop_last [] = []
drop_last (c ∷ []) = []
drop_last (c ∷ d ∷ cs) = c ∷ drop_last (d ∷ cs)

-- What a key does to the line, and what it prints.
abbrev pub add_key : List ℕ → ℕ → List ℕ × List Output
add_key line c = if ltb (length line) 255 then (line ++ c ∷ [], char c ∷ []) else (line, [])

abbrev pub add_spaces : ℕ → List ℕ → List ℕ × List Output
add_spaces zero line = (line, [])
add_spaces (suc n) line =
    let (line', out) = add_key line blank_char in
    let (line'', out') = add_spaces n line' in (line'', out ++ out')

abbrev pub remove_key : List ℕ → List ℕ × List Output
remove_key line = if ltb 0 (length line) then (drop_last line, char 8 ∷ []) else (line, [])

abbrev pub edit : List ℕ → ℕ → List ℕ × List Output
edit line c =
    if c == 8 then remove_key line else if c == 9 then add_spaces 4 line else add_key line c

pub show-append : (s : Screen) (os qs : List Output) → show s (os ++ qs) ≡ show (show s os) qs
unfolding show
show-append s [] qs = refl
show-append s (o ∷ os) qs = show-append (display s o) os qs

abbrev pub padded : List ℕ → ℕ → List ℕ
padded line n = line ++ replicate n 0

pub set-padded :
    (line : List ℕ) (n c : ℕ)
    → set (padded line (suc n)) (length line) c ≡ padded (line ++ c ∷ []) n
set-padded [] n c = refl
set-padded (d ∷ line) n c = ap (λ xs. d ∷ xs) (set-padded line n c)

pub set-padded_zero : (line : List ℕ) (n : ℕ) → set (padded line n) (length line) 0 ≡ padded line n
set-padded_zero [] zero = refl
set-padded_zero [] (suc n) = refl
set-padded_zero (d ∷ line) n = ap (λ xs. d ∷ xs) (set-padded_zero line n)

pub set-padded_last :
    (line : List ℕ) (n : ℕ)
    → 0 < length line
    → set (padded line n) (length line - 1) 0 ≡ padded (drop_last line) (suc n)
set-padded_last [] n lt = absurd (omega arith)
set-padded_last (c ∷ []) n lt = refl
set-padded_last (c ∷ d ∷ line) n lt =
    ap (λ k. set (padded (c ∷ d ∷ line) n) k 0) shorter
    ∙ ap (λ xs. c ∷ xs) (set-padded_last (d ∷ line) n (omega arith))
  where
    shorter : length (c ∷ d ∷ line) - 1 ≡ suc (length (d ∷ line) - 1)
    shorter = omega arith

pub length-drop_last : (line : List ℕ) → length (drop_last line) ≡ length line - 1
length-drop_last [] = refl
length-drop_last (c ∷ []) = refl
length-drop_last (c ∷ d ∷ line) = omega (arith, length-drop_last (d ∷ line))

pub length-add : (line : List ℕ) (c : ℕ) → length (line ++ c ∷ []) ≡ suc (length line)
length-add [] c = refl
length-add (d ∷ line) c = ap suc (length-add line c)

pub c_string-padded : (line : List ℕ) (n : ℕ) → c_string (padded line n) ≡ c_string line
c_string-padded [] zero = refl
c_string-padded [] (suc n) = refl
c_string-padded (c ∷ line) n =
    ap (λ (xs : List ℕ). if c == 0 then [] else c ∷ xs) (c_string-padded line n)
