-- ===== src/Shell/Editor/Typing.antt =====
-- Commands that are typed: printable characters and then Enter.
use hydra_os.Common.{
  ℕ, ◌+◌, ◌≤◌, ◌<◌, ◌≡◌, ◌≢◌, ◌∙◌, refl, sym, ap, subst, map, Bool, true, ◌&&◌, ltb, List, [], ◌∷◌,
  ◌++◌, length, length-append, ltb, arith,
}
use mathlib.Core.List.{append-nil, append_assoc}
use hydra_os.Timer.{Timer}
use hydra_os.Filesystem.Machine.{Machine}
use hydra_os.Filesystem.Store.{FileSystem}
use hydra_os.Shell.Output.{Output, text, char}
use hydra_os.Shell.Info.{print_prompt}
use hydra_os.Shell.Files.{c_string}
use hydra_os.Shell.Editor.{Shell, press, execute_command}
use hydra_os.Shell.Editor.Keys.{Holds, run_line, run_when}
use hydra_os.Shell.Editor.Session.{Response, respond, respond_all, Follows, press_refines}

-- Characters that the editor keeps and that do not end a C string.
pub data IsTyped : List ℕ → Type 0 where
  empty : IsTyped []
  key : {c : ℕ} {cs : List ℕ} → c ≢ 0 → c ≢ 8 → c ≢ 9 → c ≢ 10 → IsTyped cs → IsTyped (c ∷ cs)

-- The check, for a text at hand.
abbrev pub is_typed : List ℕ → Bool
is_typed [] = true
is_typed (c ∷ cs) = ltb 10 c && is_typed cs

pub is_typed-IsTyped : (cs : List ℕ) → is_typed cs ≡ true → IsTyped cs
is_typed-IsTyped [] e = empty
is_typed-IsTyped (c ∷ cs) e =
    key (ground (arith, e)) (ground (arith, e)) (ground (arith, e)) (ground (arith, e))
      (is_typed-IsTyped cs (ground (arith, e)))

pub IsTyped-append_all : (cs ds : List ℕ) → IsTyped cs → IsTyped ds → IsTyped (cs ++ ds)
IsTyped-append_all [] ds v w = w
IsTyped-append_all (c ∷ cs) ds (key z b t n v) w = key z b t n (IsTyped-append_all cs ds v w)

c_string-typed : (cs : List ℕ) → IsTyped cs → c_string cs ≡ cs
c_string-typed [] empty = refl
c_string-typed (c ∷ cs) (key z b t n v) = ground (arith, c_string-typed cs v)

IsTyped-append :
    (cs : List ℕ) (c : ℕ) → IsTyped cs → c ≢ 0 → c ≢ 8 → c ≢ 9 → c ≢ 10 → IsTyped (cs ++ c ∷ [])
IsTyped-append [] c v z b t n = key z b t n empty
IsTyped-append (d ∷ cs) c (key z' b' t' n' v) z b t n =
    key z' b' t' n' (IsTyped-append cs c v z b t n)

module _ (m : Machine) (timer : Timer) where
  respond-typed :
      (fs : FileSystem m) (line : List ℕ) (c : ℕ)
      → c ≢ 8
      → c ≢ 9
      → c ≢ 10
      → length line < 255
      → respond m timer fs line c ≡ record { line = line ++ c ∷ []; out = char c ∷ []; files = fs }
  unfolding respond
  respond-typed fs line c b t n lt = ground arith

  -- The response to Enter on a line that is a C string and not empty.
  unfoldable pub executed : FileSystem m → List ℕ → Response m
  executed fs line = record {
    line = [];
    out = text "\n" ∷ (execute_command m timer fs line).0 ++ print_prompt;
    files = (execute_command m timer fs line).1;
  }

  respond-enter :
      (fs : FileSystem m) (line : List ℕ)
      → IsTyped line
      → 0 < length line
      → respond m timer fs line 10 ≡ executed fs line
  unfolding respond run_line run_when executed
  respond-enter fs line v pos = ground (arith, c_string-typed line v)

  -- Output before a response.
  unfoldable pub after : List Output → Response m → Response m
  after out r = record r { out = out ++ r.out }

  -- The response to the line so far, more characters, and Enter.
  typed_lem :
      (cs : List ℕ) (fs : FileSystem m) (line : List ℕ)
      → IsTyped line
      → IsTyped cs
      → length line + length cs ≤ 255
      → 0 < length line + length cs
      → respond_all m timer fs line (cs ++ 10 ∷ []) ≡ after (map char cs) (executed fs (line ++ cs))
  unfolding respond_all after
  typed_lem [] fs line v e le pos =
      ap (λ (r : Response m). record r { out = r.out ++ [] })
        (respond-enter fs line v (omega arith))
      ∙ ap (λ out. record (executed fs line) { out = out }) (append-nil (executed fs line).out)
      ∙ ap (executed fs) (sym (append-nil line))
  typed_lem (c ∷ cs) fs line v (key z b t n w) le pos =
      ap (λ (r : Response m). after r.out (respond_all m timer r.files r.line (cs ++ 10 ∷ [])))
        (respond-typed fs line c b t n (omega arith))
      ∙ ap (after (char c ∷ [])) (
          typed_lem cs fs (line ++ c ∷ []) (IsTyped-append line c v z b t n) w
            (omega (arith, length-append line (c ∷ [])))
            (omega (arith, length-append line (c ∷ []))))
      ∙ ap (λ l. after (map char (c ∷ cs)) (executed fs l)) (append_assoc line (c ∷ []) cs)

-- A line typed at an empty line.
pub press-typed :
    (m : Machine) (h : Shell m) (cs : List ℕ)
    → Holds m h []
    → IsTyped cs
    → 0 < length cs
    → length cs ≤ 255
    → Follows m h
        (press m h (cs ++ 10 ∷ []))
        (after m h.timer (map char cs) (executed m h.timer h.file_system cs))
press-typed m h cs v w pos le =
    subst (Follows m h (press m h (cs ++ 10 ∷ [])))
      (typed_lem m h.timer cs h.file_system [] empty w (omega arith) (omega arith))
      (press_refines m (cs ++ 10 ∷ []) h [] v)
