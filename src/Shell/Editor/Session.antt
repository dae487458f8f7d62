-- ===== src/Shell/Editor/Session.antt =====
-- A session at the shell: keys pressed one after the other, against the line editor.
use hydra_os.Common.{
  ℕ, ◌≡◌, ◌∙◌, refl, sym, ap, ap₂, subst, inl, inr, List, [], ◌∷◌, ◌++◌, ◌==◌, if◌then◌else◌, arith,
  Bool-cases,
}
use hydra_os.Timer.{Timer}
use hydra_os.Filesystem.Machine.{Machine}
use hydra_os.Filesystem.Store.{FileSystem}
use hydra_os.Shell.Output.{Output, show}
use hydra_os.Shell.Editor.{Shell, handle_key_press, press}
use hydra_os.Shell.Editor.Line.{edit, show-append}
use hydra_os.Shell.Editor.Keys.{Holds, run_line, edit_lem, enter_lem}

module _ (m : Machine) where
  -- The line after some keys, what they print, and the file system after the commands they ran.
  pub record Response : Type 0 where
    pub line : List ℕ
    pub out : List Output
    pub files : FileSystem m

  unfoldable pub respond : Timer → FileSystem m → List ℕ → ℕ → Response
  respond timer fs line c =
      if c == 10
      then record {
        line = [];
        out = (run_line m timer fs line).0;
        files = (run_line m timer fs line).1;
      }
      else record { line = (edit line c).0; out = (edit line c).1; files = fs }

  unfoldable pub respond_all : Timer → FileSystem m → List ℕ → List ℕ → Response
  unfolding respond
  respond_all timer fs line [] = record { line = line; out = []; files = fs }
  respond_all timer fs line (c ∷ cs) =
      let first = respond timer fs line c in
      let rest = respond_all timer first.files first.line cs in
      record { line = rest.line; out = first.out ++ rest.out; files = rest.files }

  -- The shell `h'` is `h` after that response.
  pub record Follows (h h' : Shell m) (r : Response) : Type 0 where
    pub holds : Holds m h' r.line
    pub screen : h'.vga ≡ show h.vga r.out
    pub files : h'.file_system ≡ r.files
    pub clock : h'.timer ≡ h.timer

  handle_key_press_lem :
      (h : Shell m) (line : List ℕ) (c : ℕ)
      → Holds m h line
      → Follows h (handle_key_press m h c) (respond h.timer h.file_system line c)
  unfolding respond
  handle_key_press_lem h line c v = elim (Bool-cases (c == 10)) [
    | inl e ↦ rw e (
        subst (λ d. Follows h (handle_key_press m h d) (entered h line)) (ground (arith, e))
          (let r = enter_lem m h line v in
            record { holds = r.holds; screen = r.screen; files = r.files; clock = r.clock }))
    | inr n ↦ rw n (
        let r = edit_lem m h line c v (ground (arith, n)) in
        record { holds = r.holds; screen = r.screen; files = r.files; clock = r.clock })
  ]
    where
      entered : Shell m → List ℕ → Response
      entered h line = record {
        line = [];
        out = (run_line m h.timer h.file_system line).0;
        files = (run_line m h.timer h.file_system line).1;
      }

  -- From a shell whose buffer holds a line, any sequence of key presses leaves the buffer
  -- holding the line that the line editor gives for these keys, behind it zeros, shows on the
  -- screen the output of the editor and of the commands that Enter ran, one after the other,
  -- leaves the file system that these commands leave, and does not touch the timer.
  pub press_refines :
      (cs : List ℕ) (h : Shell m) (line : List ℕ)
      → Holds m h line
      → Follows h (press m h cs) (respond_all h.timer h.file_system line cs)
  unfolding press respond_all show
  press_refines [] h line v = record { holds = v; screen = refl; files = refl; clock = refl }
  press_refines (c ∷ cs) h line v =
      let first = handle_key_press_lem h line c v in
      let r = respond h.timer h.file_system line c in
      let rest : Follows (handle_key_press m h c) (press m (handle_key_press m h c) cs)
          (respond_all h.timer r.files r.line cs) =
        subst
          (λ (p : Timer × FileSystem m).
            Follows (handle_key_press m h c) (press m (handle_key_press m h c) cs)
              (respond_all p.0 p.1 r.line cs))
          (ap₂ (λ t f. (t, f)) first.clock first.files)
          (press_refines cs (handle_key_press m h c) r.line first.holds) in
      record {
        holds = rest.holds;
        screen =
            rest.screen
            ∙ ap (λ s. show s (respond_all h.timer r.files r.line cs).out) first.screen
            ∙ sym (show-append h.vga r.out _);
        files = rest.files;
        clock = rest.clock ∙ first.clock;
      }
