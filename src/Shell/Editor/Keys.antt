-- ===== src/Shell/Editor/Keys.antt =====
-- `HandleKeyPress` does to the buffer, the screen and the disk what the line editor says.
use hydra_os.Common.{
  ℕ, zero, suc, ◌+◌, ◌-◌, ◌≤◌, ◌<◌, ◌≡◌, ◌≢◌, ◌∙◌, refl, sym, ap, ap₂, subst, inl, inr, Bool, true,
  false, List, [], ◌∷◌, ◌++◌, length, replicate, set, u8, ltb, ◌==◌, if◌then◌else◌, arith,
  Bool-cases,
}
use hydra_os.TextMode.{Screen}
use hydra_os.Timer.{Timer}
use hydra_os.Filesystem.Machine.{Machine}
use hydra_os.Filesystem.Store.{FileSystem}
use hydra_os.Shell.Output.{Output, text, char, show}
use hydra_os.Shell.Info.{print_prompt}
use hydra_os.Shell.Files.{c_string}
use hydra_os.Shell.Editor.{
  init, greet, Shell, tell, execute_command, handle_key_press, enter, erase, insert, insert_spaces,
  blank_char,
}
use hydra_os.Shell.Editor.Line.{
  drop_last, add_key, add_spaces, remove_key, edit, show-append, padded, set-padded,
  set-padded_zero, set-padded_last, length-drop_last, length-add, c_string-padded,
}

module _ (m : Machine) where
  -- The buffer holds the line, and zeros behind it.
  pub record Holds (h : Shell m) (line : List ℕ) : Type 0 where
    pub fits : length line ≤ 255
    pub buffer : h.command_buffer ≡ padded line (256 - length line)
    pub index : h.buffer_index ≡ length line

  -- What a key that is not Enter leaves of the shell.
  pub record Edited (h h' : Shell m) (r : List ℕ × List Output) : Type 0 where
    pub holds : Holds h' r.0
    pub screen : h'.vga ≡ show h.vga r.1
    pub files : h'.file_system ≡ h.file_system
    pub clock : h'.timer ≡ h.timer

  kept : (h : Shell m) (line : List ℕ) → Holds h line → Edited h h (line, [])
  unfolding show
  kept h line v = record { holds = v; screen = refl; files = refl; clock = refl }

  insert-room :
      (h : Shell m) (line : List ℕ) (c : ℕ)
      → Holds h line
      → length line < 255
      → Edited h (insert m h c) (line ++ c ∷ [], char c ∷ [])
  unfolding insert
  insert-room h line c v lt =
      subst (λ s. Edited h s (line ++ c ∷ [], char c ∷ [])) (sym runs)
        record {
          holds = record {
            fits = omega (arith, length-add line c);
            buffer =
                ap₂ (λ b i. set b i c) v.buffer v.index
                ∙ ap (λ n. set (padded line n) (length line) c) {y = suc (255 - length line)}
                    (omega arith)
                ∙ set-padded line (255 - length line) c
                ∙ ap (padded (line ++ c ∷ [])) (omega (arith, length-add line c));
            index = omega (arith, v.index, length-add line c);
          };
          screen = refl;
          files = refl;
          clock = refl;
        }
    where
      after : Shell m
      after = record (tell m h (char c ∷ [])) {
        command_buffer = set h.command_buffer h.buffer_index c;
        buffer_index = u8 (h.buffer_index + 1);
      }

      runs : insert m h c ≡ after
      runs = ground (arith, v.index)

  insert-full :
      (h : Shell m) (line : List ℕ) (c : ℕ) → Holds h line → 255 ≤ length line → insert m h c ≡ h
  unfolding insert
  insert-full h line c v le = ground (arith, v.index)

  insert_lem :
      (h : Shell m) (line : List ℕ) (c : ℕ)
      → Holds h line
      → Edited h (insert m h c) (add_key line c)
  insert_lem h line c v = elim (Bool-cases (ltb (length line) 255)) [
    | inl room ↦ rw room (insert-room h line c v (ground (arith, room)))
    | inr full ↦ rw full (
        subst (λ s. Edited h s (line, [])) (sym (insert-full h line c v (ground (arith, full))))
          (kept h line v))
  ]

  insert_spaces_lem :
      (n : ℕ) (h : Shell m) (line : List ℕ)
      → Holds h line
      → Edited h (insert_spaces m n h) (add_spaces n line)
  unfolding insert_spaces
  insert_spaces_lem zero h line v = kept h line v
  insert_spaces_lem (suc n) h line v =
      let first = insert_lem h line blank_char v in
      let rest =
        insert_spaces_lem n (insert m h blank_char) (add_key line blank_char).0 first.holds in
      record {
        holds = rest.holds;
        screen =
            rest.screen
            ∙ ap (λ s. show s (add_spaces n (add_key line blank_char).0).1) first.screen
            ∙ sym (show-append h.vga (add_key line blank_char).1 _);
        files = rest.files ∙ first.files;
        clock = rest.clock ∙ first.clock;
      }

  erased : Shell m → Shell m
  erased h = record (tell m h (char 8 ∷ [])) {
    command_buffer = set h.command_buffer (h.buffer_index - 1) 0;
    buffer_index = h.buffer_index - 1;
  }

  erase-some : (h : Shell m) → 0 < h.buffer_index → erase m h ≡ erased h
  unfolding erase erased
  erase-some h lt = ground arith

  erase-none : (h : Shell m) → h.buffer_index ≡ 0 → erase m h ≡ h
  unfolding erase
  erase-none h e = ground arith

  erased_lem :
      (h : Shell m) (line : List ℕ)
      → Holds h line
      → 0 < length line
      → Edited h (erased h) (drop_last line, char 8 ∷ [])
  unfolding erased
  erased_lem h line v lt = record {
    holds = record {
      fits = omega (arith, v.fits, length-drop_last line);
      buffer =
          ap₂ (λ b i. set b (i - 1) 0) v.buffer v.index
          ∙ set-padded_last line (256 - length line) lt
          ∙ ap (padded (drop_last line)) {x = suc (256 - length line)}
              (omega (arith, v.fits, length-drop_last line));
      index = omega (arith, v.index, length-drop_last line);
    };
    screen = refl;
    files = refl;
    clock = refl;
  }

  erase_lem : (h : Shell m) (line : List ℕ) → Holds h line → Edited h (erase m h) (remove_key line)
  erase_lem h line v = elim (Bool-cases (ltb 0 (length line))) [
    | inr none' ↦ rw none' (
        subst (λ s. Edited h s (line, [])) (sym (erase-none h (ground (arith, v.index, none'))))
          (kept h line v))
    | inl some' ↦ rw some' (
        subst (λ s. Edited h s (drop_last line, char 8 ∷ []))
          (sym (erase-some h (ground (arith, v.index, some'))))
          (erased_lem h line v (ground (arith, some'))))
  ]

  -- What Enter does with a line: the outputs, and the file system.
  unfoldable pub run_when : Bool → Timer → FileSystem m → List ℕ → List Output × FileSystem m
  run_when b timer fs command =
      if b
      then (
        text "\n" ∷ (execute_command m timer fs command).0 ++ print_prompt,
        (execute_command m timer fs command).1,
      )
      else (text "\n" ∷ print_prompt, fs)

  unfoldable pub run_line : Timer → FileSystem m → List ℕ → List Output × FileSystem m
  unfolding run_when
  run_line timer fs line = run_when (ltb 0 (length line)) timer fs (c_string line)

  pub record Ran (h h' : Shell m) (r : List Output × FileSystem m) : Type 0 where
    pub holds : Holds h' []
    pub screen : h'.vga ≡ show h.vga r.0
    pub files : h'.file_system ≡ r.1
    pub clock : h'.timer ≡ h.timer

  -- `enter` on the test and the command that it computes.
  finish : Shell m → Bool → List ℕ → Shell m
  finish h b command =
      let (out, fs) = execute_command m h.timer h.file_system command in
      let run : Shell m =
        if b
        then record (tell m h (text "\n" ∷ out)) { file_system = fs }
        else tell m h (text "\n" ∷ []) in
      tell m (record run { command_buffer = replicate 256 0; buffer_index = 0 }) print_prompt

  finish_lem :
      (h : Shell m) (b : Bool) (command : List ℕ)
      → Ran h (finish h b command) (run_when b h.timer h.file_system command)
  unfolding finish run_when
  finish_lem h true command = record {
    holds = record { fits = omega arith; buffer = refl; index = refl };
    screen = sym (show-append h.vga (text "\n" ∷ _) print_prompt);
    files = refl;
    clock = refl;
  }
  finish_lem h false command = record {
    holds = record { fits = omega arith; buffer = refl; index = refl };
    screen = sym (show-append h.vga (text "\n" ∷ []) print_prompt);
    files = refl;
    clock = refl;
  }

  enter-as_finish :
      (h : Shell m)
      → enter m h
        ≡ finish h (ltb 0 h.buffer_index) (c_string (set h.command_buffer h.buffer_index 0))
  unfolding enter finish
  enter-as_finish h = refl

  enter-finish :
      (h : Shell m) (line : List ℕ)
      → Holds h line
      → enter m h ≡ finish h (ltb 0 (length line)) (c_string line)
  enter-finish h line v =
      enter-as_finish h
      ∙ ap₂ (finish h) (ap (ltb 0) v.index)
          (ap c_string same ∙ c_string-padded line (256 - length line))
    where
      same : set h.command_buffer h.buffer_index 0 ≡ padded line (256 - length line)
      same = ap₂ (λ b i. set b i 0) v.buffer v.index ∙ set-padded_zero line (256 - length line)

  pub enter_lem :
      (h : Shell m) (line : List ℕ)
      → Holds h line
      → Ran h (handle_key_press m h 10) (run_line h.timer h.file_system line)
  unfolding handle_key_press run_line
  enter_lem h line v =
      subst (λ s. Ran h s (run_line h.timer h.file_system line)) (sym (enter-finish h line v))
        (finish_lem h (ltb 0 (length line)) (c_string line))

  pub edit_lem :
      (h : Shell m) (line : List ℕ) (c : ℕ)
      → Holds h line
      → c ≢ 10
      → Edited h (handle_key_press m h c) (edit line c)
  unfolding handle_key_press
  edit_lem h line c v ne = rw other (elim (Bool-cases (c == 8)) [
    | inl e ↦ rw e (erase_lem h line v)
    | inr n ↦ rw n (elim (Bool-cases (c == 9)) [
      | inl e ↦ rw e (insert_spaces_lem 4 h line v)
      | inr n' ↦ rw n' (insert_lem h line c v)
    ])
  ])
    where
      other : (c == 10) ≡ false
      other = ground arith

  -- The constructor's shell, and what `Start` leaves of a line.
  pub init-Holds : (s : Screen) (t : Timer) (fs : FileSystem m) → Holds (init m s t fs) []
  unfolding init
  init-Holds s t fs = record { fits = omega arith; buffer = refl; index = refl }

  pub greet-Holds : (h : Shell m) (line : List ℕ) → Holds h line → Holds (greet m h) line
  unfolding greet
  greet-Holds h line v = record { fits = v.fits; buffer = v.buffer; index = v.index }
