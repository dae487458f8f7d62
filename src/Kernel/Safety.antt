-- ===== src/Kernel/Safety.antt =====
-- Whatever interrupts come, the cursor, the pointer and the position of `printf` stay on the screen.
use hydra_os.Common.{ℕ, ◌≤◌, ◌<◌, ◌≡◌, ◌∙◌, refl, true, Option, none, some, List, [], ◌∷◌, codes}
use hydra_os.TextMode.{Screen}
use hydra_os.TextMode.Cursor.{Safe}
use hydra_os.TextMode.Cursor
use hydra_os.Console.{Console, printf, printf_hex}
use hydra_os.Console.Laws.{is_ascii-IsAscii, printf-Continues, printf_hex-Continues}
use hydra_os.Console.Laws
use hydra_os.Filesystem.Machine.{Machine}
use hydra_os.Keyboard
use hydra_os.Mouse.{MouseDriver, Event, activate, move, down, up}
use hydra_os.Mouse
use hydra_os.Pointer.{MouseToConsole, on_activate, on_mouse_move}
use hydra_os.Pointer.Trail
use hydra_os.Pointer.Trail.{StaysInside, on_activate-inside, on_mouse_move-inside}
use hydra_os.Shell.Editor.{handle_key_press}
use hydra_os.Shell.Editor.Safety.{key-Safe}
use hydra_os.Kernel.{
  SharedHeap, World, with_screen, with_video, on_timer, on_key_down, on_key, on_keyboard, hear,
  hear_all, on_mouse, report,
}

module _ (m : Machine) (shared : SharedHeap m) (strings : ℕ → List ℕ) where
  abbrev W : Type 0
  W = World m shared strings

  -- A world on the video memory that was `v`.
  pub record IsFine (v : ℕ → ℕ) (w : W) : Type 0 where
    pub cursor : Cursor.OnScreen w.shell.vga
    pub pointer : Trail.OnScreen w.pointer
    pub console_column : w.console_x < 80
    pub console_row : w.console_y < 25
    pub cells : (q : ℕ) → 2000 ≤ q → w.shell.vga.video_memory q ≡ v q

  module _ (v : ℕ → ℕ) where
    with_screen-IsFine :
        (w : W) (s : Screen)
        → IsFine v w
        → Safe w.shell.vga s
        → IsFine v (with_screen m shared strings w s)
    unfolding with_screen
    with_screen-IsFine w s f safe = record {
      cursor = safe.on_screen;
      pointer = f.pointer;
      console_column = f.console_column;
      console_row = f.console_row;
      cells = λ q le. safe.cells q le ∙ f.cells q le;
    }

    with_video-IsFine :
        (w : W) (memory : ℕ → ℕ)
        → IsFine v w
        → ((q : ℕ) → 2000 ≤ q → memory q ≡ w.shell.vga.video_memory q)
        → IsFine v (with_video m shared strings w memory)
    unfolding with_video
    with_video-IsFine w memory f same =
        with_screen-IsFine w (record w.shell.vga { video_memory = memory }) f
          (record {
            on_screen = record { column = f.cursor.column; row = f.cursor.row };
            cells = same;
          })

    pub on_timer-IsFine : (w : W) → IsFine v w → IsFine v (on_timer m shared strings w)
    unfolding on_timer
    on_timer-IsFine w f = record {
      cursor = f.cursor;
      pointer = f.pointer;
      console_column = f.console_column;
      console_row = f.console_row;
      cells = f.cells;
    }

    on_key_down-IsFine : (w : W) (c : ℕ) → IsFine v w → IsFine v (on_key_down m shared strings w c)
    unfolding on_key_down
    on_key_down-IsFine w c f = record {
      cursor = safe.on_screen;
      pointer = f.pointer;
      console_column = f.console_column;
      console_row = f.console_row;
      cells = λ q le. safe.cells q le ∙ f.cells q le;
    }
      where
        safe : Safe w.shell.vga (handle_key_press m w.shell c).vga
        safe = key-Safe m w.shell c f.cursor

    on_key-IsFine : (w : W) (o : Option ℕ) → IsFine v w → IsFine v (on_key m shared strings w o)
    unfolding on_key
    on_key-IsFine w none f = f
    on_key-IsFine w (some c) f = on_key_down-IsFine w c f

    pub on_keyboard-IsFine : (w : W) → IsFine v w → IsFine v (on_keyboard m shared strings w)
    unfolding on_keyboard
    on_keyboard-IsFine w f = on_key-IsFine w (Keyboard.handle_interrupt true w.key_byte) f

    with_pointer-IsFine :
        (w : W) (r : MouseToConsole × (ℕ → ℕ))
        → IsFine v w
        → Trail.OnScreen r.0
        → ((q : ℕ) → 2000 ≤ q → r.1 q ≡ w.shell.vga.video_memory q)
        → IsFine v (with_video m shared strings (record w { pointer = r.0 }) r.1)
    with_pointer-IsFine w r f on same =
        with_video-IsFine (record w { pointer = r.0 }) r.1
          (record {
            cursor = f.cursor;
            pointer = on;
            console_column = f.console_column;
            console_row = f.console_row;
            cells = f.cells;
          })
          same

    hear-IsFine : (w : W) (e : Event) → IsFine v w → IsFine v (hear m shared strings w e)
    unfolding hear
    hear-IsFine w activate f =
        let r = on_activate-inside w.shell.vga.video_memory in
        with_pointer-IsFine w (on_activate w.shell.vga.video_memory) f r.inside r.cells
    hear-IsFine w (move dx dy) f =
        let r = on_mouse_move-inside w.shell.vga.video_memory w.pointer dx dy f.pointer in
        with_pointer-IsFine w (on_mouse_move w.pointer w.shell.vga.video_memory dx dy) f r.inside
          r.cells
    hear-IsFine w (down button) f = f
    hear-IsFine w (up button) f = f

    pub hear_all-IsFine :
        (w : W) (es : List Event) → IsFine v w → IsFine v (hear_all m shared strings w es)
    unfolding hear_all
    hear_all-IsFine w [] f = f
    hear_all-IsFine w (e ∷ es) f =
        hear_all-IsFine (hear m shared strings w e) es (hear-IsFine w e f)

    -- The pointer's place before `OnActivate` does not matter.
    pub activate-IsFine :
        (w : W)
        → IsFine v (record w { pointer = record { x = 0; y = 0 } })
        → IsFine v (hear_all m shared strings w (activate ∷ []))
    unfolding hear_all hear
    activate-IsFine w f =
        let r = on_activate-inside w.shell.vga.video_memory in
        with_pointer-IsFine (record w { pointer = record { x = 0; y = 0 } })
          (on_activate w.shell.vga.video_memory) f r.inside r.cells

    pub on_mouse-IsFine : (w : W) → IsFine v w → IsFine v (on_mouse m shared strings w)
    unfolding on_mouse
    on_mouse-IsFine w f =
        hear_all-IsFine
          (record w { mouse = (Mouse.handle_interrupt w.mouse w.status w.key_byte).0 })
          (Mouse.handle_interrupt w.mouse w.status w.key_byte).1
          (record {
            cursor = f.cursor;
            pointer = f.pointer;
            console_column = f.console_column;
            console_row = f.console_row;
            cells = f.cells;
          })

    pub report-IsFine : (n : ℕ) (w : W) → IsFine v w → IsFine v (report m shared strings n w)
    unfolding report
    report-IsFine n w f =
        with_video-IsFine (record w { console_x = k''.x; console_y = k''.y }) k''.video_memory
          (record {
            cursor = f.cursor;
            pointer = f.pointer;
            console_column = b.inside.column;
            console_row = b.inside.row;
            cells = f.cells;
          })
          (λ q le. b.memory.beyond q le ∙ a.memory.beyond q le)
      where
        message : List ℕ
        message = codes "UNHANDLED INTERRUPT 0x"

        k : Console
        k = record { video_memory = w.shell.vga.video_memory; x = w.console_x; y = w.console_y }

        k' : Console
        k' = printf k message

        k'' : Console
        k'' = printf_hex k' n

        a : Laws.Continues k k'
        a =
            printf-Continues k message (record { column = f.console_column; row = f.console_row })
              (is_ascii-IsAscii message refl)

        b : Laws.Continues k' k''
        b = printf_hex-Continues k' n a.inside
