-- ===== src/Shell/Uptime.antt =====
-- shell.cpp: `CommandUptime`, on the milliseconds since the boot.
use hydra_os.Common.{ℕ, ◌/◌, ◌%◌, List, [], ◌∷◌, ◌++◌, ◌||◌, ltb, if◌then◌else◌}
use hydra_os.Timer.{Timer, get_milliseconds}
use hydra_os.Shell.Output.{Output, color, text, hex, hex32}
use hydra_os.Shell.Colors.{light_cyan, white}

pub seconds_of : ℕ → ℕ
seconds_of ms = ms / 1000 % 60

pub minutes_of : ℕ → ℕ
minutes_of ms = ms / 1000 / 60 % 60

pub hours_of : ℕ → ℕ
hours_of ms = ms / 1000 / 60 / 60

-- What `CommandUptime` prints of the milliseconds.
pub uptime_text : ℕ → List Output
uptime_text ms =
    color light_cyan
      ∷ text "System uptime: "
      ∷ color white
      ∷ (if ltb 0 (hours_of ms) then hex (hours_of ms) ∷ text "h " ∷ [] else [])
    ++ (if ltb 0 (minutes_of ms) || ltb 0 (hours_of ms)
        then hex (minutes_of ms) ∷ text "m " ∷ []
        else [])
    ++ hex (seconds_of ms) ∷ text "s (" ∷ hex32 ms ∷ text " ms)\n" ∷ []

pub command_uptime : Timer → List Output
command_uptime timer = uptime_text (get_milliseconds timer)
