-- ===== src/Timer/Tests.antt =====
-- A timer at 100 Hz whose counter is about to wrap.
use hydra_os.Common.{◌*◌, ◌-◌, ◌^◌, ◌≡◌, refl, some, [], arith}
use hydra_os.Timer.{Timer, sleep, get_milliseconds}
use hydra_os.Timer.Laws.{ticked, sleep_lem, get_milliseconds_lem}

abbrev late : Timer
late = record { ticks = 2 ^ 32 - 1; frequency = 100; ports = [] }

-- 55 milliseconds are five periods of ten milliseconds and a half.
sleep_example : sleep 10 late 55 ≡ some (ticked 5 late)
sleep_example =
    sleep_lem 10 55 5 late (omega arith) (omega arith) (omega arith) (omega arith) (omega arith)

abbrev early : Timer
early = record { ticks = 250; frequency = 100; ports = [] }

get_milliseconds_example : get_milliseconds early ≡ 10 * 250
get_milliseconds_example = get_milliseconds_lem early refl (omega arith)
