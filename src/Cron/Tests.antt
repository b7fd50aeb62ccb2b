-- ===== src/Cron/Tests.antt =====
-- The thread of src/haussteuerung.cpp for the clock at concrete times.
use haussteuerung.Prelude.{ℕ, ◌≡◌, ◌≢◌, refl, ◌∷◌, [], ◌++◌, suc, arith}
use haussteuerung.Cron.{start, cron_timer}
use haussteuerung.Cron.Minutes.{first_tasks, tasks_from, minutes_lem}

-- Days of one long month.
abbrev mday : ℕ → ℕ
mday d = suc d

other_day : (d : ℕ) → mday d ≢ mday (suc d)
other_day d = λ e. absurd (omega (arith, e))

-- Three looks before midnight and two behind it.
minutes_lem_example :
    cron_timer mday (86370 ∷ 86380 ∷ 86390 ∷ 86400 ∷ 86460 ∷ []) (start mday 86370)
    ≡ first_tasks 1439 ++ tasks_from 1440 2
minutes_lem_example = minutes_lem mday other_day 86370 (86380 ∷ 86390 ∷ 86400 ∷ 86460 ∷ []) refl
