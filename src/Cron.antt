-- ===== src/Cron.antt =====
-- `cronTimer` of src/haussteuerung.cpp: the thread that looks at the clock every ten seconds and
-- starts the tasks of a new minute. Times are seconds of the local time; the day of the month of
-- a day is an argument.
pub mod Minutes
pub mod Tests
use haussteuerung.Prelude.{
  ℕ, zero, suc, ◌+◌, ◌/◌, ◌%◌, Bool, true, false, not, List, [], ◌∷◌, ◌++◌, if◌then◌else◌, ◌==◌,
}

-- What the thread calls; the calls of every minute, at that minute, are one task.
pub data Task : Type 0 where
  every_minute : ℕ → Task
  average_and_save : Task
  refresh_regenmenge : ℕ → Task
  save_regen_1h : Task
  save_regen_1d : Task

pub record Cron : Type 0 where
  pub min_alt : ℕ
  pub day_alt : ℕ

module _ (mday : ℕ → ℕ) where
  -- `min_alt` begins with 60, which is no minute.
  unfoldable pub start : ℕ → Cron
  start now = record { min_alt = 60; day_alt = mday (now / 86400) }

  -- The tasks of a new minute, in their order.
  unfoldable pub new_minute : ℕ → Cron → List Task
  new_minute now c =
      let tm_min = now / 60 % 60 in
      every_minute (now / 60)
      ∷ ((if tm_min % 10 == 0 then average_and_save ∷ [] else [])
          ++ ((if tm_min == 0
                then refresh_regenmenge (now / 3600 % 24) ∷ save_regen_1h ∷ []
                else [])
              ++ (if not (c.day_alt == mday (now / 86400)) then save_regen_1d ∷ [] else [])))

  -- A look at the clock.
  unfoldable pub look : ℕ → Cron → Cron × List Task
  look now c =
      let tm_min = now / 60 % 60 in
      if c.min_alt == tm_min
      then (c, [])
      else (record { min_alt = tm_min; day_alt = mday (now / 86400) }, new_minute now c)

  -- The times of the looks, one after the other.
  unfoldable pub cron_timer : List ℕ → Cron → List Task
  cron_timer [] c = []
  cron_timer (now ∷ times) c = let (c', tasks) = look now c in tasks ++ cron_timer times c'
