-- ===== src/Cron/Minutes.antt =====
-- Every minute once, src/haussteuerung.cpp: what `cronTimer` does while it looks at the clock at
-- least once a minute.
use haussteuerung.Prelude.{
  ℕ, zero, suc, ◌+◌, ◌-◌, ◌/◌, ◌%◌, ◌≤◌, ◌≡◌, ◌≢◌, refl, ap, Bool, true, false, not, ◌&&◌, List, [],
  ◌∷◌, ◌++◌, if◌then◌else◌, ◌==◌, leb, arith, Bool-cases, inl, inr,
}
use mathlib.Core.List.{append-nil}
use haussteuerung.Cron.{
  Task, every_minute, average_and_save, refresh_regenmenge, save_regen_1h, save_regen_1d, Cron,
  start, new_minute, look, cron_timer,
}

-- The clock goes on, and from look to look by a minute at most.
abbrev pub steady : ℕ → List ℕ → Bool
steady before [] = true
steady before (now ∷ times) = leb before now && leb now (before + 60) && steady now times

abbrev pub last_of : ℕ → List ℕ → ℕ
last_of before [] = before
last_of before (now ∷ times) = last_of now times

-- The tasks of a minute that follows another one: those of ten minutes, of an hour and of a day
-- where it begins one.
abbrev pub tasks_of : ℕ → List Task
tasks_of m =
    every_minute m
    ∷ ((if m % 10 == 0 then average_and_save ∷ [] else [])
        ++ ((if m % 60 == 0 then refresh_regenmenge (m / 60 % 24) ∷ save_regen_1h ∷ [] else [])
            ++ (if m % 1440 == 0 then save_regen_1d ∷ [] else [])))

-- The tasks of the minute in which the thread starts.
abbrev pub first_tasks : ℕ → List Task
first_tasks m =
    every_minute m
    ∷ ((if m % 10 == 0 then average_and_save ∷ [] else [])
        ++ (if m % 60 == 0 then refresh_regenmenge (m / 60 % 24) ∷ save_regen_1h ∷ [] else []))

-- The tasks of n minutes from a minute on.
unfoldable pub tasks_from : ℕ → ℕ → List Task
tasks_from m zero = []
tasks_from m (suc n) = tasks_of m ++ tasks_from (suc m) n

day_of : (now : ℕ) → now / 86400 ≡ now / 60 / 1440
day_of now = omega arith

hour_of : (now : ℕ) → now / 3600 ≡ now / 60 / 60
hour_of now = omega arith

ten_minutes : (m : ℕ) → m % 60 % 10 ≡ m % 10
ten_minutes m = omega arith

other_minute : (m : ℕ) → m % 60 ≢ suc m % 60
other_minute m = ground arith

next_day : (m : ℕ) → suc m / 1440 ≡ (if suc m % 1440 == 0 then suc (m / 1440) else m / 1440)
next_day m = ground arith

last-le : (before : ℕ) (times : List ℕ) → steady before times ≡ true → before ≤ last_of before times
last-le before [] h = omega arith
last-le before (now ∷ times) h = ground (arith, h, last-le now times)

module _ (mday : ℕ → ℕ) (other_day : (d : ℕ) → mday d ≢ mday (suc d)) where
  -- The minute that was evaluated last.
  At : ℕ → Cron → Type 0
  At m c = (c.min_alt ≡ m % 60) × (c.day_alt ≡ mday (m / 1440))

  look_same : (m now : ℕ) (c : Cron) → At m c → now / 60 ≡ m → look mday now c ≡ (c, [])
  unfolding look At
  look_same m now c a e = ground (arith, a, e)

  new_day : (m : ℕ) → (not (mday (m / 1440) == mday (suc m / 1440))) ≡ (suc m % 1440 == 0)
  new_day m = elim (Bool-cases (suc m % 1440 == 0)) [
    | inl y ↦ ground (arith, y, next_day m, other_day (m / 1440))
    | inr n ↦ ground (arith, n, next_day m)
  ]

  look_next :
      (m now : ℕ) (c : Cron)
      → At m c
      → now / 60 ≡ suc m
      → look mday now c
        ≡ (record { min_alt = suc m % 60; day_alt = mday (suc m / 1440) }, tasks_of (suc m))
  unfolding look At new_minute
  look_next m now c a e =
      let other : (m % 60 == suc m % 60) ≡ false = ground (arith, other_minute m) in
      rw (a.0, a.1, day_of now, hour_of now, e, ten_minutes (suc m), new_day m, other) refl

  from_minute :
      (times : List ℕ) (before m : ℕ) (c : Cron)
      → At m c
      → before / 60 ≡ m
      → steady before times ≡ true
      → cron_timer mday times c ≡ tasks_from (suc m) (last_of before times / 60 - m)
  unfolding cron_timer tasks_from
  from_minute [] before m c a e h =
      let none_left : before / 60 - m ≡ 0 = omega (arith, e) in rw none_left refl
  from_minute (now ∷ times) before m c a e h = elim (Bool-cases (now / 60 == m)) [
    | inl y ↦
        let same : now / 60 ≡ m = ground (arith, y) in
        rw (look_same m now c a same) (from_minute times now m c a same (ground (arith, h)))
    | inr n ↦
        let next : now / 60 ≡ suc m = ground (arith, h, n, e) in
        let c' : Cron = record { min_alt = suc m % 60; day_alt = mday (suc m / 1440) } in
        let rest =
          from_minute times now (suc m) c' (unfold At in (refl, refl)) next (ground (arith, h)) in
        let reached = last-le now times (ground (arith, h)) in
        let more : last_of now times / 60 - m ≡ suc (last_of now times / 60 - suc m) =
          omega (arith, reached, next) in
        rw (look_next m now c a next, rest, more) refl
  ]

  look_first :
      (now : ℕ)
      → look mday now (start mday now)
        ≡ (record { min_alt = now / 60 % 60; day_alt = mday (now / 86400) }, first_tasks (now / 60))
  unfolding look start new_minute
  look_first now =
      let no_minute : (60 == now / 60 % 60) ≡ false = ground arith in
      let same_day : (mday (now / 86400) == mday (now / 86400)) ≡ true = ground arith in
      let hourly =
        if now / 60 % 60 == 0
        then refresh_regenmenge (now / 60 / 60 % 24) ∷ save_regen_1h ∷ []
        else [] in
      rw (no_minute, same_day, hour_of now, ten_minutes (now / 60), append-nil hourly) refl

  -- From the first look on, every minute until the last look gets its tasks exactly once and in
  -- order, while the clock goes on by at most a minute from look to look: also those of ten minutes,
  -- of an hour and of a day, of which the first minute has no daily one.
  pub minutes_lem :
      (now : ℕ) (times : List ℕ)
      → steady now times ≡ true
      → cron_timer mday (now ∷ times) (start mday now)
        ≡ first_tasks (now / 60) ++ tasks_from (suc (now / 60)) (last_of now times / 60 - now / 60)
  unfolding cron_timer
  minutes_lem now times h =
      let c : Cron = record { min_alt = now / 60 % 60; day_alt = mday (now / 86400) } in
      let day : c.day_alt ≡ mday (now / 60 / 1440) = ap mday (day_of now) in
      rw (look_first now) (
        ap (λ tasks. first_tasks (now / 60) ++ tasks)
          (from_minute times now (now / 60) c (unfold At in (refl, day)) refl h))
