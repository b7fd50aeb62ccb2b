-- ===== src/Wetter/Rain.antt =====
-- The rain of an hour and of a longer time, from the count of the pulses, src/devices.cpp.
use haussteuerung.Prelude.{
  ℕ, ◌+◌, ◌%◌, ◌≤◌, ◌<◌, ◌≡◌, refl, ap, Bool, true, List, [], ◌∷◌, ◌++◌, Option, none, some, arith,
  ltb, leb, ◌&&◌, if◌then◌else◌, ◌==◌,
}
use haussteuerung.Prelude.Int.{ℤ, pos, ◌-ℤ◌, same_ℤ}
use haussteuerung.Wetter.{
  DataKs, Wetter, create, put_ks, put_as, average, refresh_regenmenge, get_regen_1h, save, Line,
  comment, entry,
}
use haussteuerung.Wetter.Readings.{Reading, put}

-- A new count is received, and the hour ends.
abbrev pub hour : ℤ → Wetter → Wetter
hour cnt w = refresh_regenmenge (record w { last_ks = record w.last_ks { cnt_regen = cnt } })

-- What changes the counters of the object.
pub data Event : Type 0 where
  reading : Reading → Event
  ten_minutes full_hour : Event

abbrev pub on_event : Event → Wetter → Wetter
on_event (reading r) w = put r w
on_event ten_minutes w = average w
on_event full_hour w = refresh_regenmenge w

unfoldable pub on_events : List Event → Wetter → Wetter
on_events [] w = w
on_events (e ∷ es) w = on_events es (on_event e w)

-- The places that the next writes and the loops of `average` use are places of the arrays of 6 and
-- of 24.
abbrev pub InBounds : Wetter → Type 0
InBounds w = (w.cnt_ks_buf ≤ 5) × (w.cnt_as_buf ≤ 5) × (w.cnt_regen_1h ≤ 23)

on_event-InBounds : (e : Event) (w : Wetter) → InBounds w → InBounds (on_event e w)
unfolding put_ks put_as average refresh_regenmenge
on_event-InBounds (reading (Reading.ks d rain)) w h = ground (arith, h)
on_event-InBounds (reading (Reading.hell x)) w h = ground (arith, h)
on_event-InBounds ten_minutes w h = ground (arith, h)
on_event-InBounds full_hour w h = ground (arith, h)

on_events-InBounds : (es : List Event) (w : Wetter) → InBounds w → InBounds (on_events es w)
unfolding on_events
on_events-InBounds [] w h = h
on_events-InBounds (e ∷ es) w h = on_events-InBounds es (on_event e w) (on_event-InBounds e w h)

-- Whatever packets, averages and ends of hours come after `init`, in any order, every write into
-- the buffers of 6 readings and of 24 hours stays inside.
pub bounds_lem :
    (stored : Option (DataKs × ℤ)) (now : ℕ) (es : List Event)
    → InBounds (on_events es (create stored now))
bounds_lem stored now es = on_events-InBounds es (create stored now) (unfold create in omega arith)

hour_lem :
    (c0 c1 : ℤ) (w : Wetter)
    → w.cnt_regen_1h ≤ 23
    → get_regen_1h (hour c1 (hour c0 w)) ≡ (if same_ℤ c0 (pos 0) then pos 0 else c1 -ℤ c0)
unfolding get_regen_1h refresh_regenmenge
hour_lem c0 c1 w h = ground (arith, h)

-- The station counts n pulses in an hour, with a counter of 12 bits: the rain of the hour is n
-- where the counter does not run over, and 4096 too little where it does, in every hour of the
-- day; it is zero where the count at the beginning was zero.
pub hour_rain :
    (c n : ℕ) (w : Wetter)
    → w.cnt_regen_1h ≤ 23
    → c < 4096
    → n < 4096
    → get_regen_1h (hour (pos ((c + n) % 4096)) (hour (pos c) w))
      ≡ (if c == 0 then pos 0 else if ltb (c + n) 4096 then pos n else pos n -ℤ pos 4096)
unfolding ◌-ℤ◌
hour_rain c n w h l k = ground (arith, hour_lem (pos c) (pos ((c + n) % 4096)) w h)

-- What the file holds: the time of a save and the count of the rain at that time.
abbrev pub lines_of : List (ℕ × ℤ) → List Line
lines_of [] = []
lines_of (r ∷ rs) = comment ∷ entry r.0 r.1 ∷ lines_of rs

-- The saves in any lines of the file, also where the rotation has cut a comment off its save, or
-- has written the last line twice.
abbrev pub saves_of : List Line → List (ℕ × ℤ)
saves_of [] = []
saves_of (comment ∷ lines) = saves_of lines
saves_of (entry stamp cnt ∷ lines) = (stamp, cnt) ∷ saves_of lines

abbrev pub first_saved : ℕ → List (ℕ × ℤ) → Option ℤ
first_saved since [] = none
first_saved since (r ∷ rs) =
    let rest = first_saved since rs in if ltb since r.0 then some r.1 else rest

-- No save is behind a time.
abbrev pub none_behind : ℕ → List (ℕ × ℤ) → Bool
none_behind since [] = true
none_behind since (r ∷ rs) = leb r.0 since && none_behind since rs

lines_of-save :
    (rs : List (ℕ × ℤ)) (now : ℕ) (w : Wetter)
    → save now w (lines_of rs) ≡ lines_of (rs ++ (now, w.last_ks.cnt_regen) ∷ [])
unfolding save
lines_of-save [] now w = refl
lines_of-save (r ∷ rs) now w = ap (λ ls. comment ∷ entry r.0 r.1 ∷ ls) (lines_of-save rs now w)

-- How a file begins: with a save, as behind a rotation, which leaves 101 lines, or with the comment
-- of its first save.
abbrev pub begins_with : Bool → ℕ × ℤ → List Line → List Line
begins_with cut first lines =
    if cut then entry first.0 first.1 ∷ lines else comment ∷ entry first.0 first.1 ∷ lines
