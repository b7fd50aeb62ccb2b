-- ===== src/Wetter/Tests.antt =====
-- The weather station of src/devices.cpp at concrete inputs.
use haussteuerung.Prelude.{ℕ, ◌≡◌, refl, true, false, List, [], ◌∷◌, none, if◌then◌else◌}
use haussteuerung.Prelude.Int.{ℤ, pos, ◌-ℤ◌, ◌*ℤ◌}
use haussteuerung.Prelude.Text.{Text, codes, contains, after, strip_prefix}
use haussteuerung.Config.{stop, undef, auf, ab}
use haussteuerung.Ini.{Ini}
use haussteuerung.Ini.Sample.{sample}
use haussteuerung.Jalousie.State.{Jalousie}
use haussteuerung.Jalousie.Timer.{auf_all, drive_each, shutters}
use haussteuerung.Wetter.{
  DataKs, data_ks, Wetter, Line, comment, entry, create, average, wetter_steuerung, standing,
  at_position, may_close, close_command, hyst_over,
}
use haussteuerung.Wetter.Readings.{Reading, ks, hell, put_all, sum_list, average_lem}
use haussteuerung.Wetter.Rain.{reading, ten_minutes, full_hour, on_events, InBounds, bounds_lem}
use haussteuerung.Wetter.Control.{day_lem}

abbrev mild : DataKs
mild = data_ks (pos 215) (pos 60) (pos 12) (pos 4090)

-- Seven readings, of which the last one is a gust.
abbrev readings : List Reading
readings =
    ks mild false
    ∷ hell (pos 700)
    ∷ ks mild false
    ∷ ks mild false
    ∷ ks mild false
    ∷ ks mild false
    ∷ ks mild false
    ∷ ks (data_ks (pos 210) (pos 60) (pos 900) (pos 4091)) false
    ∷ []

abbrev station : Wetter
station = create none 1000

station-empty : (station.cnt_ks_buf ≡ 0) × (station.cnt_as_buf ≡ 0) × (station.cnt_regen_1h ≡ 0)
unfolding create
station-empty = (refl, refl, refl)

average_lem_example :
    let w = average (put_all readings station) in
    (w.avg.rec_ks ≡ 5)
    × (w.avg.sum_temp ≡ sum_list (pos 215 ∷ pos 215 ∷ pos 215 ∷ pos 215 ∷ pos 215 ∷ []))
    × (w.avg.sum_feuchte ≡ sum_list (pos 60 ∷ pos 60 ∷ pos 60 ∷ pos 60 ∷ pos 60 ∷ []))
    × (w.avg.max_wind ≡ pos 12)
    × (w.avg.rec_as ≡ 1)
    × (w.avg.sum_hell ≡ sum_list (pos 700 ∷ []))
    × (w.avg.cnt_regen ≡ (put_all readings station).last_ks.cnt_regen)
    × (w.cnt_ks_buf ≡ 0)
    × (w.cnt_as_buf ≡ 0)
average_lem_example = average_lem readings station station-empty.0 station-empty.1

bounds_lem_example :
    InBounds (on_events (reading (hell (pos 5)) ∷ full_hour ∷ ten_minutes ∷ []) station)
bounds_lem_example = bounds_lem none 1000 (reading (hell (pos 5)) ∷ full_hour ∷ ten_minutes ∷ [])

abbrev wet : Wetter
wet = record station { last_ks = data_ks (pos 100) (pos 90) (pos 0) (pos 14) }

-- Behind a rotation: the file begins with a save, and the last line before it is there twice; the
-- older file ends with the comment. The first save behind the time 650 is in the older file.
abbrev rotated : List Line
rotated = entry 1250 (pos 5) ∷ entry 1250 (pos 5) ∷ comment ∷ entry 1300 (pos 9) ∷ []

abbrev archived : List Line
archived = entry 600 (pos 4080) ∷ comment ∷ entry 900 (pos 4090) ∷ comment ∷ []

-- No protection, the light threshold to open is 100 and to close 600, the hysteresis ten minutes.
abbrev limits : Text → ℤ
limits key =
    if contains key (codes "thrs_close")
    then pos 600
    else if contains key (codes "thrs_open")
    then pos 100
    else if contains key (codes "wind_speed")
    then pos 20
    else pos 10

abbrev by_light : Ini
by_light = sample (λ key. contains key (codes "weather")) limits (λ key. none)

abbrev sunny : Wetter
sunny = record station { last_ks = mild; last_hell = pos 700 }

abbrev at : ℕ → Jalousie
at p = record {
  max = record { adr = 16; sent = [] };
  position = λ j. p;
  drvstate = λ j. stop;
  offset_count = 0;
  thr_id = λ j. none;
  threads = [];
  next_id = 0;
  pos_shown = λ j. [];
  drv_shown = λ j. [];
}

at-place :
    (standing (at auf) ≡ true)
    × (at_position auf true (at auf) ≡ true)
    × (standing (at ab) ≡ true)
    × (at_position auf true (at ab) ≡ false)
    × (at_position ab true (at ab) ≡ true)
    × (standing (at undef) ≡ true)
unfolding standing at_position
at-place = (refl, refl, refl, refl, refl, refl)

sunny-closes : may_close by_light none 2000 sunny ≡ true
unfolding may_close hyst_over create contains after strip_prefix ◌*ℤ◌ ◌-ℤ◌
sunny-closes = refl

flags-values :
    (contains (codes "blinds:jal_2_open") (codes "weather") ≡ false)
    × (limits (codes "blinds:brightness_thrs_open") ≡ pos 100)
    × (limits (codes "blinds:hytersis_time") ≡ pos 10)
unfolding contains after strip_prefix
flags-values = (refl, refl, refl)

day_lem_example :
    let (w', closing) = wetter_steuerung by_light none true 2000 sunny (at auf) in
    (closing ≡ drive_each true (close_command by_light none) (shutters false) (at auf))
    × ((wetter_steuerung by_light none true 2600 (record w' { last_hell = pos 50 }) (at ab)).1
        ≡ drive_each true auf_all (shutters false) (at ab))
unfolding contains after strip_prefix ◌*ℤ◌ ◌-ℤ◌
day_lem_example =
    day_lem by_light none true 2000 2600 (pos 50) sunny (at auf) (at ab) at-place.0 at-place.1
      sunny-closes at-place.2 at-place.3 at-place.4 refl refl
