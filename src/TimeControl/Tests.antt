-- ===== src/TimeControl/Tests.antt =====
-- The control by the time of day of src/haussteuerung.cpp at concrete inputs.
use haussteuerung.Prelude.{
  ◌≡◌, refl, true, false, List, [], Option, none, some, if◌then◌else◌, arith,
}
use haussteuerung.Prelude.Int.{pos, ◌+ℤ◌, ◌*ℤ◌}
use haussteuerung.Prelude.Text.{Text, codes, contains, after, strip_prefix}
use haussteuerung.Ini.{Ini}
use haussteuerung.Ini.Sample.{sample}
use haussteuerung.Jalousie.State.{Jalousie, create}
use haussteuerung.Jalousie.Timer.{drive_each, sonne, shutters}
use haussteuerung.Dispatch.Shutters.{take_all}
use haussteuerung.TimeControl.{
  Sun, Tm, compare_time_string, Action, is_time, blinds, irrigation_text,
}
use haussteuerung.TimeControl.Compare.{clock_text, times_lem, sun_text, offset_text}
use haussteuerung.TimeControl.Blinds.{jal_texts, blinds_lem}

abbrev midsummer : Sun
midsummer = record { sa_hour = pos 4; sa_min = pos 12; su_hour = pos 20; su_min = pos 31 }

abbrev evening : Tm
evening = record { tm_hour = 22; tm_min = 30; tm_mday = 21 }

at_half_past : compare_time_string (some (clock_text 22 30)) midsummer evening ≡ some true
at_half_past =
    (times_lem 22 30 10 true true midsummer evening (omega arith) (omega arith) (omega arith)
      (omega arith)).0

-- Every flag is set, the shutters are closed at half past ten and opened after sunrise, and the
-- watering takes a quarter of an hour.
abbrev times : Text → Option Text
times key =
    if contains key (codes "up_time")
    then some (sun_text true (offset_text true 10))
    else some (clock_text 22 30)

abbrev settings : Ini
settings = sample (λ key. true) (λ key. pos 15) times

now_down : is_time settings none midsummer evening (codes "blinds:down_time") ≡ some true
unfolding is_time contains after strip_prefix
now_down = at_half_past

not_up : is_time settings none midsummer evening (codes "blinds:up_time") ≡ some false
unfolding is_time contains after strip_prefix ◌+ℤ◌ ◌*ℤ◌
not_up =
    (times_lem 22 30 10 true true midsummer evening (omega arith) (omega arith) (omega arith)
      (omega arith)).1

now_start : is_time settings none midsummer evening (irrigation_text 1 (codes "_start")) ≡ some true
unfolding is_time irrigation_text contains after strip_prefix
now_start = at_half_past

abbrev house : Jalousie
house = create (record { adr = 16; sent = [] })

blinds_lem_example :
    (acts : List Action) × (blinds settings none midsummer evening ≡ some acts)
    × (take_all 8 true (jal_texts acts) house ≡ some (drive_each true sonne (shutters true) house))
blinds_lem_example =
    blinds_lem settings none midsummer evening true true false house refl now_down not_up
