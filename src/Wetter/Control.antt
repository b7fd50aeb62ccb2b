-- ===== src/Wetter/Control.antt =====
-- When `WetterSteuerung` of src/devices.cpp moves the shutters, and when it does not.
use haussteuerung.Prelude.{
  ℕ, ◌+◌, ◌≡◌, ◌≢◌, ◌⊎◌, Bool, true, false, not, ◌&&◌, ◌||◌, arith, Bool-cases,
}
use haussteuerung.Prelude.Int.{ℤ, pos, ltb_ℤ, ◌*ℤ◌, ◌-ℤ◌}
use haussteuerung.Prelude.Text.{codes}
use haussteuerung.Config.{undef, auf, ab}
use haussteuerung.Ini.{Ini}
use haussteuerung.Jalousie.State.{Jalousie}
use haussteuerung.Jalousie.Timer.{auf_all, sonne, run, drive_each, shutters}
use haussteuerung.Jalousie.Course.{live, sun_course}
use haussteuerung.Wetter.{
  Wetter, at_position, standing, hyst_over, must_open, may_close, close_command, wetter_steuerung,
}

module _ (ini : Ini) (conf : Ini.Dict ini) where
  open ini use {get_boolean, get_int}

  -- Wind over the threshold, where the shutters are protected from it, opens all four, however
  -- they were closed and whatever the hysteresis says, unless one moves or all are open.
  pub storm_lem :
      (created : Bool) (now : ℕ) (w : Wetter) (jal : Jalousie)
      → get_boolean conf (codes "blinds:wind_protection") false ≡ true
      → ltb_ℤ (get_int conf (codes "blinds:wind_speed_thrs") (pos 0) *ℤ pos 10) w.last_ks.wind
        ≡ true
      → standing jal ≡ true
      → at_position auf true jal ≡ false
      → (wetter_steuerung ini conf created now w jal).1
        ≡ drive_each created auf_all (shutters false) jal
  unfolding wetter_steuerung must_open
  storm_lem created now w jal p s st a = ground (arith, p, s, st, a)

  -- In the rain, and in wind that reaches the threshold, no shutter is closed: one round opens all
  -- four or none.
  pub no_close_lem :
      (created : Bool) (now : ℕ) (w : Wetter) (jal : Jalousie)
      → (w.regen ≡ true)
        ⊎ (ltb_ℤ w.last_ks.wind (get_int conf (codes "blinds:wind_speed_thrs") (pos 0) *ℤ pos 10)
            ≡ false)
      → ((wetter_steuerung ini conf created now w jal).1 ≡ jal)
        ⊎ ((wetter_steuerung ini conf created now w jal).1
            ≡ drive_each created auf_all (shutters false) jal)
  unfolding wetter_steuerung may_close
  no_close_lem created now w jal h = ground (arith, h)

  -- The shutters are as they were, unless wind or rain opens them.
  abbrev pub protected : Wetter → Bool
  protected w =
      (get_boolean conf (codes "blinds:wind_protection") false
        && ltb_ℤ (get_int conf (codes "blinds:wind_speed_thrs") (pos 0) *ℤ pos 10) w.last_ks.wind)
      || (get_boolean conf (codes "blinds:open_on_rain") false && w.regen)

  -- After the weather has moved the shutters, neither light nor dark moves them again before the
  -- time of the hysteresis is over.
  pub hysteresis_lem :
      (created : Bool) (now : ℕ) (w : Wetter) (jal : Jalousie)
      → protected w ≡ false
      → w.drv_timer ≡ true
      → hyst_over ini conf now w ≡ false
      → (wetter_steuerung ini conf created now w jal).1 ≡ jal
  unfolding wetter_steuerung must_open may_close hyst_over
  hysteresis_lem created now w jal p d h = ground (arith, p, d, h)

  -- What was not closed by the weather is not opened for want of light: without wind and rain to
  -- protect from, shutters that are not all open stay as they are, while the mark is missing.
  pub manual_lem :
      (created : Bool) (now : ℕ) (w : Wetter) (jal : Jalousie)
      → protected w ≡ false
      → w.close_on_wetter ≡ false
      → at_position auf true jal ≡ false
      → wetter_steuerung ini conf created now w jal ≡ (w, jal)
  unfolding wetter_steuerung must_open
  manual_lem created now w jal p c a = ground (arith, p, c, a)

  -- A day of sun: shutters that stand open are closed in one round, while nothing speaks against
  -- it; once those to be closed are closed and stand, and the light is under the threshold, they
  -- are opened again in the first round behind the hysteresis.
  pub day_lem :
      (created : Bool) (now later : ℕ) (hell : ℤ) (w : Wetter) (jal below : Jalousie)
      → standing jal ≡ true
      → at_position auf true jal ≡ true
      → may_close ini conf now w ≡ true
      → standing below ≡ true
      → at_position auf true below ≡ false
      → at_position ab (not (get_boolean conf (codes "blinds:jal_2_open") false)) below ≡ true
      → ltb_ℤ hell (get_int conf (codes "blinds:brightness_thrs_open") (pos 0)) ≡ true
      → ltb_ℤ (pos later -ℤ pos now) (get_int conf (codes "blinds:hytersis_time") (pos 0) *ℤ pos 60)
        ≡ false
      → let (w', closing) = wetter_steuerung ini conf created now w jal in
        (closing
          ≡ drive_each created
              (close_command ini conf)
              (shutters (get_boolean conf (codes "blinds:jal_2_open") false))
              jal)
        × ((wetter_steuerung ini conf created later (record w' { last_hell = hell }) below).1
            ≡ drive_each created auf_all (shutters false) below)
  unfolding wetter_steuerung must_open may_close hyst_over
  day_lem created now later hell w jal below st a m st' a' b' d h =
      ground (arith, st, a, m, st', a', b', d, h)

  undef_lem :
      (created : Bool) (now : ℕ) (w : Wetter) (jal : Jalousie)
      → protected w ≡ false
      → standing jal ≡ true
      → jal.position 0 ≡ undef
      → wetter_steuerung ini conf created now w jal ≡ (record w { close_on_wetter = false }, jal)
  unfolding wetter_steuerung must_open at_position
  undef_lem created now w jal p st n = ground (arith, p, st, n, Bool-cases w.close_on_wetter)

  -- The way to the sun position leaves a shutter at no end, and the next round takes the mark
  -- away: shutters that the weather has set to the sun are not opened for want of light.
  pub sun_mark_lem :
      (created b : Bool) (now : ℕ) (w : Wetter) (jal : Jalousie)
      → protected w ≡ false
      → standing jal ≡ true
      → jal.position 0 ≢ ab
      → let below = live true jal.next_id (run true (sonne 0) jal) in
        let there = live b (jal.next_id + 1) below in
        wetter_steuerung ini conf created now w there
        ≡ (record w { close_on_wetter = false }, there)
  unfolding standing
  sun_mark_lem created b now w jal p st n =
      let (_, s0, p0, _, s1) = sun_course b 0 1 jal (ground arith) n (omega arith) in
      let (_, _, _, _, s2) = sun_course b 0 2 jal (ground arith) n (omega arith) in
      let (_, _, _, _, s3) = sun_course b 0 3 jal (ground arith) n (omega arith) in
      let there = live b (jal.next_id + 1) (live true jal.next_id (run true (sonne 0) jal)) in
      undef_lem created now w there p (ground (arith, st, s0, s1.0, s2.0, s3.0)) p0
