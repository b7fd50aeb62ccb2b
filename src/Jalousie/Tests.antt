-- ===== src/Jalousie/Tests.antt =====
-- Runs of the shutters of src/jalousie.cpp, and the theorems at concrete inputs.
use haussteuerung.Prelude.{◌≡◌, refl, ◌+◌, true, [], arith}
use haussteuerung.Config.{stop, undef, auf, ab}
use haussteuerung.Max7311.{Max7311}
use haussteuerung.Max7311
use haussteuerung.Jalousie.State.{
  Jalousie, create, init, init_one, init_write, relays, update_shm, drv, offset, pdrv_aufwaerts,
  drv_aufwaerts,
}
use haussteuerung.Jalousie.Timer.{
  run, tick, auf_all, ab_all, sonne, command, thread, hwr, Reach, here, next, number,
}
use haussteuerung.Jalousie.Wiring.{IsWired}
use haussteuerung.Jalousie.Wiring.Reached.{reach-IsWired}
use haussteuerung.Jalousie.Watch.{IsWatched}
use haussteuerung.Jalousie.Watch.Reached.{reach-IsWatched}
use haussteuerung.Jalousie.Course.{live, Quiet, Same, sun_course}
use haussteuerung.Jalousie.Race.{late_timer}

abbrev device : Max7311
device = record { adr = 16; sent = [] }

-- All shutters stand at unknown positions.
abbrev fresh : Jalousie
fresh = create device

-- Shutter 2 opens.
abbrev opening : Jalousie
opening = run true (auf_all 2) fresh

abbrev opening_reached : Reach fresh opening
opening_reached = next here (command true (auf_all 2) (unfold number in omega arith))

fresh-stands : fresh.drvstate 2 ≡ stop
unfolding create init init_one init_write relays update_shm
fresh-stands = refl

fresh-undef : fresh.position 2 ≡ undef
unfolding create init init_one init_write relays update_shm
fresh-undef = refl

opening-moves : opening.drvstate 2 ≡ auf
unfolding create init init_one init_write relays update_shm run drv_aufwaerts offset pdrv_aufwaerts
    drv
opening-moves = refl

reach-IsWired_example : IsWired 2 (record opening { max = Max7311.set 8 true opening.max })
reach-IsWired_example = reach-IsWired device _ 2 (next opening_reached (hwr true)) (omega arith)

reach-IsWatched_example : IsWatched 2 (tick true 0 opening)
reach-IsWatched_example = reach-IsWatched device _ 2 (next opening_reached (thread true 0))

sun_course_example :
    let below = live true fresh.next_id (run true (sonne 2) fresh) in
    let s' = live true (fresh.next_id + 1) below in
    (below.drvstate 2 ≡ auf)
    × (s'.drvstate 2 ≡ stop)
    × (s'.position 2 ≡ undef)
    × Quiet 2 s'
    × Same 1 fresh s'
sun_course_example =
    sun_course true 2 1 fresh fresh-stands (λ e. absurd (omega (arith, e, fresh-undef)))
      (omega arith)

late_timer_example :
    let closing = run true (ab_all 2) (tick true fresh.next_id (run true (auf_all 2) fresh)) in
    let reported_late = tick true fresh.next_id closing in
    let stopped = tick true fresh.next_id reported_late in
    (closing.drvstate 2 ≡ ab)
    × (closing.position 2 ≡ undef)
    × (reported_late.drvstate 2 ≡ ab)
    × (reported_late.position 2 ≡ auf)
    × (stopped.drvstate 2 ≡ stop)
    × (stopped.position 2 ≡ auf)
late_timer_example =
    late_timer true 2 fresh fresh-stands (λ e. absurd (omega (arith, e, fresh-undef)))
