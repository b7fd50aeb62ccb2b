-- ===== src/Jalousie/Race.antt =====
-- Orders of steps in which src/jalousie.cpp does not do what it means to do.
use haussteuerung.Prelude.{ℕ, ◌+◌, ◌*◌, ◌≡◌, ◌≢◌, Bool, true, arith}
use haussteuerung.Config.{stop, undef, auf, ab}
use haussteuerung.Max7311
use haussteuerung.Max7311.Levels.{level}
use haussteuerung.Jalousie.State.{
  Jalousie, relays, update_shm, pstop, drv, offset, cancel, cancel_id, set_position, pdrv_aufwaerts,
  pdrv_abwaerts, drv_aufwaerts, drv_abwaerts, init_write,
}
use haussteuerung.Jalousie.Timer.{
  find, set_phase, remove, advance, wake, report, finish, tick, run, auf_all, ab_all,
}

-- A shutter is opening and its thread has left `usleep`, so it can no longer be cancelled. A
-- command to close comes first: then the thread reports the shutter open while it is closing, and
-- stops the drive that is not its own. The shutter stands, at a position taken for open.
pub late_timer :
    (b : Bool) (j : ℕ) (s : Jalousie)
    → s.drvstate j ≡ stop
    → s.position j ≢ auf
    → let closing = run true (ab_all j) (tick b s.next_id (run true (auf_all j) s)) in
      let reported_late = tick b s.next_id closing in
      let stopped = tick b s.next_id reported_late in
      (closing.drvstate j ≡ ab)
      × (closing.position j ≡ undef)
      × (reported_late.drvstate j ≡ ab)
      × (reported_late.position j ≡ auf)
      × (stopped.drvstate j ≡ stop)
      × (stopped.position j ≡ auf)
unfolding run drv_aufwaerts drv_abwaerts offset pdrv_aufwaerts pdrv_abwaerts pstop drv update_shm
    relays tick find advance wake report set_position finish set_phase remove cancel cancel_id level
    Max7311.set
late_timer b j s z p = ground arith

-- `init` reads the state without the mutex. If the drive stops between the read and the write,
-- the relay is switched on again for a shutter that counts as standing.
pub init_race :
    (j : ℕ) (s : Jalousie)
    → s.drvstate j ≡ auf
    → let s' = init_write j (s.drvstate j) (pstop j s) in
      (s'.drvstate j ≡ stop) × (level (2 * j + 1) s'.max.sent ≡ true)
unfolding init_write pstop relays update_shm level Max7311.set
init_race j s z = ground arith
