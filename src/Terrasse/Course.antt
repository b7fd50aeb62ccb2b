-- ===== src/Terrasse/Course.antt =====
-- Runs of the valves of class Terrasse, src/abluft.cpp: watering by timer, commands by hand
-- meanwhile, and orders of steps that leave a valve wrong.
use haussteuerung.Prelude.{
  ℕ, zero, suc, ◌<◌, ◌≤◌, ◌*◌, ◌≡◌, ◌≢◌, Bool, true, false, none, some, arith,
}
use haussteuerung.Prelude.Int.{ℤ, pos, to_int, ◌*ℤ◌}
use haussteuerung.Config.{aus, an, timer_an}
use haussteuerung.Pcf8574.{Pcf8574}
use haussteuerung.Pcf8574.Bits.{pin, set_lem}
use haussteuerung.Pcf8574.Bits
use haussteuerung.Pcf8574
use haussteuerung.Terrasse
use haussteuerung.Terrasse.{Terrasse, Timer}

-- The thread of watering comes to its end.
abbrev pub run_out : ℕ → Terrasse → Terrasse
run_out k t = Terrasse.close k (Terrasse.wake k t)

abbrev pub timer_of : ℕ → ℕ → Timer
timer_of i dauer = record { ventil_nr = i; zeit = pos (60 * dauer); woken = false }

seconds_lem : (dauer : ℕ) → dauer ≤ 35791394 → to_int (pos dauer *ℤ pos 60) ≡ pos (60 * dauer)
unfolding to_int ◌*ℤ◌
seconds_lem dauer m = ground arith

-- A closed valve that is started for some minutes, at least one and at most 35791394, whose
-- seconds an `int` holds: it is open by timer, a thread sleeps for sixty times as many seconds, and
-- at its end, where no other call of `setVentil` runs meanwhile, the valve is closed, the thread is
-- gone and the other valve is as it was.
pub water_course :
    (i j dauer : ℕ) (t : Terrasse)
    → i < 2
    → j ≢ i
    → t.state_ventil i ≡ aus
    → 1 ≤ dauer
    → dauer ≤ 35791394
    → let started = Terrasse.start_ventil_timer true i (pos dauer) t in
      let done = run_out t.next_id started in
      (started.state_ventil i ≡ timer_an)
      × (started.threads t.next_id ≡ some (timer_of i dauer))
      × (done.state_ventil i ≡ aus)
      × (done.threads t.next_id ≡ none)
      × (done.state_ventil j ≡ t.state_ventil j)
unfolding Terrasse.start_ventil_timer Terrasse.launch Terrasse.set_ventil Terrasse.set_ventil_at
    Terrasse.is_change Terrasse.switch Terrasse.store Terrasse.update_shm Terrasse.cancel
    Terrasse.close Terrasse.wake Terrasse.remove
water_course zero j dauer t h n e d m = ground (arith, seconds_lem dauer m)
water_course (suc zero) j dauer t h n e d m = ground (arith, seconds_lem dauer m)
water_course (suc (suc i)) j dauer t h n e d m = absurd (omega arith)

-- While a valve is open by timer with its thread asleep: to open it by hand or to start it again
-- changes nothing, and to close it ends the thread.
pub by_hand :
    (created : Bool) (i k : ℕ) (dauer : ℤ) (timer : Timer) (t : Terrasse)
    → i < 2
    → t.state_ventil i ≡ timer_an
    → t.thr_id i ≡ some k
    → t.threads k ≡ some timer
    → timer.woken ≡ false
    → let closed = Terrasse.set_ventil i aus t in
      (Terrasse.set_ventil i an t ≡ t)
      × (Terrasse.start_ventil_timer created i dauer t ≡ t)
      × (closed.state_ventil i ≡ aus)
      × (closed.threads k ≡ none)
unfolding Terrasse.start_ventil_timer Terrasse.set_ventil Terrasse.set_ventil_at Terrasse.is_change
    Terrasse.switch Terrasse.store Terrasse.update_shm Terrasse.cancel
by_hand created zero k dauer timer t h e f g w = ground (arith, e, f, g, w)
by_hand created (suc zero) k dauer timer t h e f g w = ground (arith, e, f, g, w)
by_hand created (suc (suc i)) k dauer timer t h e f g w = absurd (omega arith)

-- Two calls of `setVentil` that run at the same time: a thread closes a valve that is on, and
-- before it stores the state, the valve is closed and opened by hand. The pin of the valve is then
-- low, so it is open, and its state is AUS.
pub close_race :
    (i : ℕ) (t : Terrasse)
    → i < 2
    → Bits.IsValid t.pcf
    → t.state_ventil i ≡ an
    → let closing = Terrasse.switch i aus t in
      let by_hand = Terrasse.set_ventil_at i an (Terrasse.set_ventil_at i aus closing) in
      let both = Terrasse.store i aus by_hand in
      (both.state_ventil i ≡ aus) × (pin both.pcf.data_byte i ≡ 0)
unfolding Terrasse.set_ventil_at Terrasse.is_change Terrasse.switch Terrasse.store
    Terrasse.update_shm
close_race i t h v e =
    let p1 = Pcf8574.set i false t.pcf in
    let p2 = Pcf8574.set i false p1 in
    ground (arith, e, set_lem i i false t.pcf, set_lem i i false p1, set_lem i i true p2)
