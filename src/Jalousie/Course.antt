-- ===== src/Jalousie/Course.antt =====
-- Whole courses of a shutter, src/jalousie.cpp: a command and the steps of the threads it starts.
use haussteuerung.Prelude.{
  ℕ, ◌+◌, ◌*◌, ◌≡◌, ◌≢◌, Bool, true, false, List, [], ◌∷◌, some, arith, ◌∙◌,
}
use haussteuerung.Config.{stop, undef, auf, ab, sonnenzeit}
use haussteuerung.Max7311
use haussteuerung.Max7311.Levels.{level}
use haussteuerung.Jalousie.State.{
  Jalousie, Thread, Phase, sleeping, woken, reported, relays, update_shm, pstop, drv, offset,
  cancel, cancel_id, sonne_from, drv_sonne, set_position, pdrv_aufwaerts, pdrv_abwaerts,
  drv_aufwaerts, drv_abwaerts, toggle_aufwaerts, toggle_abwaerts,
}
use haussteuerung.Jalousie.Timer.{
  find, set_phase, remove, advance, wake, report, finish, tick, run, auf_all, ab_all, toggle_auf,
  toggle_ab, sonne,
}

-- The three steps of the life of a thread; `created` is for what it starts at its end.
abbrev pub live : Bool → ℕ → Jalousie → Jalousie
live created i s = tick created i (tick created i (tick created i s))

-- Both relays are off.
abbrev pub Quiet : ℕ → Jalousie → Type 0
Quiet j s = (level (2 * j) s.max.sent ≡ false) × (level (2 * j + 1) s.max.sent ≡ false)

-- Shutter k is as it was.
abbrev pub Same : ℕ → Jalousie → Jalousie → Type 0
Same k s s' = (s'.drvstate k ≡ s.drvstate k) × (s'.position k ≡ s.position k)

-- A shutter that stands and is not open, told to open: the thread that is started brings it to
-- rest with the relays off and the position open, and every other shutter stays as it was.
pub open_course :
    (b : Bool) (j k : ℕ) (s : Jalousie)
    → s.drvstate j ≡ stop
    → s.position j ≢ auf
    → k ≢ j
    → let s' = live b s.next_id (run true (auf_all j) s) in
      (s'.drvstate j ≡ stop) × (s'.position j ≡ auf) × Quiet j s' × Same k s s'
unfolding run drv_aufwaerts drv_abwaerts offset pdrv_aufwaerts pdrv_abwaerts pstop drv update_shm
    relays tick find advance wake report set_position finish set_phase remove cancel cancel_id level
    Max7311.set
open_course b j k s z p n = ground arith

-- A shutter that stands and is not closed, told to close, is brought to rest with the relays off
-- and the position closed, and every other shutter stays as it was.
pub close_course :
    (b : Bool) (j k : ℕ) (s : Jalousie)
    → s.drvstate j ≡ stop
    → s.position j ≢ ab
    → k ≢ j
    → let s' = live b s.next_id (run true (ab_all j) s) in
      (s'.drvstate j ≡ stop) × (s'.position j ≡ ab) × Quiet j s' × Same k s s'
unfolding run drv_aufwaerts drv_abwaerts offset pdrv_aufwaerts pdrv_abwaerts pstop drv update_shm
    relays tick find advance wake report set_position finish set_phase remove cancel cancel_id level
    Max7311.set
close_course b j k s z p n = ground arith

abbrev gap_thread : ℕ → ℕ → Thread
gap_thread i j = record {
  id = i;
  jal_nr = j;
  zeit = sonnenzeit;
  direction = auf;
  sonne = false;
  phase = sleeping;
}

find-set_phase :
    (i : ℕ) (p : Phase) (t : Thread) (ts : List Thread)
    → find i ts ≡ some t
    → find i (set_phase i p ts) ≡ some (record t { phase = p })
unfolding find set_phase
find-set_phase i p t [] f = ground arith
find-set_phase i p t (u ∷ ts) f = ground (arith, find-set_phase i p t ts)

-- A thread that did not drive the whole way only stops its shutter.
gap_course :
    (b : Bool) (i j k : ℕ) (s : Jalousie)
    → find i s.threads ≡ some (gap_thread i j)
    → s.drvstate j ≢ stop
    → k ≢ j
    → let s' = live b i s in
      (s'.drvstate j ≡ stop) × (s'.position j ≡ s.position j) × Quiet j s' × Same k s s'
unfolding pstop update_shm relays tick advance wake report set_position finish level Max7311.set
gap_course b i j k s f m n =
    let f₁ = find-set_phase i woken (gap_thread i j) s.threads f in
    let f₂ =
      find-set_phase i reported (record (gap_thread i j) { phase = woken })
        (set_phase i woken s.threads) f₁ in
    ground (arith, f, f₁, f₂)

closed_course :
    (j k : ℕ) (s : Jalousie)
    → s.drvstate j ≡ stop
    → s.position j ≢ ab
    → k ≢ j
    → let below = live true s.next_id (run true (sonne j) s) in
      (below.drvstate j ≡ auf)
      × (below.next_id ≡ s.next_id + 2)
      × (below.position j ≡ undef)
      × (find (s.next_id + 1) below.threads ≡ some (gap_thread (s.next_id + 1) j))
      × Same k s below
unfolding run offset pstop drv_sonne sonne_from drv update_shm relays tick find advance wake report
    set_position finish set_phase remove cancel cancel_id
closed_course j k s z p n = ground arith

-- The way to the sun position from anywhere but below: closing, which its thread ends by opening
-- a little, and the second thread stops that. The shutter then stands at no end.
pub sun_course :
    (b : Bool) (j k : ℕ) (s : Jalousie)
    → s.drvstate j ≡ stop
    → s.position j ≢ ab
    → k ≢ j
    → let below = live true s.next_id (run true (sonne j) s) in
      let s' = live b (s.next_id + 1) below in
      (below.drvstate j ≡ auf)
      × (s'.drvstate j ≡ stop)
      × (s'.position j ≡ undef)
      × Quiet j s'
      × Same k s s'
sun_course b j k s z p n =
    let below = live true s.next_id (run true (sonne j) s) in
    let (up, _, open_one, f, same) = closed_course j k s z p n in
    let (q, r, w, d) =
      gap_course b (s.next_id + 1) j k below f (λ e. absurd (omega (arith, e, up))) n in
    (up, q, r ∙ open_one, w, (d.0 ∙ same.0, d.1 ∙ same.1))

-- A toggle key stops a shutter that moves, whichever way, without starting a thread; the position
-- stays what it was.
pub toggle_stops :
    (b : Bool) (j : ℕ) (s : Jalousie)
    → s.drvstate j ≢ stop
    → let up = run b (toggle_auf j) s in
      let down = run b (toggle_ab j) s in
      (up ≡ down)
      × (up.drvstate j ≡ stop)
      × (up.position j ≡ s.position j)
      × (up.next_id ≡ s.next_id)
      × Quiet j up
unfolding run toggle_aufwaerts toggle_abwaerts pstop update_shm relays level Max7311.set
toggle_stops b j s m = ground arith
