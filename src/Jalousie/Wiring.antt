-- ===== src/Jalousie/Wiring.antt =====
-- The relays of src/jalousie.cpp: what the MAX7311 was told agrees with the state of the drives.
pub mod Reached
use haussteuerung.Prelude.{
  ℕ, suc, ◌+◌, ◌*◌, ◌≤◌, ◌<◌, ◌≡◌, refl, ◌≢◌, Bool, true, false, List, [], ◌∷◌, Option, none, some,
  if◌then◌else◌, ◌==◌, arith, ◌⊎◌, Option-cases, Bool-cases, inl, inr, update,
}
use haussteuerung.Prelude.Int.{ℤ, pos, negsuc}
use haussteuerung.Config.{stop, auf, ab}
use haussteuerung.Max7311.{Max7311}
use haussteuerung.Max7311
use haussteuerung.Max7311.Levels.{level}
use haussteuerung.Jalousie.State.{
  Jalousie, Thread, Phase, sleeping, woken, reported, relays, update_shm, init_write, init_one,
  init, create, pstop, drv, drvstate_text, position_text, offset, pdrv_aufwaerts, pdrv_abwaerts,
  drv_aufwaerts, drv_abwaerts, toggle_aufwaerts, toggle_abwaerts, drv_sonne, set_position,
}
use haussteuerung.Jalousie.Closure.{run-P, drv_sonne-P, pstop-stop}
use haussteuerung.Jalousie.Timer.{
  Command, auf_by, ab_by, auf_all, ab_all, toggle_auf, toggle_ab, sonne, halt, run, tick, find,
  advance, wake, report, finish, Step, command, thread, again, hwr, Reach, here, next,
}

-- Shutter j: its pair of relays is driven as the state says, and so is the state on show.
pub record IsWired (j : ℕ) (s : Jalousie) : Type 0 where
  pub legal : s.drvstate j ≤ ab
  pub down : level (2 * j) s.max.sent ≡ (s.drvstate j == ab)
  pub up : level (2 * j + 1) s.max.sent ≡ (s.drvstate j == auf)
  pub shown : s.drv_shown j ≡ drvstate_text (s.drvstate j)

pub pstop-legal : (k i : ℕ) (s : Jalousie) → s.drvstate i ≤ ab → (pstop k s).drvstate i ≤ ab
unfolding pstop relays update_shm
pstop-legal k i s h = ground arith

pub drv-legal :
    (created : Bool) (k d time : ℕ) (sun : Bool) (i : ℕ) (s : Jalousie)
    → (d ≡ auf) ⊎ (d ≡ ab)
    → s.drvstate i ≤ ab
    → (drv created k d time sun s).0.drvstate i ≤ ab
unfolding drv update_shm
drv-legal created k d time sun i s e h = ground arith

pub init_one-legal : (k i : ℕ) (s : Jalousie) → s.drvstate i ≤ ab → (init_one k s).drvstate i ≤ ab
unfolding init_one init_write relays
init_one-legal k i s h = ground arith

module _ (j : ℕ) where
  pub init_one-IsWired : (k : ℕ) (s : Jalousie) → IsWired j s → IsWired j (init_one k s)
  unfolding init_one init_write relays level Max7311.set
  init_one-IsWired k s w = ground arith

  pub pstop-IsWired : (k : ℕ) (s : Jalousie) → IsWired j s → IsWired j (pstop k s)
  unfolding pstop level Max7311.set relays update_shm
  pstop-IsWired k s w = ground arith

  pub drv-IsWired :
      (created : Bool) (k d time : ℕ) (sun : Bool) (s : Jalousie)
      → (d ≡ auf) ⊎ (d ≡ ab)
      → s.drvstate k ≡ stop
      → IsWired j s
      → IsWired j (drv created k d time sun s).0
  unfolding drv level Max7311.set update_shm
  drv-IsWired created k d time sun s e q w = ground arith

  pub offset-IsWired : (s : Jalousie) → IsWired j s → IsWired j (offset s).0
  unfolding offset
  offset-IsWired s w = ground arith

  pub hwr-IsWired :
      (b : Bool) (s : Jalousie)
      → j < 4
      → IsWired j s
      → IsWired j (record s { max = Max7311.set 8 b s.max })
  unfolding level Max7311.set
  hwr-IsWired b s h w = ground arith

-- One round of `init` sets the pair of its shutter as the drive says, and leaves the other pairs.
pub init_one-level :
    (k pin : ℕ) (s : Jalousie)
    → s.drvstate k ≤ ab
    → level pin (init_one k s).max.sent ≡ (
        if pin == 2 * k
        then s.drvstate k == ab
        else if pin == 2 * k + 1
        then s.drvstate k == auf
        else level pin s.max.sent)
unfolding init_one init_write relays level Max7311.set
init_one-level k pin s h = ground (arith, h)

init_one-state :
    (k j : ℕ) (s : Jalousie)
    → ((init_one k s).drvstate j ≡ s.drvstate j) × ((init_one k s).drv_shown j ≡ s.drv_shown j)
unfolding init_one init_write relays
init_one-state k j s = ground arith

-- Shutter j is wired, if it is one of the first n: the rounds of `init` so far.
record IsWiredBelow (n j : ℕ) (s : Jalousie) : Type 0 where
  pub state : (s.drvstate j ≤ ab) × (s.drv_shown j ≡ drvstate_text (s.drvstate j))
  pub down : j < n → level (2 * j) s.max.sent ≡ (s.drvstate j == ab)
  pub up : j < n → level (2 * j + 1) s.max.sent ≡ (s.drvstate j == auf)

init_one-IsWiredBelow :
    (n j : ℕ) (s : Jalousie)
    → s.drvstate n ≤ ab
    → IsWiredBelow n j s
    → IsWiredBelow (suc n) j (init_one n s)
init_one-IsWiredBelow n j s h w =
    let kept = init_one-state n j s in
    elim (Bool-cases (n == j)) [
      | inl y ↦ record {
        state = ground (arith, kept, w.state);
        down = λ l. ground (arith, y, kept, init_one-level n (2 * j) s h);
        up = λ l. ground (arith, y, kept, init_one-level n (2 * j + 1) s h);
      }
      | inr m ↦ record {
        state = ground (arith, kept, w.state);
        down = λ l. ground (arith, m, kept, l, w.down, init_one-level n (2 * j) s h);
        up = λ l. ground (arith, m, kept, l, w.up, init_one-level n (2 * j + 1) s h);
      }
    ]

-- `init` wires the four shutters anew, whatever the MAX7311 was told.
pub init-IsWired :
    (m : Max7311) (j : ℕ) (s : Jalousie)
    → j < 4
    → ((k : ℕ) → s.drvstate k ≤ ab)
    → IsWired j s
    → IsWired j (init (record s { max = m }))
unfolding init
init-IsWired m j s h l w =
    let s0 : Jalousie = record s { max = m } in
    let s1 = init_one 0 s0 in
    let s2 = init_one 1 s1 in
    let s3 = init_one 2 s2 in
    let start : IsWiredBelow 0 j s0 = record {
      state = (w.legal, w.shown);
      down = λ e. absurd (omega (arith, e));
      up = λ e. absurd (omega (arith, e));
    } in
    let l1 = init_one-legal 0 1 s0 (l 1) in
    let l2 = init_one-legal 1 2 s1 (init_one-legal 0 2 s0 (l 2)) in
    let l3 = init_one-legal 2 3 s2 (init_one-legal 1 3 s1 (init_one-legal 0 3 s0 (l 3))) in
    let w1 = init_one-IsWiredBelow 0 j s0 (l 0) start in
    let w2 = init_one-IsWiredBelow 1 j s1 l1 w1 in
    let w3 = init_one-IsWiredBelow 2 j s2 l2 w2 in
    let w4 = init_one-IsWiredBelow 3 j s3 l3 w3 in
    record { legal = w4.state.0; down = w4.down h; up = w4.up h; shown = w4.state.1 }

pub init-legal :
    (m : Max7311) (i : ℕ) (s : Jalousie)
    → s.drvstate i ≤ ab
    → (init (record s { max = m })).drvstate i ≤ ab
unfolding init
init-legal m i s h =
    let s0 : Jalousie = record s { max = m } in
    let s1 = init_one 0 s0 in
    let s2 = init_one 1 s1 in
    init_one-legal 3 i (init_one 2 s2)
      (init_one-legal 2 i s2 (init_one-legal 1 i s1 (init_one-legal 0 i s0 h)))
