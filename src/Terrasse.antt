-- ===== src/Terrasse.antt =====
-- Class Terrasse of src/abluft.cpp and include/abluft.h: two valves for watering and a socket on
-- one PCF8574, and threads that close a valve after some minutes.
-- The two valves have the same code twice; here it takes the number of the valve. A thread is
-- detached when it is created, so that the `pthread_join` of `setVentil_1` does not wait.
pub mod Pins
pub mod Timers
pub mod Course
pub mod Tests
use haussteuerung.Prelude.{
  ℕ, zero, suc, ◌+◌, ◌<◌, ◌≡◌, Bool, true, false, not, ◌&&◌, Option, none, some, if◌then◌else◌,
  ◌==◌, update, leb, [],
}
use haussteuerung.Prelude.Int.{ℤ, pos, to_int, ◌*ℤ◌, ltb_ℤ}
use haussteuerung.Prelude.Text.{Text, codes}
use haussteuerung.Config.{aus, an, timer_an, ventil_1, ventil_2, steckdose}
use haussteuerung.Ini.{Ini}
use haussteuerung.Pcf8574.{Pcf8574}
use haussteuerung.Pcf8574

-- A running thread: `struct thr_ventilData`, and whether it has left `sleep` and can no longer be
-- cancelled.
pub record Timer : Type 0 where
  pub ventil_nr : ℕ
  pub zeit : ℤ
  pub woken : Bool

pub record Terrasse : Type 0 where
  pub pcf : Pcf8574
  pub state_ventil : ℕ → ℕ
  pub state_steckdose : ℕ
  pub thr_id : ℕ → Option ℕ
  pub threads : ℕ → Option Timer
  pub next_id : ℕ
  -- <Ventil_1>, <Ventil_2> and <Steckdose> of the shared memory.
  pub ventil_shown : ℕ → Text
  pub steckdose_shown : Text

-- `getStateVentil_1`: the buffer keeps what it held for a number that is no state.
unfoldable pub ventil_text : Text → ℕ → Text
ventil_text held zero = codes "Aus"
ventil_text held (suc zero) = codes "An"
ventil_text held (suc (suc zero)) = codes "Timer"
ventil_text held _ = held

unfoldable pub steckdose_text : Text → ℕ → Text
steckdose_text held zero = codes "Aus"
steckdose_text held (suc zero) = codes "An"
steckdose_text held _ = held

-- The three texts go through one buffer.
unfoldable pub update_shm : Terrasse → Terrasse
update_shm t =
    let first = ventil_text [] (t.state_ventil ventil_1) in
    let second = ventil_text first (t.state_ventil ventil_2) in
    record t {
      ventil_shown = update (update t.ventil_shown ventil_1 first) ventil_2 second;
      steckdose_shown = steckdose_text second t.state_steckdose;
    }

abbrev pub open_at : ℕ → Bool
open_at state = not (state == aus)

unfoldable pub init : Terrasse → Terrasse
init t =
    let first = Pcf8574.set ventil_1 (open_at (t.state_ventil ventil_1)) t.pcf in
    let second = Pcf8574.set ventil_2 (open_at (t.state_ventil ventil_2)) first in
    record t { pcf = Pcf8574.set steckdose (open_at t.state_steckdose) second }

unfoldable pub create : Pcf8574 → Terrasse
create p = update_shm (
    init (record {
      pcf = p;
      state_ventil = λ _. aus;
      state_steckdose = aus;
      thr_id = λ _. none;
      threads = λ _. none;
      next_id = 0;
      ventil_shown = λ _. [];
      steckdose_shown = [];
    }))

-- `pthread_cancel`: the thread ends if it sleeps.
unfoldable pub cancel : Option ℕ → (ℕ → Option Timer) → ℕ → Option Timer
cancel none threads = threads
cancel (some k) threads = elim (threads k) [
  | none ↦ threads
  | some timer ↦ if timer.woken then threads else update threads k none
]

-- The tests of `setVentil_1` in front of the work.
unfoldable pub is_change : ℕ → ℕ → Terrasse → Bool
is_change i state t =
    not (state == an && t.state_ventil i == timer_an) && not (t.state_ventil i == state)

-- The work at the output, before the state is set.
unfoldable pub switch : ℕ → ℕ → Terrasse → Terrasse
switch i state t =
    let ended =
      if t.state_ventil i == timer_an
      then record t { threads = cancel (t.thr_id i) t.threads }
      else t in
    if state == aus
    then record ended { pcf = Pcf8574.set i false t.pcf }
    else record t { pcf = Pcf8574.set i true t.pcf }

unfoldable pub store : ℕ → ℕ → Terrasse → Terrasse
store i state t = update_shm (record t { state_ventil = update t.state_ventil i state })

unfoldable pub set_ventil_at : ℕ → ℕ → Terrasse → Terrasse
set_ventil_at i state t = if is_change i state t then store i state (switch i state t) else t

unfoldable pub set_ventil : ℕ → ℕ → Terrasse → Terrasse
set_ventil number state t =
    let first = if number == ventil_1 then set_ventil_at ventil_1 state t else t in
    if number == ventil_2 then set_ventil_at ventil_2 state first else first

unfoldable pub set_steckdose : ℕ → Terrasse → Terrasse
set_steckdose state t =
    let switched = record t {
      state_steckdose = state;
      pcf = Pcf8574.set steckdose (open_at state) t.pcf;
    } in
    if t.state_steckdose == state then t else update_shm switched

-- The `pthread_create` of `startVentilTimer`, for a time in minutes.
unfoldable pub launch : ℕ → ℤ → Terrasse → Terrasse
launch index dauer t =
    let timer : Timer = record {
      ventil_nr = index;
      zeit = to_int (dauer *ℤ pos 60);
      woken = false;
    } in
    record t {
      thr_id = update t.thr_id index (some t.next_id);
      threads = update t.threads t.next_id (some timer);
      next_id = t.next_id + 1;
    }

-- `created` says whether `pthread_create` succeeds.
unfoldable pub start_ventil_timer : Bool → ℕ → ℤ → Terrasse → Terrasse
start_ventil_timer created index dauer t =
    if ltb_ℤ dauer (pos 1)
    then t
    else if index == ventil_1 && not (t.state_ventil ventil_1 == aus)
    then t
    else if index == ventil_2 && not (t.state_ventil ventil_2 == aus)
    then t
    else if created
    then set_ventil index timer_an (launch index dauer t)
    else t

-- `startVentilTimer` with the time from the configuration.
unfoldable pub start_ventil_timer_conf : (ini : Ini) → Ini.Dict ini → Bool → ℕ → Terrasse → Terrasse
start_ventil_timer_conf ini conf created index t =
    let first =
      if index == ventil_1
      then Ini.get_int ini conf (codes "irrigation:ventil_1_duration") (pos 0)
      else pos 0 in
    let dauer =
      if index == ventil_2
      then Ini.get_int ini conf (codes "irrigation:ventil_2_duration") (pos 0)
      else first in
    if ltb_ℤ (pos 0) dauer then start_ventil_timer created index dauer t else t

-- `ventilTimer`: `sleep` returns and cancelling is disabled; then the valve is closed, with the
-- call of `setVentil` below.
unfoldable pub wake : ℕ → Terrasse → Terrasse
wake k t = elim (t.threads k) [
  | none ↦ t
  | some timer ↦ record t { threads = update t.threads k (some (record timer { woken = true })) }
]

unfoldable pub remove : ℕ → Terrasse → Terrasse
remove k t = record t { threads = update t.threads k none }

-- The end of the thread, where no other call of `setVentil` runs at the same time.
unfoldable pub close : ℕ → Terrasse → Terrasse
close k t = elim (t.threads k) [
  | none ↦ t
  | some timer ↦ if timer.woken then remove k (set_ventil timer.ventil_nr aus t) else t
]

-- What may happen next, where every call of `setVentil` is one step. The code takes no mutex for
-- it, so two calls can also run in each other: they are `switch` and then `store` of each, and
-- Terrasse/Course says what an order of these pieces leads to.
pub data Step (t : Terrasse) : Terrasse → Type 0 where
  sets : (number state : ℕ) → number < 2 → state < timer_an → Step t (set_ventil number state t)
  sets_steckdose : (state : ℕ) → state < timer_an → Step t (set_steckdose state t)
  starts :
      (created : Bool) (index : ℕ) (dauer : ℤ)
      → index < 2
      → Step t (start_ventil_timer created index dauer t)
  wakes : (k : ℕ) → Step t (wake k t)
  closes : (k : ℕ) → Step t (close k t)
  inits : Step t (init (record t { pcf = Pcf8574.init t.pcf }))

pub data Reach (t : Terrasse) : Terrasse → Type 0 where
  here : Reach t t
  next : {u v : Terrasse} → Reach t u → Step u v → Reach t v
