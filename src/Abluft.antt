-- ===== src/Abluft.antt =====
-- Class Abluft of src/abluft.cpp and include/abluft.h: the ventilation with two stages, two LEDs
-- on the E6 device, and a thread that ends the higher stage. A public method is one step; the
-- configuration file is the field `conf`, which `setLow` writes.
pub mod Agreement
pub mod Timing
pub mod Tests
use haussteuerung.Prelude.{
  ℕ, zero, suc, ◌<◌, ◌≡◌, Bool, true, false, not, List, [], ◌∷◌, ◌++◌, if◌then◌else◌, ◌==◌, Option,
  some, none,
}
use haussteuerung.Prelude.Int.{ℤ, pos, negsuc}
use haussteuerung.Prelude.Text.{Text, codes}
use haussteuerung.Config.{aus, low, high, abluft_0, abluft_1}
use haussteuerung.Ini.{Ini}
use haussteuerung.Pcf8574.{Pcf8574}
use haussteuerung.Pcf8574

-- `pin set LED_RED v` and `pin set LED_GREEN v`
pub data LedCommand : Type 0 where
  led_red led_green : Bool → LedCommand

unfoldable pub led_line : LedCommand → Text
led_line (led_red false) = codes "pin set LED_RED 0" ++ 10 ∷ []
led_line (led_red true) = codes "pin set LED_RED 1" ++ 10 ∷ []
led_line (led_green false) = codes "pin set LED_GREEN 0" ++ 10 ∷ []
led_line (led_green true) = codes "pin set LED_GREEN 1" ++ 10 ∷ []

abbrev pub low_key : Text
low_key = codes "a/c:low"

abbrev pub high_time_key : Text
high_time_key = codes "a/c:high_time"

-- `getState` as a text; other numbers leave the buffer as it was, which is taken for empty.
unfoldable pub state_text : ℕ → Text
state_text zero = codes "Aus"
state_text (suc zero) = codes "Low"
state_text (suc (suc zero)) = codes "High"
state_text _ = []

module _ (ini : Ini) where
  open ini use {Dict, get_boolean, get_int, set}

  -- `timers` holds the times of the threads that sleep; `shown` is <Abluft> of the shared memory.
  pub record Abluft : Type 0 where
    pub pcf : Pcf8574
    pub leds : List LedCommand
    pub state : ℕ
    pub conf : Dict
    pub timers : List ℤ
    pub shown : Text

  unfoldable pub update_shm : Abluft → Abluft
  update_shm a = record a { shown = state_text a.state }

  -- The part that `aus`, `low` and `high` share: state, pins, LEDs, display.
  unfoldable pub enter : ℕ → Bool → Bool → Bool → Bool → Abluft → Abluft
  enter state p0 p1 red green a = update_shm (record a {
    state = state;
    pcf = Pcf8574.set abluft_1 p1 (Pcf8574.set abluft_0 p0 a.pcf);
    leds = led_green green ∷ led_red red ∷ a.leds;
  })

  unfoldable pub turn_aus : Abluft → Abluft
  turn_aus a = if a.state == aus then a else enter aus true false false false a

  unfoldable pub turn_low : Abluft → Abluft
  turn_low a = if a.state == low then a else enter low false false false true a

  -- `created` says whether `pthread_create` succeeds.
  unfoldable pub turn_high : Bool → Abluft → Abluft × ℤ
  turn_high created a =
      let zeit = get_int a.conf high_time_key (pos 0) in
      let started = record a { timers = zeit ∷ a.timers } in
      if created then (enter high true true true false started, pos 0) else (a, negsuc 0)

  unfoldable pub by_conf : Abluft → Abluft
  by_conf a = if get_boolean a.conf low_key false then turn_low a else turn_aus a

  unfoldable pub init : Abluft → Abluft
  init a =
      if get_boolean a.conf low_key false
      then turn_low (record a { state = aus })
      else turn_aus (record a { state = low })

  unfoldable pub set_low : Bool → Abluft → Abluft
  set_low b a =
      let switched = if b then turn_low a else turn_aus a in
      let a' = if a.state == high then a else switched in
      record a' { conf = set a'.conf low_key (if b then codes "true" else codes "false") }

  unfoldable pub toggle_low : Abluft → Abluft
  toggle_low a = set_low (not (get_boolean a.conf low_key false)) a

  unfoldable pub update_low : Abluft → Abluft
  update_low a = if a.state == high then a else by_conf a

  unfoldable pub set_high : Bool → Abluft → Abluft
  set_high created a = if a.state == high then a else (turn_high created a).0

  -- `abluftTimer` behind its `sleep`: what it does whatever the state is.
  unfoldable pub timer_end : List ℤ → Abluft → Abluft
  timer_end others a = record (by_conf a) { timers = others }

  -- What may happen next: a method, the `init` of the PCF8574, the end of a timer thread, a write to another port of the
  -- PCF8574 by class HsGui or Orient.
  pub data Step (a : Abluft) : Abluft → Type 0 where
    inits : Step a (init a)
    port_inits : Step a (record a { pcf = Pcf8574.init a.pcf })
    sets_low : (b : Bool) → Step a (set_low b a)
    toggles : Step a (toggle_low a)
    updates : Step a (update_low a)
    sets_high : (created : Bool) → Step a (set_high created a)
    ends :
        (before : List ℤ) (zeit : ℤ) (behind : List ℤ)
        → a.timers ≡ before ++ zeit ∷ behind
        → Step a (timer_end (before ++ behind) a)
    other_port :
        (port : ℕ) (b : Bool)
        → 1 < port
        → port < 8
        → Step a (record a { pcf = Pcf8574.set port b a.pcf })

  -- The constructor: `state` holds any number when it calls `init`.
  unfoldable pub create : ℕ → Pcf8574 → Dict → Abluft
  create state pcf conf =
      init (record { pcf = pcf; leds = []; state = state; conf = conf; timers = []; shown = [] })

  pub data Reach (a : Abluft) : Abluft → Type 0 where
    here : Reach a a
    next : {b c : Abluft} → Reach a b → Step b c → Reach a c
