-- ===== src/Abluft/Agreement.antt =====
-- Pins, LEDs and display of class Abluft, src/abluft.cpp, agree with its state.
use haussteuerung.Prelude.{
  ℕ, ◌≤◌, ◌≡◌, Bool, true, false, List, [], ◌∷◌, if◌then◌else◌, ◌==◌, arith,
}
use haussteuerung.Config.{low, high, abluft_0, abluft_1}
use haussteuerung.Ini.{Ini}
use haussteuerung.Pcf8574.{Pcf8574}
use haussteuerung.Pcf8574
use haussteuerung.Pcf8574.Bits.{pin, set_lem}
use haussteuerung.Pcf8574.Bits
use haussteuerung.Abluft

-- What the LEDs were told last.
unfoldable pub red_lit : List Abluft.LedCommand → Bool
red_lit [] = false
red_lit (Abluft.led_red b ∷ cs) = b
red_lit (Abluft.led_green b ∷ cs) = red_lit cs

unfoldable pub green_lit : List Abluft.LedCommand → Bool
green_lit [] = false
green_lit (Abluft.led_red b ∷ cs) = green_lit cs
green_lit (Abluft.led_green b ∷ cs) = b

abbrev level_of : Bool → ℕ
level_of true = 0
level_of false = 1

two_pins :
    (p0 p1 : Bool) (p : Pcf8574)
    → Bits.IsValid p
    → let q = Pcf8574.set abluft_1 p1 (Pcf8574.set abluft_0 p0 p) in
      Bits.IsValid q × (pin q.data_byte 0 ≡ level_of p0) × (pin q.data_byte 1 ≡ level_of p1)
two_pins p0 p1 p v = ground (
  arith,
  set_lem 0 0 p0 p,
  set_lem 1 0 p1 (Pcf8574.set 0 p0 p),
  set_lem 1 1 p1 (Pcf8574.set 0 p0 p),
)

module _ (ini : Ini) where
  pub record IsAgreed (a : Abluft.Abluft ini) : Type 0 where
    pub valid : Bits.IsValid a.pcf
    pub legal : a.state ≤ high
    pub pin_0 : pin a.pcf.data_byte 0 ≡ (if a.state == low then 1 else 0)
    pub pin_1 : pin a.pcf.data_byte 1 ≡ (if a.state == high then 0 else 1)
    pub red : red_lit a.leds ≡ (a.state == high)
    pub green : green_lit a.leds ≡ (a.state == low)
    pub display : a.shown ≡ Abluft.state_text a.state

  turn_aus-IsAgreed : (a : Abluft.Abluft ini) → IsAgreed a → IsAgreed (Abluft.turn_aus ini a)
  unfolding Abluft.turn_aus Abluft.enter Abluft.update_shm red_lit green_lit
  turn_aus-IsAgreed a w = ground (arith, two_pins true false a.pcf)

  turn_low-IsAgreed : (a : Abluft.Abluft ini) → IsAgreed a → IsAgreed (Abluft.turn_low ini a)
  unfolding Abluft.turn_low Abluft.enter Abluft.update_shm red_lit green_lit
  turn_low-IsAgreed a w = ground (arith, two_pins false false a.pcf)

  by_conf-IsAgreed : (a : Abluft.Abluft ini) → IsAgreed a → IsAgreed (Abluft.by_conf ini a)
  unfolding Abluft.by_conf
  by_conf-IsAgreed a w = ground (arith, turn_aus-IsAgreed a, turn_low-IsAgreed a)

  -- `init` leaves everything in agreement, whatever the state and the commands were before.
  init-IsAgreed : (a : Abluft.Abluft ini) → Bits.IsValid a.pcf → IsAgreed (Abluft.init ini a)
  unfolding Abluft.init Abluft.turn_aus Abluft.turn_low Abluft.enter Abluft.update_shm red_lit
      green_lit
  init-IsAgreed a v = ground (arith, two_pins true false a.pcf, two_pins false false a.pcf)

  set_low-IsAgreed :
      (b : Bool) (a : Abluft.Abluft ini) → IsAgreed a → IsAgreed (Abluft.set_low ini b a)
  unfolding Abluft.set_low
  set_low-IsAgreed b a w = ground (arith, turn_aus-IsAgreed a, turn_low-IsAgreed a)

  set_high-IsAgreed :
      (created : Bool) (a : Abluft.Abluft ini)
      → IsAgreed a
      → IsAgreed (Abluft.set_high ini created a)
  unfolding Abluft.set_high Abluft.turn_high Abluft.enter Abluft.update_shm red_lit green_lit
  set_high-IsAgreed created a w = ground (arith, two_pins true true a.pcf)

  port-IsAgreed :
      (a : Abluft.Abluft ini) → IsAgreed a → IsAgreed (record a { pcf = Pcf8574.init a.pcf })
  unfolding Pcf8574.init
  port-IsAgreed a w = ground arith

  pub Step-IsAgreed : {a b : Abluft.Abluft ini} → Abluft.Step ini a b → IsAgreed a → IsAgreed b
  unfolding Abluft.toggle_low Abluft.update_low Abluft.timer_end
  Step-IsAgreed {a} Abluft.inits w = init-IsAgreed a w.valid
  Step-IsAgreed {a} Abluft.port_inits w = port-IsAgreed a w
  Step-IsAgreed {a} (Abluft.sets_low b) w = set_low-IsAgreed b a w
  Step-IsAgreed {a} Abluft.toggles w = set_low-IsAgreed _ a w
  Step-IsAgreed {a} Abluft.updates w = ground (arith, by_conf-IsAgreed a w)
  Step-IsAgreed {a} (Abluft.sets_high created) w = set_high-IsAgreed created a w
  Step-IsAgreed {a} (Abluft.ends before zeit behind e) w = ground (arith, by_conf-IsAgreed a w)
  Step-IsAgreed {a} (Abluft.other_port port b p q) w =
      ground (arith, set_lem port 0 b a.pcf, set_lem port 1 b a.pcf)

  Reach-IsAgreed : {a b : Abluft.Abluft ini} → Abluft.Reach ini a b → IsAgreed a → IsAgreed b
  Reach-IsAgreed Abluft.here w = w
  Reach-IsAgreed (Abluft.next r st) w = Step-IsAgreed st (Reach-IsAgreed r w)

  -- After the constructor and any steps, the pins of the two stages, the two LEDs and the display
  -- are those of the state: off, low or high.
  pub reach-IsAgreed :
      (state : ℕ) (p : Pcf8574) (conf : Ini.Dict ini) (a : Abluft.Abluft ini)
      → Bits.IsValid p
      → Abluft.Reach ini (Abluft.create ini state p conf) a
      → IsAgreed a
  unfolding Abluft.create
  reach-IsAgreed state p conf a v r = Reach-IsAgreed r (init-IsAgreed _ v)
