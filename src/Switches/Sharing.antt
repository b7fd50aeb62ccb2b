-- ===== src/Switches/Sharing.antt =====
-- The users of one PCF8574 in src/abluft.cpp do not disturb each other.
use haussteuerung.Prelude.{ℕ, ◌≤◌, ◌<◌, ◌≡◌, ◌≢◌, true, false, ◌∷◌, if◌then◌else◌, ◌==◌, arith}
use haussteuerung.Config.{an, orient, hsgui_reset}
use haussteuerung.Pcf8574.{Pcf8574, set_command}
use haussteuerung.Pcf8574
use haussteuerung.Pcf8574.Bits.{pin, set_lem, IsValid}
use haussteuerung.Switches.{Orient, orient_an, orient_aus, orient_init, on_text, reset_device}

-- The light shows its state on its pin and in the shared memory.
pub record IsLit (o : Orient) : Type 0 where
  pub valid : IsValid o.pcf
  pub legal : o.state ≤ an
  pub level : pin o.pcf.data_byte orient ≡ (if o.state == an then 0 else 1)
  pub display : o.shown ≡ on_text o.state

-- Switching the orientation light on or off or to its state after a new start, from whatever
-- state: pin and display are then those of the state, and each other pin stays as it was.
pub orient_lem :
    (other : ℕ) (o : Orient)
    → IsValid o.pcf
    → other < 8
    → other ≢ orient
    → (IsLit (orient_an o) × (pin (orient_an o).pcf.data_byte other ≡ pin o.pcf.data_byte other))
      × (IsLit (orient_aus o)
          × (pin (orient_aus o).pcf.data_byte other ≡ pin o.pcf.data_byte other))
      × (IsLit (orient_init o)
          × (pin (orient_init o).pcf.data_byte other ≡ pin o.pcf.data_byte other))
unfolding orient_an orient_aus orient_init
orient_lem other o v h n = ground (
  arith,
  set_lem orient orient true o.pcf,
  set_lem orient orient false o.pcf,
  set_lem orient other true o.pcf,
  set_lem orient other false o.pcf,
)

-- A press of a key of the touch screen: it is pressed first and released after, two commands are
-- sent, the key ends released, and each other pin stays as it was.
pub press_lem :
    (other : ℕ) (p : Pcf8574)
    → IsValid p
    → other < 8
    → other ≢ hsgui_reset
    → let pressed = Pcf8574.set hsgui_reset true p in
      let q = reset_device p in
      (pin pressed.data_byte hsgui_reset ≡ 0)
      × (pin q.data_byte hsgui_reset ≡ 1)
      × (pin q.data_byte other ≡ pin p.data_byte other)
      × (q.sent ≡ set_command p.adr q.data_byte ∷ set_command p.adr pressed.data_byte ∷ p.sent)
unfolding reset_device
press_lem other p v h n =
    let pressed = Pcf8574.set hsgui_reset true p in
    ground (
      arith,
      set_lem hsgui_reset hsgui_reset true p,
      set_lem hsgui_reset other true p,
      set_lem hsgui_reset hsgui_reset false pressed,
      set_lem hsgui_reset other false pressed,
    )
