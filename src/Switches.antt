-- ===== src/Switches.antt =====
-- Classes HWR, Orient and HsGui of src/abluft.cpp and include/abluft.h: the fan of the utility
-- room on pin 8 of the MAX7311, and the orientation light and the two keys of the touch screen on
-- the PCF8574 that class Abluft uses as well.
pub mod Sharing
pub mod Tests
use haussteuerung.Prelude.{ℕ, Bool, true, false, List, [], ◌∷◌, if◌then◌else◌, ◌==◌}
use haussteuerung.Prelude.Text.{Text, codes}
use haussteuerung.Config.{aus, an, orient, hsgui_power, hsgui_reset}
use haussteuerung.Pcf8574.{Pcf8574}
use haussteuerung.Pcf8574
use haussteuerung.Max7311.{Max7311}
use haussteuerung.Max7311

pub record Hwr : Type 0 where
  pub max : Max7311
  pub state : ℕ
  pub shown : Text

pub record Orient : Type 0 where
  pub pcf : Pcf8574
  pub state : ℕ
  pub shown : Text

-- `getState` of both classes.
unfoldable pub on_text : ℕ → Text
on_text state = if state == an then codes "An" else codes "Aus"

unfoldable pub hwr_an : Hwr → Hwr
hwr_an h = record h { max = Max7311.set 8 true h.max; state = an; shown = on_text an }

unfoldable pub hwr_aus : Hwr → Hwr
hwr_aus h = record h { max = Max7311.set 8 false h.max; state = aus; shown = on_text aus }

unfoldable pub hwr_init : Hwr → Hwr
hwr_init h =
    let h' = if h.state == aus then hwr_aus h else hwr_an h in
    record h' { shown = on_text h'.state }

unfoldable pub orient_an : Orient → Orient
orient_an o = record o { pcf = Pcf8574.set orient true o.pcf; state = an; shown = on_text an }

unfoldable pub orient_aus : Orient → Orient
orient_aus o = record o { pcf = Pcf8574.set orient false o.pcf; state = aus; shown = on_text aus }

unfoldable pub orient_init : Orient → Orient
orient_init o =
    let o' = if o.state == aus then orient_aus o else orient_an o in
    record o' { shown = on_text o'.state }

-- Class HsGui has no state of its own: a key is pressed and, 200 ms later, released.
unfoldable pub reset_device : Pcf8574 → Pcf8574
reset_device p = Pcf8574.set hsgui_reset false (Pcf8574.set hsgui_reset true p)

unfoldable pub switch_power : Pcf8574 → Pcf8574
switch_power p = Pcf8574.set hsgui_power false (Pcf8574.set hsgui_power true p)

unfoldable pub gui_init : Pcf8574 → Pcf8574
gui_init p = Pcf8574.set hsgui_reset false (Pcf8574.set hsgui_power false p)
