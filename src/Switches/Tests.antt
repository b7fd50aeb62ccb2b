-- ===== src/Switches/Tests.antt =====
-- The light and the keys of src/abluft.cpp at concrete inputs.
use haussteuerung.Prelude.{◌≡◌, [], ◌∷◌, true, arith}
use haussteuerung.Config.{hsgui_reset}
use haussteuerung.Pcf8574.{Pcf8574, set_command}
use haussteuerung.Pcf8574
use haussteuerung.Pcf8574.Bits.{pin}
use haussteuerung.Switches.{Orient, reset_device}
use haussteuerung.Switches.Sharing.{press_lem}

abbrev port : Pcf8574
port = record { adr = 0; data_byte = 253; sent = [] }

abbrev light : Orient
light = record { pcf = port; state = 1; shown = [] }

pressed :
    let pressed = Pcf8574.set hsgui_reset true port in
    let q = reset_device port in
    (pin pressed.data_byte hsgui_reset ≡ 0)
    × (pin q.data_byte hsgui_reset ≡ 1)
    × (pin q.data_byte 1 ≡ pin port.data_byte 1)
    × (q.sent ≡ set_command 0 q.data_byte ∷ set_command 0 pressed.data_byte ∷ [])
pressed = press_lem 1 port (omega arith) (omega arith) (λ e. absurd (omega (arith, e)))
