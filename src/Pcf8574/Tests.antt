-- ===== src/Pcf8574/Tests.antt =====
-- Runs of the driver of src/pcf8574_ts.cpp, and the theorems at concrete inputs.
use haussteuerung.Prelude.{◌≡◌, refl, true, [], ◌∷◌, ◌++◌, arith}
use haussteuerung.Prelude.Text.{codes}
use haussteuerung.Pcf8574.{Pcf8574, set, on, set_command, create, clear_bit}
use haussteuerung.Pcf8574.Bits.{pin, set_lem, IsValid}

abbrev port : Pcf8574
port = record { adr = 0; data_byte = 255; sent = [] }

-- Device 64 has the number 0; switching the light on pulls pin 4 low.
create-number : create 64 ≡ port
unfolding create
create-number = refl

switch_on : (set 4 true port).sent ≡ (codes "pcf8574x set 0 0 ef" ++ 10 ∷ []) ∷ []
unfolding set on clear_bit set_command
switch_on = refl

set_lem_example :
    let q = set 4 true port in
    (pin q.data_byte 5 ≡ pin port.data_byte 5)
    × IsValid q
    × (q.sent ≡ set_command 0 q.data_byte ∷ [])
    × (q.adr ≡ 0)
set_lem_example = set_lem 4 5 true port (omega arith) (omega arith) (omega arith)
