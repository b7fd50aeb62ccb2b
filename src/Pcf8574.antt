-- ===== src/Pcf8574.antt =====
-- src/pcf8574_ts.cpp, include/pcf8574.h: the driver of an 8 bit output port.
-- A command line that the driver hands to its E6TcpClient is kept in `sent`, the newest first.
-- The result of `e6tcp->sendEcmd`, which `init`, `on`, `off`, `toggle` and `out` only pass on, is
-- an argument of the two operations that test it.
pub mod Bits
pub mod Reading
pub mod Tests
use Prim.Native.Nat.{bit_and, bit_or, bit_xor}
use haussteuerung.Prelude.{
  ℕ, ◌+◌, ◌-◌, ◌*◌, ◌/◌, ◌%◌, ◌^◌, Bool, List, [], ◌∷◌, ◌++◌, if◌then◌else◌, ◌==◌, true, false,
}
use haussteuerung.Prelude.Text.{Text, codes, print_dec, print_hex}

pub record Pcf8574 : Type 0 where
  pub adr : ℕ
  pub data_byte : ℕ
  pub sent : List Text

-- `sprintf(ecmd, "pcf8574x set %i 0 %x\n", adr, data)`
unfoldable pub set_command : ℕ → ℕ → Text
unfolding print_dec print_hex
set_command adr byte =
    codes "pcf8574x set " ++ print_dec adr (codes " 0 " ++ print_hex byte (10 ∷ []))

-- `sprintf(ecmd, "pcf8574x get %i 0\n", adr)`
unfoldable pub get_command : ℕ → Text
unfolding print_dec
get_command adr = codes "pcf8574x get " ++ print_dec adr (codes " 0" ++ 10 ∷ [])

unfoldable pub create : ℕ → Pcf8574
create address = record { adr = bit_and address 0x0e / 2; data_byte = 255; sent = [] }

unfoldable pub out : ℕ → Pcf8574 → Pcf8574
unfolding set_command
out byte p = record p { sent = set_command p.adr byte ∷ p.sent }

unfoldable pub init : Pcf8574 → Pcf8574
unfolding set_command
init p = record p { sent = set_command p.adr p.data_byte ∷ p.sent }

-- `data |= (1 << port)` on an unsigned char
unfoldable pub set_bit : ℕ → ℕ → ℕ
set_bit port byte = bit_or byte (2 ^ port) % 256

-- `data &= ~(1 << port)` on an unsigned char
unfoldable pub clear_bit : ℕ → ℕ → ℕ
clear_bit port byte = bit_and byte (255 - 2 ^ port % 256)

-- `data ^= (1 << port)` on an unsigned char
unfoldable pub flip_bit : ℕ → ℕ → ℕ
flip_bit port byte = bit_xor byte (2 ^ port) % 256

unfoldable pub off : ℕ → Pcf8574 → Pcf8574
unfolding set_bit set_command
off port p =
    let byte = set_bit port p.data_byte in
    record p { data_byte = byte; sent = set_command p.adr byte ∷ p.sent }

unfoldable pub on : ℕ → Pcf8574 → Pcf8574
unfolding clear_bit set_command
on port p =
    let byte = clear_bit port p.data_byte in
    record p { data_byte = byte; sent = set_command p.adr byte ∷ p.sent }

unfoldable pub toggle : ℕ → Pcf8574 → Pcf8574
unfolding flip_bit set_command
toggle port p =
    let byte = flip_bit port p.data_byte in
    record p { data_byte = byte; sent = set_command p.adr byte ∷ p.sent }

unfoldable pub set : ℕ → Bool → Pcf8574 → Pcf8574
unfolding on off
set port true p = on port p
set port false p = off port p
