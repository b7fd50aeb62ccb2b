-- ===== src/Hauscode.antt =====
-- Class Hauscode of src/devices.cpp and include/devices.h: house codes and addresses of the FS20
-- system. The configuration writes them with four digits from 1 to 4, the device wants two bits
-- for each digit. An `int` is a number under 2 ^ 32, in two's complement.
pub mod Create
pub mod Digits
pub mod Tests
pub mod Written
use haussteuerung.Prelude.{ℕ, ◌+◌, ◌-◌, ◌*◌, ◌/◌, ◌%◌, ◌^◌, Bool, ◌&&◌, ◌==◌, ◌<◌, ◌≤◌}

pub record Hauscode : Type 0 where
  pub tmphc1 : ℕ
  pub tmphc2 : ℕ
  pub hc1 : ℕ
  pub hc2 : ℕ
  pub hc : ℕ

abbrev pub word : ℕ
word = 2 ^ 32

-- `(x >> 4 * k) & 0x000F`
unfoldable pub nibble : ℕ → ℕ → ℕ
nibble k x = x / 16 ^ k % 16

-- `acc + digit - 1`
unfoldable pub add_digit : ℕ → ℕ → ℕ
add_digit acc digit = (acc + (digit + (word - 1)) % word) % word

-- `x << 2`
unfoldable pub shift : ℕ → ℕ
shift x = x * 4 % word

unfoldable pub convert_address : ℕ → ℕ
unfolding nibble add_digit shift
convert_address adresse =
    let a = shift (add_digit 0 (nibble 3 adresse)) in
    let b = shift (add_digit a (nibble 2 adresse)) in
    let c = shift (add_digit b (nibble 1 adresse)) in add_digit c (nibble 0 adresse)

-- The same steps for both halves of the house code, and `(hc1 << 8) + hc2`.
unfoldable pub convert_hauscode : Hauscode → Hauscode
convert_hauscode h =
    let first = convert_address h.tmphc1 in
    let second = convert_address h.tmphc2 in
    record h { hc1 = first; hc2 = second; hc = (first * 256 % word + second) % word }

unfoldable pub set_hauscode : ℕ → ℕ → Hauscode → Hauscode
set_hauscode hauscode1 hauscode2 h =
    convert_hauscode (record h { tmphc1 = hauscode1; tmphc2 = hauscode2 })

unfoldable pub compare_hauscode : ℕ → ℕ → Hauscode → Bool
compare_hauscode hauscode1 hauscode2 h = (hauscode1 == h.hc1) && (hauscode2 == h.hc2)
