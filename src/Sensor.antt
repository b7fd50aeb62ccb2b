-- ===== src/Sensor.antt =====
-- Class Temp of src/temp.cpp and class DS1631 of src/ds1631_ts.cpp: a temperature that is read
-- over the TCP client of an E6 device. Temperatures are in ten-thousandths of a degree; `atof`,
-- of the C library, is an argument.
pub mod Failure
pub mod Tests
use haussteuerung.Prelude.{
  ℕ, ◌+◌, ◌/◌, Bool, true, false, not, ◌&&◌, ◌||◌, List, [], ◌∷◌, ◌++◌, if◌then◌else◌, ◌==◌,
}
use haussteuerung.Prelude.Int.{ℤ, pos, negsuc, ◌+ℤ◌, same_ℤ}
use haussteuerung.Prelude.Text.{Text, codes, print_dec}
use haussteuerung.E6TcpClient.{Ret, ret_ok, ret_buffer}

-- The lines for the device.
unfoldable pub ds1631_line : Text → ℕ → Text
ds1631_line command adr = codes "ds1631 " ++ command ++ 32 ∷ print_dec adr (10 ∷ [])

abbrev begins_with_0 : Text → Bool
begins_with_0 [] = false
begins_with_0 (c ∷ s) = c == b'0'

abbrev is_buffer : Ret → Bool
is_buffer ret_buffer = true
is_buffer _ = false

abbrev is_ok : Ret → Bool
is_ok ret_ok = true
is_ok _ = false

pub record Temp : Type 0 where
  pub temperature : ℤ

module _ (atof : Text → ℤ) where
  -- `DS1631::read`, with what `sendEcmd` returned and left in the buffer.
  unfoldable pub ds1631_read : Ret → Text → ℤ
  ds1631_read ret r_buf =
      if (same_ℤ (atof r_buf) (pos 0) && not (begins_with_0 r_buf)) || not (is_buffer ret)
      then pos 0
      else atof r_buf

  unfoldable pub update : Ret → Text → Temp → Temp
  update ret r_buf t = record t { temperature = ds1631_read ret r_buf }

  -- `init`: `started` is what `DS1631::init` returned. The second part is the result.
  unfoldable pub init : Ret → Ret → Text → Temp → Temp × ℕ
  init started ret r_buf t =
      let zero : Temp = record { temperature = pos 0 } in
      if is_ok started then (update ret r_buf zero, 0) else (zero, 1)

-- `floor` of a number of ten-thousandths, as a number of tenths.
unfoldable pub floor_tenths : ℤ → ℤ
floor_tenths (pos n) = pos (n / 1000)
floor_tenths (negsuc n) = negsuc (n / 1000)

unfoldable pub get_temp : Temp → ℤ
get_temp t = floor_tenths (t.temperature +ℤ pos 500)
