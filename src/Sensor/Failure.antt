-- ===== src/Sensor/Failure.antt =====
-- What a failed reading means, src/temp.cpp, src/ds1631_ts.cpp and src/haussteuerung.cpp together.
use haussteuerung.Prelude.{◌≡◌, true, false, some, if◌then◌else◌, arith, Bool-cases, inl, inr}
use haussteuerung.Prelude.Int.{
  ℤ, pos, ◌+ℤ◌, ◌*ℤ◌, ◌≤ℤ◌, same_ℤ, same_ℤ-parts, -ℤ_parts, ltb_ℤ, eq_of_parts,
}
use haussteuerung.Prelude.Text.{Text}
use haussteuerung.Config.{an}
use haussteuerung.Ini.{Ini}
use haussteuerung.E6TcpClient.{Ret}
use haussteuerung.Switches.{Hwr, hwr_aus}
use haussteuerung.Rooms.{Temps, auto, permanent, temp_control_hwr, control_messages, take_hwr}
use haussteuerung.Rooms.Regulation.{take_aus}
use haussteuerung.Sensor.{Temp, ds1631_read, update, floor_tenths, get_temp, is_buffer}

-- The value is the number in the buffer for the one good result, and zero for every other one:
-- the test of the text changes nothing.
read_lem :
    (atof : Text → ℤ) (ret : Ret) (r_buf : Text)
    → ds1631_read atof ret r_buf ≡ (if is_buffer ret then atof r_buf else pos 0)
unfolding ds1631_read
read_lem atof ret r_buf = elim (Bool-cases (same_ℤ (atof r_buf) (pos 0))) [
  | inl zero ↦
      let none_left : atof r_buf ≡ pos 0 =
        eq_of_parts (atof r_buf) (pos 0)
          (ground (arith, zero, same_ℤ-parts (atof r_buf) (pos 0))) in
      ground (arith, zero, none_left)
  | inr some_left ↦ ground (arith, some_left)
]

-- The temperature for the display is the nearest number of tenths, upwards from the middle.
pub get_temp_lem :
    (t : Temp)
    → (get_temp t *ℤ pos 1000 ≤ℤ t.temperature +ℤ pos 500)
      × (t.temperature +ℤ pos 501 ≤ℤ get_temp t *ℤ pos 1000 +ℤ pos 1000)
unfolding get_temp floor_tenths ◌+ℤ◌ ◌*ℤ◌
get_temp_lem t = ground arith

-- A reading that fails counts as zero degrees: an automatic fan that runs is switched off, however
-- warm it is, where its threshold is over half a degree.
pub lost_lem :
    (ini : Ini) (conf : Ini.Dict ini) (atof : Text → ℤ) (ret : Ret) (r_buf : Text) (sensor : Temp)
    (outside threshold : ℤ) (h : Hwr)
    → is_buffer ret ≡ false
    → auto ini conf ≡ true
    → permanent ini conf ≡ false
    → h.state ≡ an
    → ltb_ℤ (pos 5000) threshold ≡ true
    → let room = (update atof ret r_buf sensor).temperature in
      let t : Temps = record { room = room; outside = outside; threshold = threshold } in
      take_hwr (temp_control_hwr ini conf t h.state) h ≡ some (hwr_aus h)
unfolding update temp_control_hwr control_messages
lost_lem ini conf atof ret r_buf sensor outside threshold h b a p s l =
    ground
      (arith, b, a, p, s, l, read_lem atof ret r_buf, take_aus h, -ℤ_parts threshold (pos 5000))
