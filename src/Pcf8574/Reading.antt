-- ===== src/Pcf8574/Reading.antt =====
-- `PCF8574::get` and `PCF8574::in`, src/pcf8574_ts.cpp: the two operations that test what the
-- E6TcpClient returns.
use Prim.Native.Nat.{bit_and}
use haussteuerung.E6TcpClient.Contract.{send_ecmd-ne-ok}
use haussteuerung.Config.{tcp_buffsize}
use haussteuerung.Prelude.{
  arith, length, ◌-◌, ◌≤◌, ◌≡◌, ℕ, ◌%◌, ◌^◌, Bool, true, false, ◌∷◌, if◌then◌else◌,
}
use haussteuerung.Prelude.Text.{Text, strtol_dec}
use haussteuerung.E6TcpClient.{Attempt, Network, Client, send_ecmd, Ret, ret_ok}
use haussteuerung.Pcf8574.{Pcf8574, get_command, out, on}

-- The test `r != 0` of a result of `sendEcmd`.
abbrev pub is_nonzero : Ret → Bool
is_nonzero ret_ok = false
is_nonzero _ = true

abbrev ask : Pcf8574 → Pcf8574
ask p = record p { sent = get_command p.adr ∷ p.sent }

-- `on_result` and `out_result` are what the client returns for the two commands. `ret` is the
-- value of the variable that the function never sets.
unfoldable pub get : Ret → Ret → ℕ → ℕ → Pcf8574 → Pcf8574 × ℕ
get on_result out_result ret port p =
    let lifted = on port p in
    let restored = out lifted.data_byte (ask lifted) in
    if is_nonzero on_result
    then (lifted, 1)
    else if is_nonzero out_result
    then (restored, 1)
    else (restored, bit_and ret (2 ^ port))

-- `in`: the answer of the device stands in the text.
unfoldable pub read_byte : Ret → Ret → Text → Pcf8574 → Pcf8574 × ℕ
read_byte high_result out_result answer p =
    let lifted = out 255 p in
    let restored = out p.data_byte (ask lifted) in
    if is_nonzero high_result
    then (lifted, 1)
    else if is_nonzero out_result
    then (restored, 1)
    else (restored, (strtol_dec answer).0 % 256)

-- Whatever the device answers, `get` and `in` return 1 and send no read command, if the first
-- result comes from a call of `sendEcmd`; `get` leaves its output switched, `in` all of them.
pub reading_blind :
    (first second : Attempt) (n : Network) (c : Client) (r_out : Ret) (ret port : ℕ) (answer : Text)
    (p : Pcf8574)
    → length c.buffer ≤ tcp_buffsize - 1
    → let r = (send_ecmd false first n second c).1 in
      (get r r_out ret port p ≡ (on port p, 1)) × (read_byte r r_out answer p ≡ (out 255 p, 1))
unfolding get read_byte
reading_blind first second n c r_out ret port answer p room =
    ground (arith, send_ecmd-ne-ok first second n c room)
