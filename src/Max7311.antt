-- ===== src/Max7311.antt =====
-- src/max7311_ts.cpp, include/max7311.h: the driver of a 16 bit output port.
-- A command handed to the E6TcpClient is kept in `sent` as data, the newest first; `line` is the
-- text that goes out for it. A result of `sendEcmdrecOK` that is tested is an argument.
pub mod Levels
pub mod Tests
use Prim.Native.Nat.{bit_and}
use haussteuerung.Prelude.{
  ℕ, suc, zero, ◌+◌, ◌*◌, ◌/◌, ◌%◌, ◌^◌, Bool, List, [], ◌∷◌, ◌++◌, if◌then◌else◌, true, false, ltb,
}
use haussteuerung.Prelude.Int.{ℤ, pos, negsuc}
use haussteuerung.Prelude.Text.{Text, codes, print_dec, print_hex}
use haussteuerung.E6TcpClient.{Ret}
use haussteuerung.Pcf8574.Reading.{is_nonzero}

pub data Command : Type 0 where
  set_out : ℕ → Bool → Command
  set_word : ℕ → Command
  set_direction : ℕ → Command
  pulse_out : ℕ → ℕ → Command
  set_value : ℕ → ℕ → Command

pub record Max7311 : Type 0 where
  pub adr : ℕ
  pub sent : List Command

abbrev bit_of : Bool → ℕ
bit_of true = 1
bit_of false = 0

-- The format strings of the `sprintf` calls.
unfoldable pub line : ℕ → Command → Text
unfolding print_dec print_hex
line adr (set_out port state) =
    codes "max7311 set "
    ++ print_dec adr (32 ∷ print_dec port (32 ∷ print_dec (bit_of state) (10 ∷ [])))
line adr (set_word word) = codes "max7311 setOUTw " ++ print_dec adr (32 ∷ print_hex word (10 ∷ []))
line adr (set_direction word) =
    codes "max7311 setDDRw " ++ print_dec adr (32 ∷ print_hex word (10 ∷ []))
line adr (pulse_out port time) =
    codes "max7311 pulse " ++ print_dec adr (32 ∷ print_dec port (32 ∷ print_dec time (10 ∷ [])))
line adr (set_value port value) =
    codes "max7311 set " ++ print_dec adr (32 ∷ print_dec port (32 ∷ print_dec value (10 ∷ [])))

unfoldable pub create : ℕ → Max7311
create address = record { adr = address / 2; sent = [] }

abbrev pub send : Command → Max7311 → Max7311
send c m = record m { sent = c ∷ m.sent }

unfoldable pub set : ℕ → Bool → Max7311 → Max7311
set port state = send (set_out port state)

unfoldable pub setw : ℕ → Max7311 → Max7311
setw word = send (set_word word)

unfoldable pub set_ddrw : ℕ → Max7311 → Max7311
set_ddrw word = send (set_direction word)

unfoldable pub pulse : ℕ → ℕ → Max7311 → Max7311
pulse port time = send (pulse_out port time)

-- `set_result` and `ddr_result` are what the client returns for the two commands.
unfoldable pub init_out : Ret → Ret → Max7311 → Max7311 × ℤ
unfolding setw set_ddrw
init_out set_result ddr_result m =
    let cleared = setw 0 m in
    let driven = set_ddrw 0 cleared in
    if is_nonzero set_result
    then (cleared, negsuc 0)
    else if is_nonzero ddr_result
    then (driven, negsuc 0)
    else (driven, pos 0)

-- The loop `for(int i=0; i > 8; i++)` of `setb`, on fuel; `results` says what the client returns
-- in each round.
unfoldable pub setb_loop : ℕ → ℕ → (ℕ → Ret) → ℕ → ℕ → Max7311 → Max7311 × ℤ
setb_loop zero i results port byte m = (m, pos 0)
setb_loop (suc fuel) i results port byte m =
    let m' = send (set_value (8 * port) (bit_and byte (2 ^ i))) m in
    let rest = setb_loop fuel (i + 1) results ((port + 1) % 256) byte m' in
    if ltb 8 i then if is_nonzero (results i) then (m', negsuc 0) else rest else (m, pos 0)

unfoldable pub setb : (ℕ → Ret) → ℕ → ℕ → Max7311 → Max7311 × ℤ
unfolding setb_loop
setb results port byte m = setb_loop 16 0 results port byte m
