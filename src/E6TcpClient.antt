-- ===== src/E6TcpClient.antt =====
-- src/e6tcpclient.cpp, include/e6tcpclient.h: the client of one E6 device.
-- What the kernel answers (select, send, read, socket, connect) is an argument, `Attempt` and
-- `Network`. A first read that fails writes a 0 to `buffer[-1]`, which is the last byte of the
-- unused end of `e6server` in front of it, and leaves the empty text in the buffer.
pub mod Receive
pub mod Reply
pub mod Contract
pub mod Tests
use haussteuerung.Prelude.{
  ℕ, ◌-◌, Bool, true, false, not, ◌&&◌, ◌||◌, List, [], ◌∷◌, ◌++◌, Option, none, some, length, take,
  if◌then◌else◌,
}
use haussteuerung.Prelude.Text.{Text, codes, contains, until}
use haussteuerung.Config.{tcp_buffsize}

pub data Ret : Type 0 where
  ret_ok ret_dummy ret_parser_error ret_buffer ret_error : Ret

-- What one round of the receive loop meets: the time limit of `select`, a `read` that returns -1,
-- one that returns 0, or bytes that have arrived.
pub data Read : Type 0 where
  timeout read_error closed : Read
  chunk : Text → Read

-- The answers of the kernel during one `sendTo`; behind the last read nothing more arrives.
pub record Attempt : Type 0 where
  pub writable : Bool
  pub sent_all : Bool
  pub reads : List Read

pub record Client : Type 0 where
  pub dummy : Bool
  pub connected : Bool
  pub lasterror : ℕ
  pub has_socket : Bool
  pub buffer : Text

-- The tests at the end of a round, on the C string in the buffer. `none` is the 255 of the code.
unfoldable pub parser_error_in : Text → Bool
parser_error_in text =
    contains text (codes "parser error" ++ 10 ∷ [])
    || contains text (codes "parse error" ++ 10 ∷ [])

unfoldable pub ok_in : Text → Bool
ok_in text = contains text (codes "OK" ++ 10 ∷ []) || contains text (codes "ok" ++ 10 ∷ [])

unfoldable pub judge : Bool → Text → Option Ret → Option Ret
judge rec_ok buffer ret =
    let text = until 0 buffer in
    let line = if not rec_ok && contains text (10 ∷ []) then some ret_buffer else ret in
    let good = if rec_ok && ok_in text then some ret_ok else line in
    if parser_error_in text then some ret_parser_error else good

-- The text behind `received += -1` and the new end: all but the last byte, if there is one.
unfoldable pub drop_last : Text → Text
drop_last [] = []
drop_last (c ∷ []) = []
drop_last (c ∷ d ∷ s) = c ∷ drop_last (d ∷ s)

pub record Received : Type 0 where
  pub ret : Ret
  pub text : Text
  pub lost : Bool

abbrev or_error : Option Ret → Ret
or_error (some r) = r
or_error none = ret_error

-- A read of no bytes: the text stays, and the tests are still made.
abbrev fail_with : Bool → Text → Received
fail_with rec_ok buffer = record {
  ret = or_error (judge rec_ok buffer (some ret_error));
  text = buffer;
  lost = true;
}

abbrev lost_at : Text → Received
lost_at buffer = record { ret = ret_error; text = buffer; lost = true }

abbrev is_empty : Text → Bool
is_empty [] = true
is_empty (_ ∷ _) = false

-- `while(ret == 255)`; `read` takes at most `TCP_BUFFSIZE - received - 1` bytes.
unfoldable pub receive : Bool → Text → List Read → Received
receive rec_ok buffer [] = lost_at buffer
receive rec_ok buffer (timeout ∷ rs) = lost_at buffer
receive rec_ok buffer (closed ∷ rs) = fail_with rec_ok buffer
receive rec_ok buffer (read_error ∷ rs) = fail_with rec_ok (drop_last buffer)
receive rec_ok buffer (chunk [] ∷ rs) = fail_with rec_ok buffer
receive rec_ok buffer (chunk (b ∷ bs) ∷ rs) =
    let bytes = take (tcp_buffsize - length buffer - 1) (b ∷ bs) in
    let more = receive rec_ok (buffer ++ bytes) rs in
    if is_empty bytes then fail_with rec_ok buffer else elim (judge rec_ok (buffer ++ bytes) none) [
      | some r ↦ record { ret = r; text = buffer ++ bytes; lost = false }
      | none ↦ more
    ]

unfoldable pub finish : Client → Received → Client × Ret
finish c r = (
  if r.lost
      then record c { buffer = r.text; connected = false; lasterror = 4 }
      else record c { buffer = r.text },
  r.ret,
)

unfoldable pub send_to : Bool → Attempt → Client → Client × Ret
send_to rec_ok a c =
    let answer = receive rec_ok [] a.reads in
    if c.dummy
    then (record c { lasterror = 0; buffer = [] }, ret_dummy)
    else if not c.connected
    then (record c { lasterror = 0 }, ret_error)
    else if not a.writable
    then (record c { lasterror = 0; buffer = []; connected = false }, ret_error)
    else if not a.sent_all
    then (record c { lasterror = 3; connected = false }, ret_error)
    else finish (record c { lasterror = 0 }) answer

unfoldable pub close_connection : Client → Client
close_connection c = record c { connected = false }

-- What `socket` and `connect` return.
pub record Network : Type 0 where
  pub socket_made : Bool
  pub accepted : Bool

unfoldable pub connect_to_server : Network → Client → Client × Ret
unfolding close_connection
connect_to_server n c =
    let closed_one = if c.has_socket then close_connection c else c in
    if c.dummy
    then (record c { connected = true }, ret_ok)
    else if not n.socket_made
    then (record closed_one { has_socket = false; lasterror = 1 }, ret_error)
    else if not n.accepted
    then (record closed_one { has_socket = true; lasterror = 2 }, ret_error)
    else (record closed_one { has_socket = true; connected = true }, ret_ok)

abbrev is_error : Ret → Bool
is_error ret_error = true
is_error _ = false

-- The second try of `sendEcmd`, behind a first that ended in `RET_ERROR`.
unfoldable pub retry : Bool → Network → Attempt → Client × Ret → Client × Ret
retry rec_ok n second (c, r) =
    let (c', joined) = connect_to_server n c in
    if is_error r then if is_error joined then (c', r) else send_to rec_ok second c' else (c, r)

-- `sendEcmd` is the function at `false`, `sendEcmdrecOK` at `true`; the versions with a return
-- string copy `buffer` besides.
unfoldable pub send_ecmd : Bool → Attempt → Network → Attempt → Client → Client × Ret
send_ecmd rec_ok first n second c = retry rec_ok n second (send_to rec_ok first c)

-- The constructor: the device 0.0.0.0 is a dummy, and is not connected.
unfoldable pub create : Bool → Network → Client
create dummy n =
    let c : Client = record {
      dummy = dummy;
      connected = false;
      lasterror = 0;
      has_socket = false;
      buffer = [];
    } in
    if dummy then c else (connect_to_server n c).0
