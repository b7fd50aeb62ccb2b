-- ===== src/E6TcpClient/Contract.antt =====
-- What a command costs and brings: `sendEcmd` and `sendEcmdrecOK` of src/e6tcpclient.cpp.
use haussteuerung.Prelude.{
  ◌≤◌, ◌≡◌, refl, inl, inr, ◌≢◌, Bool, true, false, [], arith, length, Bool-cases, ◌-◌,
}
use haussteuerung.Prelude.Text.{contains, until}
use haussteuerung.Config.{tcp_buffsize}
use haussteuerung.E6TcpClient.{
  Ret, ret_dummy, ret_error, ret_ok, Attempt, Network, Client, Received, receive, send_to, finish,
  connect_to_server, retry, send_ecmd, judge, close_connection, parser_error_in, ok_in,
}
use haussteuerung.E6TcpClient.Receive.{Fits, Silent, IsGood, receive-IsGood}

-- The state and the result of a call to a device that is no dummy: the result fits the kind of
-- call, the client is connected exactly if it is not `RET_ERROR`, the buffer is within bounds.
pub record IsDone (rec_ok : Bool) (c : Client) (r : Ret) : Type 0 where
  pub fits : Fits rec_ok r
  pub error_lost : r ≡ ret_error → c.connected ≡ false
  pub good_connected : r ≢ ret_error → c.connected ≡ true
  pub room : length c.buffer ≤ tcp_buffsize - 1
  pub real : c.dummy ≡ false

Silent-nil : (b : Bool) → Silent b []
unfolding judge parser_error_in ok_in contains until
Silent-nil true = refl
Silent-nil false = refl

finish-IsDone :
    (b : Bool) (c : Client) (r : Received)
    → IsGood b r
    → c.connected ≡ true
    → c.dummy ≡ false
    → IsDone b (finish c r).0 (finish c r).1
unfolding finish
finish-IsDone b c r g h d = ground arith

send_to-IsDone :
    (b : Bool) (a : Attempt) (c : Client)
    → c.dummy ≡ false
    → length c.buffer ≤ tcp_buffsize - 1
    → IsDone b (send_to b a c).0 (send_to b a c).1
unfolding send_to
send_to-IsDone b a c d room =
    let x = receive b [] a.reads in
    let good = receive-IsGood b [] a.reads (omega arith) (Silent-nil b) in
    ground (arith, d, room, finish-IsDone b (record c { lasterror = 0 }) x good)

-- A connection that is made anew, or not; a failed one behind a lost one leaves it lost.
connect_to_server_lem :
    (n : Network) (c : Client)
    → c.dummy ≡ false
    → c.connected ≡ false
    → let (c', r) = connect_to_server n c in
      (c'.dummy ≡ false) × (c'.buffer ≡ c.buffer) × (r ≡ ret_error → c'.connected ≡ false)
unfolding connect_to_server close_connection
connect_to_server_lem n c d h = ground arith

retry-IsDone :
    (b : Bool) (n : Network) (second : Attempt) (c : Client) (r : Ret)
    → IsDone b c r
    → IsDone b (retry b n second (c, r)).0 (retry b n second (c, r)).1
unfolding retry
retry-IsDone b n second c r done =
    ground
      (arith, done, connect_to_server_lem n c, send_to-IsDone b second (connect_to_server n c).0)

-- Every command to a real device whose buffer was not overrun, whatever the network answers: with
-- one repetition at most it comes to an end, the result is one that the kind of call can have, the
-- client counts as connected exactly if the result is not RET_ERROR, and the text in the buffer,
-- with its closing 0, does not reach behind the end of the buffer.
pub send_ecmd-IsDone :
    (rec_ok : Bool) (first second : Attempt) (n : Network) (c : Client)
    → c.dummy ≡ false
    → length c.buffer ≤ tcp_buffsize - 1
    → let (c', r) = send_ecmd rec_ok first n second c in IsDone rec_ok c' r
unfolding send_ecmd
send_ecmd-IsDone b first second n c d room =
    let (c₁, r₁) = send_to b first c in
    retry-IsDone b n second c₁ r₁ (send_to-IsDone b first c d room)

dummy_lem :
    (b : Bool) (first second : Attempt) (n : Network) (c : Client)
    → c.dummy ≡ true
    → send_ecmd b first n second c ≡ (record c { lasterror = 0; buffer = [] }, ret_dummy)
unfolding send_ecmd send_to retry
dummy_lem b first second n c d = ground arith

-- `sendEcmd` never returns 0, the RET_OK of its documentation: a line of any text gives
-- RET_BUFFER. So it is at a dummy, at a real device, and behind a repetition.
pub send_ecmd-ne-ok :
    (first second : Attempt) (n : Network) (c : Client)
    → length c.buffer ≤ tcp_buffsize - 1
    → (send_ecmd false first n second c).1 ≢ ret_ok
send_ecmd-ne-ok first second n c room = elim (Bool-cases c.dummy) [
  | inl d ↦ ground (arith, dummy_lem false first second n c d)
  | inr d ↦ ground (arith, send_ecmd-IsDone false first second n c d room)
]
