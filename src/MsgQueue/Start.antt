-- ===== src/MsgQueue/Start.antt =====
-- The constructor of class MsgQueue of src/sharedMem.cpp, which empties the queue, and
-- `sendSharedMem` of class sharedMem.
use haussteuerung.Prelude.{
  ◌≡◌, refl, List, [], ◌∷◌, Option, none, some, if◌then◌else◌, length, arith,
}
use haussteuerung.Prelude.Int.{ℤ, pos, negsuc, ltb_ℤ, same_ℤ}
use haussteuerung.Prelude.Text.{Text}
use haussteuerung.Config.Cmd
use haussteuerung.MsgQueue.{receive_into, write_to_queue}

-- The constructor returns with a buffer, ends the program, or has read all that was sent and still
-- waits for a message.
pub data Outcome : Type 0 where
  ready : Text → Outcome
  ended : Outcome
  waits : Text → Outcome

-- The loop, with `mq_curmsgs`, and what `mq_receive` (`none` for its -1) and then `mq_getattr` answer
-- in each round.
unfoldable pub drain : ℤ → List (Option Text × ℤ) → Text → Outcome
drain curmsgs [] buffer = if ltb_ℤ (pos 0) curmsgs then waits buffer else ready buffer
drain curmsgs ((none, next) ∷ answers) buffer =
    if ltb_ℤ (pos 0) curmsgs then ended else ready buffer
drain curmsgs ((some sent, next) ∷ answers) buffer =
    let rest = drain next answers (receive_into sent buffer) in
    if ltb_ℤ (pos 0) curmsgs then rest else ready buffer

-- With the answer of `mq_open`, and the first one of `mq_getattr`.
unfoldable pub create : ℤ → ℤ → List (Option Text × ℤ) → Text → Outcome
create msg_id curmsgs answers buffer =
    if same_ℤ msg_id (negsuc 0) then ended else drain curmsgs answers buffer

unfoldable pub send_shared_mem : Text → Text × Text
send_shared_mem buffer = write_to_queue (record { mtyp = Cmd.send_hsinfo; mtext = [] }) buffer

-- What a queue with these messages answers where nobody else uses it.
abbrev pub alone : List Text → List (Option Text × ℤ)
alone [] = []
alone (sent ∷ queue) = (some sent, pos (length queue)) ∷ alone queue

-- The buffer behind the messages.
abbrev pub received : List Text → Text → Text
received [] buffer = buffer
received (sent ∷ queue) buffer = received queue (receive_into sent buffer)

-- Where nobody else uses the queue, the constructor receives each of its messages once and in their
-- order, and returns behind the last one.
pub drained_lem :
    (queue : List Text) (buffer : Text)
    → drain (pos (length queue)) (alone queue) buffer ≡ ready (received queue buffer)
unfolding drain
drained_lem [] buffer = refl
drained_lem (sent ∷ queue) buffer =
    let ih = drained_lem queue (receive_into sent buffer) in ground (arith, ih)
