-- ===== src/MsgQueue/Tests.antt =====
-- Messages in the queue of src/sharedMem.cpp at a concrete input: a reader whose buffer still
-- holds a longer message.
use haussteuerung.Prelude.{◌≡◌, refl, [], ◌∷◌, ◌++◌, arith, none, some, length, drop, true}
use haussteuerung.Prelude.Text.{print_dec, emit, Text, codes, contains, until, after, strip_prefix}
use haussteuerung.E6UdpServer.{Message}
use haussteuerung.MsgQueue.{read_from_queue, write_to_queue}
use haussteuerung.MsgQueue.{line_of, print_long, print_into, receive_into}
use haussteuerung.MsgQueue.Start.{create, drain, ended, ready, send_shared_mem}
use haussteuerung.Prelude.Int.{pos, negsuc}
use haussteuerung.MsgQueue.RoundTrip.{read_from_queue-write_to_queue}

abbrev lamp_on : Message
lamp_on = record { mtyp = 18; mtext = codes "value=AN" }

abbrev used : Text
used = codes "cmd=17 value=VENTIL_1_START" ++ 0 ∷ []

lamp_on-value : contains lamp_on.mtext (codes "value=") ≡ true
unfolding contains after strip_prefix
lamp_on-value = refl

read_from_queue-write_to_queue_example :
    let sent = (write_to_queue lamp_on []).1 in
    read_from_queue sent used
    ≡ some (record { mtyp = 18; mtext = codes " value=AN" ++ until 0 (drop (length sent) used) })
read_from_queue-write_to_queue_example =
    read_from_queue-write_to_queue lamp_on [] used (omega arith) lamp_on-value refl

request : (send_shared_mem used).1 ≡ codes "cmd=12 value="
unfolding send_shared_mem write_to_queue line_of print_into print_long print_dec emit contains after
    strip_prefix until
request = refl

-- A message that comes while the queue is emptied is received too.
one_more :
    create (pos 3) (pos 1) ((some (codes "cmd=1"), pos 1) ∷ (some (codes "cmd=2"), pos 0) ∷ []) []
    ≡ ready (codes "cmd=2")
unfolding create drain receive_into
one_more = refl

not_opened : create (negsuc 0) (pos 0) [] [] ≡ ended
unfolding create
not_opened = refl

not_read : create (pos 3) (pos 1) ((none, pos 1) ∷ []) [] ≡ ended
unfolding create drain
not_read = refl
