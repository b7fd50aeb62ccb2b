-- ===== src/E6TcpClient/Tests.antt =====
-- Runs of the client of src/e6tcpclient.cpp, and the theorems at concrete inputs.
use haussteuerung.Prelude.{◌≡◌, refl, true, false, List, [], ◌∷◌, ◌++◌, some, none, arith}
use haussteuerung.Prelude.Text.{Text, codes, contains, until, after, strip_prefix}
use haussteuerung.E6TcpClient.{
  Client, Attempt, Network, chunk, timeout, read_error, drop_last, ret_error, ret_ok, ret_buffer,
  judge, ok_in, parser_error_in, receive, finish, send_to, send_ecmd, retry, connect_to_server,
  close_connection,
}
use haussteuerung.E6TcpClient.Receive.{Silent}
use haussteuerung.E6TcpClient.Reply.{reads, whole, receive-whole, Piece}
use haussteuerung.E6TcpClient.Contract.{IsDone, send_ecmd-IsDone}

abbrev client : Client
client = record { dummy = false; connected = true; lasterror = 0; has_socket = true; buffer = [] }

abbrev net : Network
net = record { socket_made = true; accepted = true }

-- The device is silent, then it answers in two pieces.
abbrev silent : Attempt
silent = record { writable = true; sent_all = true; reads = timeout ∷ [] }

abbrev answer_pieces : List Piece
answer_pieces = (b'O', []) ∷ (b'K', 10 ∷ []) ∷ []

abbrev in_pieces : Attempt
in_pieces = record { writable = true; sent_all = true; reads = reads answer_pieces }

abbrev joined : Client
joined = record client { buffer = codes "OK" ++ 10 ∷ [] }

send_again : send_ecmd true silent net in_pieces client ≡ (joined, ret_ok)
unfolding send_ecmd send_to receive finish retry connect_to_server close_connection judge ok_in
    parser_error_in contains until after strip_prefix
send_again = refl

send_ecmd-IsDone_example :
    let (c', r) = send_ecmd true silent net in_pieces client in IsDone true c' r
send_ecmd-IsDone_example = send_ecmd-IsDone true silent in_pieces net client refl (omega arith)

-- The first read fails twice.
abbrev unread : Attempt
unread = record { writable = true; sent_all = true; reads = read_error ∷ [] }

send_in_vain :
    send_ecmd true unread net unread client
    ≡ (record client { connected = false; lasterror = 4 }, ret_error)
unfolding send_ecmd send_to receive finish retry connect_to_server close_connection judge ok_in
    parser_error_in contains until after strip_prefix drop_last
send_in_vain = refl

abbrev answered : Attempt
answered = record { writable = true; sent_all = true; reads = chunk (b'1' ∷ 10 ∷ []) ∷ [] }

send_line :
    send_ecmd false answered net silent client
    ≡ (record client { buffer = b'1' ∷ 10 ∷ [] }, ret_buffer)
unfolding send_ecmd send_to receive finish retry judge ok_in parser_error_in contains until after
    strip_prefix
send_line = refl

nothing_yet : Silent true []
unfolding judge ok_in parser_error_in contains until after strip_prefix
nothing_yet = refl

ok_at_the_end : judge true (whole answer_pieces) none ≡ some ret_ok
unfolding judge ok_in parser_error_in contains until after strip_prefix
ok_at_the_end = refl

receive-whole_example :
    (s : Text) × (receive true [] (reads answer_pieces)
      ≡ record { ret = ret_ok; text = s; lost = false })
receive-whole_example =
    receive-whole true ret_ok [] answer_pieces nothing_yet (λ e. cc) ok_at_the_end (omega arith)
