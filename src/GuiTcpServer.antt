-- ===== src/GuiTcpServer.antt =====
-- Class GuiTcpServer of src/guitcpserver.cpp and include/guitcpserver.h: the list of the clients
-- that show the user interface, and the lines that they send. The operating system is an argument:
-- the descriptors that `select` reports, the descriptor of a new connection, the bytes read.
pub mod Clients
pub mod Lines
pub mod Course
pub mod Tests
use haussteuerung.Prelude.{
  ℕ, zero, suc, ◌+◌, ◌-◌, Bool, true, false, not, ◌&&◌, List, [], ◌∷◌, ◌++◌, Option, none, some,
  if◌then◌else◌, ◌==◌, ltb,
}
use haussteuerung.Prelude.Text.{Text, codes, contains, after, print_dec}
use haussteuerung.Config.Cmd
use haussteuerung.E6UdpServer.{Message}
use haussteuerung.MsgQueue.{strtol_0}

-- `list_entry`, without its pointer.
pub record Entry : Type 0 where
  pub client : ℕ
  pub rec_status : Bool

-- The linked list from its last entry on, the counter beside it, and what was written: to the
-- clients and into the queue, the latest first.
pub record GuiTcpServer : Type 0 where
  pub clients : List Entry
  pub count : ℕ
  pub written : List (ℕ × Text)
  pub queued : List Message

unfoldable pub create : GuiTcpServer
create = record { clients = []; count = 0; written = []; queued = [] }

unfoldable pub add_client_to_list : ℕ → GuiTcpServer → GuiTcpServer
add_client_to_list client s = record s {
  clients = record { client = client; rec_status = false } ∷ s.clients;
  count = suc s.count;
}

-- The list without its first entry of a client; `none` where there is no such entry.
unfoldable pub without : ℕ → List Entry → Option (List Entry)
without client [] = none
without client (e ∷ es) =
    let rest = without client es in
    if e.client == client then some es else elim rest [ none ↦ none | some es' ↦ some (e ∷ es') ]

unfoldable pub remove_client_from_list : ℕ → GuiTcpServer → GuiTcpServer × ℕ
remove_client_from_list client s =
    if s.count == 0 then (s, 1) else elim (without client s.clients) [
      | none ↦ (s, 1)
      | some es ↦ (record s { clients = es; count = s.count - 1 }, 0)
    ]

-- `accepted` is the descriptor of the new connection, where the server's own socket is ready.
unfoldable pub accept_if_fd_isset : Option ℕ → GuiTcpServer → GuiTcpServer × Option ℕ
accept_if_fd_isset none s = (s, none)
accept_if_fd_isset (some client) s = (add_client_to_list client s, some client)

-- The turn of the main loop for a new connection.
unfoldable pub accept_turn : Option ℕ → GuiTcpServer → GuiTcpServer
accept_turn accepted s =
    let (s', client) = accept_if_fd_isset accepted s in
    elim client [ none ↦ s' | some c ↦ add_client_to_list c s' ]

-- The first entry of a client is marked.
unfoldable pub mark : ℕ → List Entry → List Entry
mark client [] = []
mark client (e ∷ es) =
    let rest = mark client es in
    if e.client == client then record e { rec_status = true } ∷ es else e ∷ rest

unfoldable pub set_hs_info_flag : ℕ → GuiTcpServer → GuiTcpServer
set_hs_info_flag client s = record s {
  clients = mark client s.clients;
  queued = record { mtyp = Cmd.send_hsinfo; mtext = [] } ∷ s.queued;
}

-- The loop of `sendHSInfo`: what was written, and how often.
unfoldable pub send_to : Text → List Entry → List (ℕ × Text) → List (ℕ × Text) × ℕ
send_to buf [] written = (written, 0)
send_to buf (e ∷ es) written =
    let (w, n) = send_to buf es ((e.client, buf) ∷ written) in
    let skipped = send_to buf es written in if e.rec_status then (w, suc n) else skipped

unfoldable pub send_hs_info : Text → GuiTcpServer → GuiTcpServer × ℕ
send_hs_info buf s = let (w, n) = send_to buf s.clients s.written in (record s { written = w }, n)

unfoldable pub send_config : ℕ → Text → GuiTcpServer → GuiTcpServer
send_config client buf s = record s { written = (client, buf) ∷ s.written }

-- `fillFdSet`: the descriptors for `select`, and the greatest one so far.
unfoldable pub fill_fd_set : List Entry → ℕ → List ℕ × ℕ
fill_fd_set [] max = ([], max)
fill_fd_set (e ∷ es) max =
    let (fds, top) = fill_fd_set es (if ltb max e.client then e.client else max) in
    (e.client ∷ fds, top)

-- `strtok` with the separator "\n": the lines that are not empty.
abbrev close_line : Text → List Text → List Text
close_line [] rest = rest
close_line (c ∷ line) rest = (c ∷ line) ∷ rest

unfoldable pub lines_from : Text → Text × List Text
lines_from [] = ([], [])
lines_from (c ∷ s) =
    let (line, rest) = lines_from s in
    if c == 10 then ([], close_line line rest) else (c ∷ line, rest)

unfoldable pub lines : Text → List Text
lines s = let (line, rest) = lines_from s in close_line line rest

-- The message of a line that has both fields; `none` for any other line.
unfoldable pub line_message : ℕ → Text → Option Message
line_message client line = elim (after (codes "cmd=") line) [
  | none ↦ none
  | some rest ↦ elim (after (codes "value=") line) [
    | none ↦ none
    | some value ↦ some (record {
      mtyp = (strtol_0 rest).0;
      mtext = codes "value=" ++ value ++ codes " client=" ++ print_dec client (10 ∷ []);
    })
  ]
]

-- The loop over the lines, with a bound of its rounds: a line that lacks a field is not left.
unfoldable pub take_lines : ℕ → ℕ → List Text → List Message → Option (List Message)
take_lines rounds client [] queued = some queued
take_lines zero client (line ∷ more) queued = none
take_lines (suc rounds) client (line ∷ more) queued =
    let next = take_lines rounds client more in
    let again = take_lines rounds client (line ∷ more) queued in
    elim (line_message client line) [ none ↦ again | some m ↦ next (m ∷ queued) ]

-- The first client of the list that is ready.
unfoldable pub first_ready : (ℕ → Bool) → List Entry → Option ℕ
first_ready ready [] = none
first_ready ready (e ∷ es) =
    let rest = first_ready ready es in if ready e.client then some e.client else rest

-- `recvIfFdIsset`, where the client that is ready has sent `bytes`, or closed its connection: then
-- there are none. The second part is -1 or the client; `none` is a loop that has not ended.
unfoldable pub recv_if_fd_isset :
    ℕ → (ℕ → Bool) → Text → GuiTcpServer → Option (GuiTcpServer × Option ℕ)
recv_if_fd_isset rounds ready bytes s =
    if s.count == 0 then some (s, none) else elim (first_ready ready s.clients) [
      | none ↦ some (s, none)
      | some client ↦ elim bytes [
        | [] ↦ some ((remove_client_from_list client s).0, some client)
        | c ∷ more ↦ elim (take_lines rounds client (lines (c ∷ more)) s.queued) [
          | none ↦ none
          | some q ↦ some (record s { queued = q }, some client)
        ]
      ]
    ]
