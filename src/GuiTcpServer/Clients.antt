-- ===== src/GuiTcpServer/Clients.antt =====
-- The list of the clients, src/guitcpserver.cpp, as a multiset of descriptors.
use haussteuerung.Prelude.{
  ℕ, suc, ◌+◌, ◌-◌, ◌≤◌, ◌<◌, ◌≡◌, ◌≢◌, refl, Bool, true, ◌&&◌, List, [], ◌∷◌, Option, none, some,
  if◌then◌else◌, ◌==◌, length, arith, Option-cases, inl, inr,
}
use haussteuerung.Prelude.Text.{Text}
use haussteuerung.GuiTcpServer.{
  Entry, GuiTcpServer, create, add_client_to_list, without, remove_client_from_list,
  accept_if_fd_isset, accept_turn, mark, set_hs_info_flag, send_to, send_hs_info, send_config,
  first_ready, recv_if_fd_isset, take_lines, lines,
}

-- How often a client is in the list, and how often with a mark.
abbrev pub copies : ℕ → List Entry → ℕ
copies c [] = 0
copies c (e ∷ es) = let n = copies c es in if e.client == c then suc n else n

abbrev pub marked : ℕ → List Entry → ℕ
marked c [] = 0
marked c (e ∷ es) = let n = marked c es in if (e.client == c) && e.rec_status then suc n else n

-- The counter is the length of the list.
abbrev pub Counted : GuiTcpServer → Type 0
Counted s = s.count ≡ length s.clients

-- What happens to the list, with what the system reports.
pub data Turn : Type 0 where
  connection : Option ℕ → Turn
  flag : ℕ → Turn
  info : Text → Turn
  config : ℕ → Text → Turn
  received : ℕ → (ℕ → Bool) → Text → Turn

-- A turn of the main loop; `none` is a turn that has not ended.
unfoldable pub turn : Turn → GuiTcpServer → Option GuiTcpServer
turn (connection accepted) s = some (accept_turn accepted s)
turn (flag client) s = some (set_hs_info_flag client s)
turn (info buf) s = some (send_hs_info buf s).0
turn (config client buf) s = some (send_config client buf s)
turn (received rounds ready bytes) s = elim (recv_if_fd_isset rounds ready bytes s) [
  | none ↦ none
  | some r ↦ some r.0
]

length-without :
    (c : ℕ) (es es' : List Entry) → without c es ≡ some es' → length es ≡ suc (length es')
unfolding without
length-without c [] es' h = ground (arith, h)
length-without c (e ∷ es) es' h = elim (Option-cases (without c es)) [
  | inl n ↦ ground (arith, h, n)
  | inr (r, q) ↦ ground (arith, h, q, length-without c es r q)
]

length-mark : (c : ℕ) (es : List Entry) → length (mark c es) ≡ length es
unfolding mark
length-mark c [] = refl
length-mark c (e ∷ es) = ground (arith, length-mark c es)

remove-Counted : (c : ℕ) (s : GuiTcpServer) → Counted s → Counted (remove_client_from_list c s).0
unfolding remove_client_from_list
remove-Counted c s h = elim (Option-cases (without c s.clients)) [
  | inl n ↦ ground (arith, h, n)
  | inr (r, q) ↦ ground (arith, h, q, length-without c s.clients r q)
]

recv_from :
    (rounds : ℕ) (ready : ℕ → Bool) (bytes : Text) (s s' : GuiTcpServer) (c : Option ℕ) (d : ℕ)
    → Counted s
    → recv_if_fd_isset rounds ready bytes s ≡ some (s', c)
    → first_ready ready s.clients ≡ some d
    → Counted s'
unfolding recv_if_fd_isset
recv_from rounds ready [] s s' c d h e f = ground (arith, h, e, f, remove-Counted d s h)
recv_from rounds ready (b ∷ bs) s s' c d h e f =
    elim (Option-cases (take_lines rounds d (lines (b ∷ bs)) s.queued)) [
      | inl n ↦ ground (arith, h, e, f, n)
      | inr (q, t) ↦ ground (arith, h, e, f, t)
    ]

recv-Counted :
    (rounds : ℕ) (ready : ℕ → Bool) (bytes : Text) (s s' : GuiTcpServer) (c : Option ℕ)
    → Counted s
    → recv_if_fd_isset rounds ready bytes s ≡ some (s', c)
    → Counted s'
unfolding recv_if_fd_isset
recv-Counted rounds ready bytes s s' c h e = elim (Option-cases (first_ready ready s.clients)) [
  | inl n ↦ ground (arith, h, e, n)
  | inr (d, f) ↦ recv_from rounds ready bytes s s' c d h e f
]

turn-Counted : (t : Turn) (s s' : GuiTcpServer) → Counted s → turn t s ≡ some s' → Counted s'
unfolding turn accept_turn accept_if_fd_isset add_client_to_list set_hs_info_flag send_hs_info
    send_config
turn-Counted (connection none) s s' h e = ground (arith, h, e)
turn-Counted (connection (some c)) s s' h e = ground (arith, h, e)
turn-Counted (flag client) s s' h e = ground (arith, h, e, length-mark client s.clients)
turn-Counted (info buf) s s' h e = ground (arith, h, e)
turn-Counted (config client buf) s s' h e = ground (arith, h, e)
turn-Counted (received rounds ready bytes) s s' h e =
    elim (Option-cases (recv_if_fd_isset rounds ready bytes s)) [
      | inl n ↦ absurd (ground (arith, e, n))
      | inr (r, q) ↦ ground (arith, e, q, recv-Counted rounds ready bytes s r.0 r.1 h q)
    ]

unfoldable pub turns : List Turn → GuiTcpServer → Option GuiTcpServer
turns [] s = some s
turns (t ∷ ts) s = elim (turn t s) [ none ↦ none | some s' ↦ turns ts s' ]

turns-Counted :
    (ts : List Turn) (s s' : GuiTcpServer) → Counted s → turns ts s ≡ some s' → Counted s'
unfolding turns
turns-Counted [] s s' h e = ground (arith, h, e)
turns-Counted (t ∷ ts) s s' h e = elim (Option-cases (turn t s)) [
  | inl n ↦ absurd (ground (arith, e, n))
  | inr (r, q) ↦ turns-Counted ts r s' (turn-Counted t s r h q) (ground (arith, e, q))
]

-- After any turns of the main loop that have ended, from the empty list on, the counter of the
-- clients is the length of the list.
pub count_lem : (ts : List Turn) (s : GuiTcpServer) → turns ts create ≡ some s → Counted s
count_lem ts s e = turns-Counted ts create s (unfold create in refl) e

copies-without :
    (c d : ℕ) (es es' : List Entry)
    → without c es ≡ some es'
    → copies d es ≡ copies d es' + (if c == d then 1 else 0)
unfolding without
copies-without c d [] es' h = absurd (ground (arith, h))
copies-without c d (e ∷ es) es' h = elim (Option-cases (without c es)) [
  | inl n ↦ ground (arith, h, n)
  | inr (r, q) ↦ ground (arith, h, q, copies-without c d es r q)
]

copies-found : (c : ℕ) (es es' : List Entry) → without c es ≡ some es' → 0 < copies c es
copies-found c es es' h = ground (arith, copies-without c c es es' h)

without-none : (c : ℕ) (es : List Entry) → without c es ≡ none → copies c es ≡ 0
unfolding without
without-none c [] h = refl
without-none c (e ∷ es) h = elim (Option-cases (without c es)) [
  | inl n ↦ ground (arith, h, n, without-none c es n)
  | inr (r, q) ↦ absurd (ground (arith, h, q))
]

copies-length : (c : ℕ) (es : List Entry) → copies c es ≤ length es
copies-length c [] = omega arith
copies-length c (e ∷ es) = ground (arith, copies-length c es)

-- To remove a client takes one entry of it out of the list and no entry of another one, and
-- reports success exactly where there was one.
pub remove_lem :
    (c d : ℕ) (s : GuiTcpServer)
    → Counted s
    → let (s', result) = remove_client_from_list c s in
      (result ≡ (if copies c s.clients == 0 then 1 else 0))
      × (copies d s'.clients ≡ copies d s.clients - (if c == d then 1 else 0))
      × Counted s'
unfolding remove_client_from_list
remove_lem c d s h = elim (Option-cases (without c s.clients)) [
  | inl n ↦ ground (arith, h, n, without-none c s.clients n, copies-length d s.clients)
  | inr (r, q) ↦ ground (
    arith,
    h,
    q,
    copies-without c d s.clients r q,
    copies-found c s.clients r q,
    copies-length c s.clients,
    length-without c s.clients r q,
  )
]

-- The main loop puts a new client into the list twice: when its connection is closed, one entry
-- of the descriptor is left, and is given to the next `select`.
pub stale_lem :
    (rounds c : ℕ) (ready : ℕ → Bool) (s : GuiTcpServer)
    → ready c ≡ true
    → (s' : GuiTcpServer) × (recv_if_fd_isset rounds ready [] (accept_turn (some c) s)
        ≡ some (s', some c))
      × (copies c s'.clients ≡ suc (copies c s.clients))
unfolding recv_if_fd_isset accept_turn accept_if_fd_isset add_client_to_list remove_client_from_list
    without first_ready
stale_lem rounds c ready s r = (add_client_to_list c s, ground (arith, r), ground arith)

-- How often something was written to a client.
abbrev pub written_to : ℕ → List (ℕ × Text) → ℕ
written_to c [] = 0
written_to c (w ∷ ws) = let n = written_to c ws in if w.0 == c then suc n else n

written-send_to :
    (c : ℕ) (buf : Text) (es : List Entry) (written : List (ℕ × Text))
    → written_to c (send_to buf es written).0 ≡ written_to c written + marked c es
unfolding send_to
written-send_to c buf [] written = omega arith
written-send_to c buf (e ∷ es) written =
    ground (
      arith,
      written-send_to c buf es written,
      written-send_to c buf es ((e.client, buf) ∷ written),
    )

marked-mark : (c : ℕ) (es : List Entry) → 0 < copies c es → 0 < marked c (mark c es)
unfolding mark
marked-mark c [] h = absurd (omega (arith, h))
marked-mark c (e ∷ es) h = ground (arith, h, marked-mark c es)

marked-other : (c d : ℕ) (es : List Entry) → c ≢ d → marked d (mark c es) ≡ marked d es
unfolding mark
marked-other c d [] h = refl
marked-other c d (e ∷ es) h = ground (arith, h, marked-other c d es h)

-- A client of the list that asks for the values gets them with the next sending; every other
-- client gets them as often as without that request.
pub info_lem :
    (c d : ℕ) (buf : Text) (s : GuiTcpServer)
    → 0 < copies c s.clients
    → c ≢ d
    → let s' = (send_hs_info buf (set_hs_info_flag c s)).0 in
      (written_to c s.written < written_to c s'.written)
      × (written_to d s'.written ≡ written_to d (send_hs_info buf s).0.written)
unfolding send_hs_info set_hs_info_flag
info_lem c d buf s h n = ground (
  arith,
  written-send_to c buf (mark c s.clients) s.written,
  written-send_to d buf (mark c s.clients) s.written,
  written-send_to d buf s.clients s.written,
  marked-mark c s.clients h,
  marked-other c d s.clients n,
)
