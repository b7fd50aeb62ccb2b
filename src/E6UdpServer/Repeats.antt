-- ===== src/E6UdpServer/Repeats.antt =====
-- Repeated packets in src/e6udpserver.cpp: the ring of five numbers is the list of the last five.
use haussteuerung.Prelude.{
  ℕ, ◌+◌, ◌<◌, ◌≡◌, refl, ap, ◌∙◌, Option-cases, Bool, true, false, ◌&&◌, ◌||◌, List, [], ◌∷◌,
  Option, none, some, arith, length, take, update, ◌%◌, inl, inr,
}
use mathlib.Core.Path.{subst}
use haussteuerung.Prelude.Int.{same_ℤ, same_ℤ_self, ℤ}
use haussteuerung.Prelude.Text.{Text, codes, contains}
use haussteuerung.Hauscode.{Hauscode}
use haussteuerung.E6UdpServer.{
  Client, Message, Server, is_known, remember, recv_from, reset_packet_counter, convert_udp_to_msg,
}
use haussteuerung.Config.Cmd

-- The numbers of the ring, the newest first.
abbrev pub recent : Client → List ℤ
recent c =
    let at = λ (k : ℕ). c.packet_count_buf ((c.pointer + k) % 5) in
    at 4 ∷ at 3 ∷ at 2 ∷ at 1 ∷ at 0 ∷ []

abbrev pub is_in : ℤ → List ℤ → Bool
is_in x [] = false
is_in x (y ∷ ys) = same_ℤ x y || is_in x ys

-- The ring holds the last five numbers: one that is remembered comes in front and the oldest
-- leaves, and a number is known exactly if it is one of the five.
pub ring_lem :
    (count x : ℤ) (c : Client)
    → c.pointer < 5
    → ((remember count c).pointer < 5)
      × (recent (remember count c) ≡ count ∷ take 4 (recent c))
      × (is_known x c ≡ is_in x (recent c))
unfolding remember is_known
ring_lem count x c h = ground arith

abbrev pub remember_all : List ℤ → Client → Client
remember_all [] c = c
remember_all (y ∷ ys) c = remember_all ys (remember y c)

abbrev last_five : List ℤ → List ℤ → List ℤ
last_five [] r = r
last_five (y ∷ ys) r = last_five ys (y ∷ take 4 r)

is_known-remember_all :
    (x : ℤ) (ys : List ℤ) (c : Client)
    → c.pointer < 5
    → is_known x (remember_all ys c) ≡ is_in x (last_five ys (recent c))
is_known-remember_all x [] c h = (ring_lem x x c h).2
is_known-remember_all x (y ∷ ys) c h =
    let (p, r, _) = ring_lem y x c h in
    is_known-remember_all x ys (remember y c) p ∙ ap (λ l. is_in x (last_five ys l)) r

in_last_five :
    (x : ℤ) (ys r : List ℤ)
    → (length ys < 5 → is_in x (last_five ys (x ∷ take 4 r)) ≡ true)
      × (length ys ≡ 5 → is_in x ys ≡ false → is_in x (last_five ys (x ∷ take 4 r)) ≡ false)
in_last_five x [] r = ground (arith, same_ℤ_self x)
in_last_five x (a ∷ []) r = ground (arith, same_ℤ_self x)
in_last_five x (a ∷ b ∷ []) r = ground (arith, same_ℤ_self x)
in_last_five x (a ∷ b ∷ c ∷ []) r = ground (arith, same_ℤ_self x)
in_last_five x (a ∷ b ∷ c ∷ d ∷ []) r = ground (arith, same_ℤ_self x)
in_last_five x (a ∷ b ∷ c ∷ d ∷ e ∷ []) r = ground (arith, same_ℤ_self x)
in_last_five x (a ∷ b ∷ c ∷ d ∷ e ∷ f ∷ ys) r = ground arith

-- A number is known while fewer than five others have been remembered after it, and after five
-- others no more.
pub repeat_lem :
    (x : ℤ) (ys : List ℤ) (c : Client)
    → c.pointer < 5
    → (length ys < 5 → is_known x (remember_all (x ∷ ys) c) ≡ true)
      × (length ys ≡ 5 → is_in x ys ≡ false → is_known x (remember_all (x ∷ ys) c) ≡ false)
repeat_lem x ys c h = rw (is_known-remember_all x (x ∷ ys) c h) (in_last_five x ys (recent c))

is_known_self : (x : ℤ) (c : Client) → c.pointer < 5 → is_known x (remember x c) ≡ true
is_known_self x c h = (repeat_lem x [] c h).0 (omega arith)

abbrev Result : Type 0
Result = Option (Server × Message × Bool)

abbrev server_of : Server → Result → Server
server_of d none = d
server_of d (some t) = t.0

abbrev is_taken : Result → Bool
is_taken none = false
is_taken (some t) = t.2

recv_known :
    (count_of : Text → ℤ) (h : Hauscode) (ip_text buffer : Text) (m : Message) (i : ℕ) (s : Server)
    → ((s i).reboot_enabled && contains buffer (codes "E6 UP")) ≡ false
    → is_known (count_of buffer) (s i) ≡ true
    → recv_from count_of h ip_text buffer m i s ≡ some (s, record m { mtyp = Cmd.no_cmd }, false)
unfolding recv_from
recv_known count_of h ip_text buffer m i s f k = ground (arith, f, k)

update_self : (s : Server) (i : ℕ) (c : Client) → update s i c i ≡ c
update_self s i c = ground arith

kept :
    (x : ℤ) (c : Client)
    → ((remember x c).reboot_enabled ≡ c.reboot_enabled)
      × ((reset_packet_counter c).reboot_enabled ≡ c.reboot_enabled)
unfolding remember reset_packet_counter
kept x c = (refl, refl)

recv_taken :
    (count_of : Text → ℤ) (h : Hauscode) (ip_text buffer : Text) (m : Message) (i : ℕ) (s : Server)
    → (s i).pointer < 5
    → is_taken (recv_from count_of h ip_text buffer m i s) ≡ true
    → let s' = server_of s (recv_from count_of h ip_text buffer m i s) in
      (((s' i).reboot_enabled && contains buffer (codes "E6 UP")) ≡ false)
      × (is_known (count_of buffer) (s' i) ≡ true)
unfolding recv_from
recv_taken count_of h ip_text buffer m i s p e =
    let down : Client = record (s i) { reboot_enabled = false } in
    let reset = reset_packet_counter down in
    let anew = is_known_self (count_of buffer) reset (unfold reset_packet_counter in omega arith) in
    elim (Option-cases (convert_udp_to_msg h ip_text buffer m)) [
      | inl n ↦ ground (arith, n)
      | inr (m', n) ↦ ground (
        arith,
        n,
        anew,
        is_known_self (count_of buffer) (s i) p,
        update_self s i down,
        update_self s i (remember (count_of buffer) (s i)),
        update_self (λ j. reset_packet_counter (update s i down j)) i
            (remember (count_of buffer) (reset_packet_counter (update s i down i))),
        kept (count_of buffer) (s i),
        kept (count_of buffer) reset,
        kept (count_of buffer) down,
      )
    ]

-- A packet that was taken is not taken again when it is repeated at once: the devices stay as they
-- are, and the message is none, whatever it held. So it is with "E6 UP", too.
pub recv_twice :
    (count_of : Text → ℤ) (h : Hauscode) (ip_text buffer : Text) (m m' m2 : Message) (i : ℕ)
    (s s' : Server)
    → (s i).pointer < 5
    → recv_from count_of h ip_text buffer m i s ≡ some (s', m', true)
    → recv_from count_of h ip_text buffer m2 i s'
      ≡ some (s', record m2 { mtyp = Cmd.no_cmd }, false)
recv_twice count_of h ip_text buffer m m' m2 i s s' p e =
    let taken = recv_taken count_of h ip_text buffer m i s p (ap is_taken e) in
    let (f, k) =
      subst
        (λ r.
          let t = server_of s r in
          (((t i).reboot_enabled && contains buffer (codes "E6 UP")) ≡ false)
          × (is_known (count_of buffer) (t i) ≡ true))
        e taken in
    recv_known count_of h ip_text buffer m2 i s' f k
