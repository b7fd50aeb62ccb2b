-- ===== src/Requests/Answers.antt =====
-- The requests of the user interface, from its line to what they change: src/guitcpserver.cpp and
-- src/haussteuerung.cpp together.
use haussteuerung.Prelude.{
  ℕ, ◌≡◌, refl, ap, Bool, true, false, not, ◌&&◌, [], ◌∷◌, ◌++◌, none, some, arith, ◌==◌,
}
use haussteuerung.Prelude.Int.{pos}
use haussteuerung.Prelude.Text.{
  Text, codes, skip_space, contains, after, strip_prefix, atoi, print_dec, strtol-print_dec,
  begins_with_decimal, digit_value, scan, strip_prefix-append, contains_prefix,
}
use haussteuerung.Ini.{Ini}
use haussteuerung.E6UdpServer.{Message}
use haussteuerung.MsgQueue.{strtol_0, digits_0, long_of}
use haussteuerung.GuiTcpServer.{GuiTcpServer, line_message, set_hs_info_flag}
use haussteuerung.Requests.{
  asking_client, dispatch_get_hsinfo, in_front, but_last, close_at_client, config_value,
  dispatch_set_config,
}

client_number : (client : ℕ) → atoi (print_dec client (10 ∷ [])) ≡ pos client
unfolding atoi
client_number client =
    let no_digit : begins_with_decimal (10 ∷ []) ≡ false = unfold digit_value in refl in
    ground (arith, strtol-print_dec client (10 ∷ []) no_digit)

-- The request of a client for the values marks that client, whichever one the main loop has served
-- before.
pub hsinfo_lem :
    (client other : ℕ) (s : GuiTcpServer)
    → (m : Message) × (line_message client (codes "cmd=10 value=0") ≡ some m)
      × (m.mtyp ≡ 10)
      × (dispatch_get_hsinfo other m.mtext s ≡ set_hs_info_flag client s)
unfolding line_message after strip_prefix digits_0 long_of strtol_0 skip_space digit_value scan
    dispatch_get_hsinfo asking_client
hsinfo_lem client other s = (
  record { mtyp = 10; mtext = codes "value=0 client=" ++ print_dec client (10 ∷ []) },
  refl,
  refl,
  ground (arith, client_number client),
)

-- No byte is this one.
abbrev pub has_no : ℕ → Text → Bool
has_no b [] = true
has_no b (c ∷ s) = not (c == b) && has_no b s

-- A text that has "=" and no blank is no prefix of one that has a blank in front of any "=".
strip_prefix-blank :
    (p s rest : Text)
    → has_no b'=' p ≡ false
    → has_no 32 p ≡ true
    → has_no b'=' s ≡ true
    → strip_prefix p (s ++ 32 ∷ rest) ≡ none
unfolding strip_prefix
strip_prefix-blank [] s rest e b h = absurd (ground arith)
strip_prefix-blank (q ∷ p) [] rest e b h = ground arith
strip_prefix-blank (q ∷ p) (c ∷ s) rest e b h = ground (arith, strip_prefix-blank p s rest)

in_front_lem :
    (p s rest : Text)
    → has_no b'=' p ≡ false
    → has_no 32 p ≡ true
    → has_no b'=' s ≡ true
    → (in_front p (s ++ 32 ∷ (p ++ rest)) ≡ some (s ++ 32 ∷ []))
      × (after p (s ++ 32 ∷ (p ++ rest)) ≡ some rest)
unfolding in_front after
in_front_lem [] s rest e b h = absurd (ground arith)
in_front_lem (q ∷ p) [] rest e b h =
    ground (
      arith,
      e,
      b,
      strip_prefix-blank (q ∷ p) [] (q ∷ (p ++ rest)),
      strip_prefix-append (q ∷ p) rest,
    )
in_front_lem (q ∷ p) (c ∷ s) rest e b h = ground (
  arith,
  e,
  b,
  h,
  strip_prefix-blank (q ∷ p) (c ∷ s) ((q ∷ p) ++ rest),
  in_front_lem (q ∷ p) s rest,
)

but_last-append : (s : Text) (b : ℕ) → but_last (s ++ b ∷ []) ≡ s
but_last-append [] b = refl
but_last-append (c ∷ []) b = refl
but_last-append (c ∷ d ∷ s) b = ap (λ t. c ∷ t) (but_last-append (d ∷ s) b)

-- The first field stands in front of the key.
front_lem :
    (v rest : Text)
    → has_no b'=' v ≡ true
    → let text = codes "value=" ++ (v ++ 32 ∷ (codes "key=" ++ rest)) in
      (in_front (codes "key=") text ≡ some (codes "value=" ++ (v ++ 32 ∷ [])))
      × (after (codes "key=") text ≡ some rest)
unfolding in_front after strip_prefix
front_lem v rest h = ground (arith, in_front_lem (codes "key=") v rest refl refl h)

close_lem :
    (c : ℕ) (k client : Text)
    → has_no b'=' (c ∷ k) ≡ true
    → close_at_client ((c ∷ k) ++ 32 ∷ (codes "client=" ++ client)) ≡ c ∷ k
unfolding close_at_client
close_lem c k client h =
    ground
      (arith, in_front_lem (codes "client=") (c ∷ k) client refl refl h, but_last-append (c ∷ k) 32)

-- The message of the user interface to set a value under a key: with no "=" in
-- either and a key that is not empty, the
-- configuration gets the value, with the blank that stood behind it, under that key; the client
-- behind the key is no part of it.
pub set_config_lem :
    (ini : Ini) (conf : Ini.Dict ini) (c : ℕ) (v k client : Text)
    → has_no b'=' v ≡ true
    → has_no b'=' (c ∷ k) ≡ true
    → dispatch_set_config ini
        (codes "value="
          ++ (v ++ 32 ∷ (codes "key=" ++ ((c ∷ k) ++ 32 ∷ (codes "client=" ++ client)))))
        conf
      ≡ some (ini.set conf (c ∷ k) (v ++ 32 ∷ []))
unfolding dispatch_set_config config_value
set_config_lem ini conf c v k client h l =
    let front = codes "value=" ++ (v ++ 32 ∷ []) in
    let there : contains front (codes "value=") ≡ true =
      contains_prefix (codes "value=") (v ++ 32 ∷ []) in
    let cut : after (codes "value=") front ≡ some (v ++ 32 ∷ []) =
      unfold after strip_prefix in refl in
    rw
      (
        (front_lem v ((c ∷ k) ++ 32 ∷ (codes "client=" ++ client)) h).0,
        (front_lem v ((c ∷ k) ++ 32 ∷ (codes "client=" ++ client)) h).1,
        there,
        cut,
        close_lem c k client l,
      )
      refl
