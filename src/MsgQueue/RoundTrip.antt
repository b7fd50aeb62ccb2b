-- ===== src/MsgQueue/RoundTrip.antt =====
-- What is read of a message that was written, src/sharedMem.cpp.
use haussteuerung.Prelude.{
  ℕ, zero, suc, ltb, if◌then◌else◌, ◌-◌, ◌^◌, Bool-cases, inl, inr, ◌+◌, ◌/◌, ◌%◌, ◌≤◌, ◌<◌, ◌≡◌,
  refl, ap, ◌∙◌, Bool, true, false, not, ◌&&◌, [], ◌∷◌, ◌++◌, some, ◌==◌, length, drop, arith,
}
use mathlib.Core.List.{append-nil}
use haussteuerung.Prelude.Text.{
  skip_space, skip_space-begins, begins_with_decimal, print_dec-begins, scan-emit, Text, codes,
  contains, after, until, strip_prefix, print_dec, emit, scan, scan-digit, digit_char, digit_value,
  contains_cons, contains_append,
}
use haussteuerung.E6UdpServer.{Message}
use haussteuerung.MsgQueue.{
  line_of, print_long, digits_0, long_of, strtol_0, receive_into, read_from_queue, print_into,
  write_to_queue,
}

abbrev pub has_no_0 : Text → Bool
has_no_0 [] = true
has_no_0 (c ∷ s) = not (c == 0) && has_no_0 s

until-no_0 : (s u : Text) → has_no_0 s ≡ true → until 0 (s ++ u) ≡ s ++ until 0 u
unfolding until
until-no_0 [] u h = refl
until-no_0 (c ∷ s) u h = ground (arith, until-no_0 s u)

emit-append : (f n : ℕ) (s u : Text) → emit f 10 n s ++ u ≡ emit f 10 n (s ++ u)
unfolding emit
emit-append zero n s u = refl
emit-append (suc f) n s u = ground (arith, emit-append f (n / 10) (digit_char (n % 10) ∷ s) u)

pub emit-no_0 : (f n : ℕ) (s : Text) → has_no_0 s ≡ true → has_no_0 (emit f 10 n s) ≡ true
unfolding emit
emit-no_0 zero n s h = ground arith
emit-no_0 (suc f) n s h = ground (arith, emit-no_0 f (n / 10) (digit_char (n % 10) ∷ s))

begins_with_0 : Text → Bool
begins_with_0 [] = false
begins_with_0 (c ∷ s) = c == b'0'

emit-begins_with_0 : (f n : ℕ) (s : Text) → 0 < n → n ≤ f → begins_with_0 (emit f 10 n s) ≡ false
unfolding emit begins_with_0
emit-begins_with_0 zero n s p h = absurd (omega arith)
emit-begins_with_0 (suc f) n s p h =
    ground (arith, emit-begins_with_0 f (n / 10) (digit_char (n % 10) ∷ s))

scan-space : (base n : ℕ) (s : Text) → base ≤ 16 → scan base (32 ∷ s) n ≡ (n, 32 ∷ s)
unfolding scan digit_value
scan-space base n s h = ground arith

digits_0-decimal : (t : Text) → begins_with_0 t ≡ false → digits_0 t ≡ scan 10 t 0
unfolding digits_0 begins_with_0 scan
digits_0-decimal [] h = refl
digits_0-decimal (c ∷ []) h = ground arith
digits_0-decimal (c ∷ d ∷ s) h = ground (arith, h)

digits_0-octal : (s : Text) → digits_0 (b'0' ∷ 32 ∷ s) ≡ scan 8 (b'0' ∷ 32 ∷ s) 0
unfolding digits_0
digits_0-octal s = refl

digits_0-print_dec : (n : ℕ) (s : Text) → digits_0 (print_dec n (32 ∷ s)) ≡ (n, 32 ∷ s)
unfolding print_dec
digits_0-print_dec zero s =
    digits_0-octal s
    ∙ scan-digit 8 0 0 (32 ∷ s) (omega arith) (omega arith)
    ∙ scan-space 8 0 s (omega arith)
digits_0-print_dec (suc n) s =
    digits_0-decimal (emit (suc n) 10 (suc n) (32 ∷ s))
      (emit-begins_with_0 (suc n) (suc n) (32 ∷ s) (omega arith) (omega arith))
    ∙ scan-emit (suc n) (suc n) (32 ∷ s) (omega arith)
    ∙ scan-space 10 (suc n) s (omega arith)

strtol_0-begins :
    (s : Text)
    → begins_with_decimal s ≡ true
    → (strtol_0 s ≡ (long_of false (digits_0 s).0, (digits_0 s).1))
      × (strtol_0 (b'-' ∷ s) ≡ (long_of true (digits_0 s).0, (digits_0 s).1))
unfolding strtol_0 skip_space digit_value
strtol_0-begins [] h = ground (arith, h)
strtol_0-begins (c ∷ s) h =
    (rw (strtol_0, skip_space-begins (c ∷ s) h, h) refl, rw (strtol_0, h) refl)

long_of_lem :
    (n : ℕ)
    → n < 2 ^ 64
    → (if ltb n (2 ^ 63) then long_of false n else long_of true (2 ^ 64 - n)) ≡ n
unfolding long_of
long_of_lem n h = ground arith

-- A `long` that is printed is read back.
strtol_0-print_long :
    (n : ℕ) (s : Text) → n < 2 ^ 64 → strtol_0 (print_long n (32 ∷ s)) ≡ (n, 32 ∷ s)
unfolding print_long
strtol_0-print_long n s h = elim (Bool-cases (ltb n (2 ^ 63))) [
  | inl y ↦ ground (
    arith,
    y,
    long_of_lem n h,
    strtol_0-begins (print_dec n (32 ∷ s)) (print_dec-begins n (32 ∷ s)),
    digits_0-print_dec n s,
  )
  | inr m ↦ ground (
    arith,
    m,
    long_of_lem n h,
    strtol_0-begins (print_dec (2 ^ 64 - n) (32 ∷ s)) (print_dec-begins (2 ^ 64 - n) (32 ∷ s)),
    digits_0-print_dec (2 ^ 64 - n) s,
  )
]

emit-contains : (f n : ℕ) (s p : Text) → contains s p ≡ true → contains (emit f 10 n s) p ≡ true
unfolding emit
emit-contains zero n s p h = contains_cons (digit_char (n % 10)) s p h
emit-contains (suc f) n s p h = ground (
  arith,
  contains_cons (digit_char n) s p h,
  contains_cons (digit_char (n % 10)) s p h,
  emit-contains f (n / 10) (digit_char (n % 10) ∷ s) p,
)

closing : (u : Text) → until 0 (0 ∷ u) ≡ []
unfolding until
closing u = refl

-- What holds of the digits holds of a `long` as it is printed.
long_text :
    (n : ℕ) (s tail p : Text)
    → has_no_0 s ≡ true
    → contains s p ≡ true
    → (has_no_0 (print_long n s) ≡ true)
      × (print_long n s ++ tail ≡ print_long n (s ++ tail))
      × (contains (print_long n s) p ≡ true)
unfolding print_long print_dec
long_text n s tail p h v = elim (Bool-cases (ltb n (2 ^ 63))) [
  | inl y ↦ rw y (emit-no_0 n n s h, emit-append n n s tail, emit-contains n n s p v)
  | inr m ↦
      let k = 2 ^ 64 - n in
      rw m (
        emit-no_0 k k s h,
        ap (λ t. b'-' ∷ t) (emit-append k k s tail),
        contains_cons b'-' _ p (emit-contains k k s p v),
      )
]

-- The text that is sent, with what follows it in the buffer of the reader.
read_line :
    (n : ℕ) (s tail : Text)
    → contains s (codes "value=") ≡ true
    → has_no_0 s ≡ true
    → let sent = codes "cmd=" ++ print_long n (32 ∷ s) in
      (has_no_0 sent ≡ true)
      × (after (codes "cmd=") (sent ++ tail) ≡ some (print_long n (32 ∷ (s ++ tail))))
      × (contains (sent ++ tail) (codes "value=") ≡ true)
read_line n s tail v h =
    let p = codes "value=" in
    let (z, e, digits) = long_text n (32 ∷ s) tail p h (contains_cons 32 s p v) in
    let sent = print_long n (32 ∷ s) in
    (
      z,
      unfold after strip_prefix in ap some e,
      contains_append (codes "cmd=" ++ sent) tail p (
          contains_cons b'c' _ p
            (contains_cons b'm' _ p (contains_cons b'd' _ p (contains_cons b'=' sent p digits)))),
    )

sent_line :
    (m : Message) (own : Text)
    → contains m.mtext (codes "value=") ≡ true
    → has_no_0 m.mtext ≡ true
    → (write_to_queue m own).1 ≡ codes "cmd=" ++ print_long m.mtyp (32 ∷ m.mtext)
unfolding write_to_queue line_of print_into
sent_line m own v h =
    let line = codes "cmd=" ++ print_long m.mtyp (32 ∷ m.mtext) in
    let (n, _, _) = read_line m.mtyp m.mtext [] v h in
    let rest = drop (length line + 1) own in
    rw (write_to_queue, print_into, line_of, v)
      (until-no_0 line (0 ∷ rest) n ∙ ap (λ u. line ++ u) (closing rest) ∙ append-nil line)

read_sent :
    (n : ℕ) (s buffer : Text)
    → n < 2 ^ 64
    → contains s (codes "value=") ≡ true
    → has_no_0 s ≡ true
    → let sent = codes "cmd=" ++ print_long n (32 ∷ s) in
      let left = until 0 (drop (length sent) buffer) in
      read_from_queue sent buffer ≡ some (record { mtyp = n; mtext = 32 ∷ (s ++ left) })
unfolding read_from_queue receive_into
read_sent n s buffer l v h =
    let sent = codes "cmd=" ++ print_long n (32 ∷ s) in
    let behind = drop (length sent) buffer in
    let (z, a, c) = read_line n s (until 0 behind) v h in
    let text = until-no_0 sent behind z in
    ground (arith, text, a, c, strtol_0-print_long n (s ++ until 0 behind) l)

-- A message whose type is any `long` and whose text has "value=" and no byte 0: what is read of it has its type, and its text
-- behind a blank, followed by what an earlier message left in the reader's buffer at that place.
pub read_from_queue-write_to_queue :
    (m : Message) (own buffer : Text)
    → m.mtyp < 2 ^ 64
    → contains m.mtext (codes "value=") ≡ true
    → has_no_0 m.mtext ≡ true
    → let sent = (write_to_queue m own).1 in
      let left = until 0 (drop (length sent) buffer) in
      read_from_queue sent buffer ≡ some (record { mtyp = m.mtyp; mtext = 32 ∷ (m.mtext ++ left) })
read_from_queue-write_to_queue m own buffer l v h =
    rw (sent_line m own v h) (read_sent m.mtyp m.mtext buffer l v h)
