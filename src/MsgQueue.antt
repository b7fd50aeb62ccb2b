-- ===== src/MsgQueue.antt =====
-- Class MsgQueue of src/sharedMem.cpp: messages as texts in a queue of the system. An object has
-- one buffer of bytes for what it sends and receives. `mq_send` takes the text without a closing
-- 0, and `mq_receive` overwrites as many bytes of the buffer as the message has, and no more.
pub mod RoundTrip
pub mod Start
pub mod Tests
use haussteuerung.Prelude.{
  ℕ, suc, ◌+◌, ◌-◌, ◌^◌, ◌&&◌, ◌||◌, ltb, true, false, Bool, List, [], ◌∷◌, ◌++◌, Option, none,
  some, if◌then◌else◌, ◌==◌, length, drop,
}
use haussteuerung.Prelude.Text.{
  Text, codes, contains, after, until, print_dec, scan, skip_space, digit_value, is_sign,
  begins_with_decimal,
}
use haussteuerung.E6UdpServer.{Message}

-- `sprintf` into the buffer, with the closing 0.
unfoldable pub print_into : Text → Text → Text
print_into text buffer = text ++ 0 ∷ drop (length text + 1) buffer

-- `%ld` of a `long`, in front of a text.
unfoldable pub print_long : ℕ → Text → Text
print_long n s = if ltb n (2 ^ 63) then print_dec n s else b'-' ∷ print_dec (2 ^ 64 - n) s

-- The text of a message, whose type is a `long`, a number under 2 ^ 64 in two's complement.
unfoldable pub line_of : Message → Text
line_of m =
    if contains m.mtext (codes "value=")
    then codes "cmd=" ++ print_long m.mtyp (32 ∷ m.mtext)
    else codes "cmd=" ++ print_long m.mtyp (codes " value=" ++ m.mtext)

-- The buffer after `writeToQueue`, and what is sent: its text.
unfoldable pub write_to_queue : Message → Text → Text × Text
write_to_queue m buffer = let written = print_into (line_of m) buffer in (written, until 0 written)

abbrev begins_with_hex : Text → Bool
begins_with_hex [] = false
begins_with_hex (c ∷ s) = ltb (digit_value c) 16

-- The digits that `strtol` takes with base 0, behind blanks and sign: a prefix 0x is one only in
-- front of a digit.
unfoldable pub digits_0 : Text → ℕ × Text
digits_0 [] = (0, [])
digits_0 (c ∷ []) = scan 10 (c ∷ []) 0
digits_0 (c ∷ x ∷ s) =
    if c == b'0'
    then (if (x == b'x' || x == b'X') && begins_with_hex s
        then scan 16 s 0
        else scan 8 (c ∷ x ∷ s) 0)
    else scan 10 (c ∷ x ∷ s) 0

-- The `long` for digits behind a minus or not; one that is out of range becomes the last in range.
unfoldable pub long_of : Bool → ℕ → ℕ
long_of false n = if ltb n (2 ^ 63) then n else 2 ^ 63 - 1
long_of true n = if n == 0 then 0 else if ltb (2 ^ 63) n then 2 ^ 63 else 2 ^ 64 - n

abbrev strtol_0_at : Text → Text → ℕ × Text
strtol_0_at s [] = (0, s)
strtol_0_at s (c ∷ t) =
    if begins_with_decimal (c ∷ t)
    then (long_of false (digits_0 (c ∷ t)).0, (digits_0 (c ∷ t)).1)
    else if is_sign c && begins_with_decimal t
    then (long_of (c == b'-') (digits_0 t).0, (digits_0 t).1)
    else (0, s)

-- `strtol(s, &end, 0)`: the number and `end`.
unfoldable pub strtol_0 : Text → ℕ × Text
strtol_0 s = strtol_0_at s (skip_space s)

unfoldable pub receive_into : Text → Text → Text
receive_into sent buffer = sent ++ drop (length sent) buffer

-- `readFromQueue` behind the `mq_receive` of the bytes `sent`; `none` is its -1, with the type
-- NO_CMD.
unfoldable pub read_from_queue : Text → Text → Option Message
read_from_queue sent buffer =
    let text = until 0 (receive_into sent buffer) in
    elim (after (codes "cmd=") text) [
      | none ↦ none
      | some rest ↦
          if contains text (codes "value=")
          then some (record { mtyp = (strtol_0 rest).0; mtext = (strtol_0 rest).1 })
          else none
    ]
