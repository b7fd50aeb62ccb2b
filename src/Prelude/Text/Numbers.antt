-- ===== src/Prelude/Text/Numbers.antt =====
-- Decimal and hexadecimal printing as `%d` and `%x` do it, `strtol` on the digits of a base.
use Prim.Native.Nat.{ℕ, zero, suc, ◌+◌, ◌-◌, ◌*◌, ◌/◌, ◌%◌, ◌≤◌, ◌<◌}
use mathlib.Core.Path.{◌≡◌}
use mathlib.Core.Bool.{◌&&◌, ◌||◌}
use mathlib.Core.List.{[], ◌∷◌}
use native.Mathlib.Omega.{arith}
use haussteuerung.Prelude.Tests.{leb, ltb, ◌==◌, if◌then◌else◌}
use haussteuerung.Prelude.Text.Search.{Text}

-- The digit of a value, in lower case.
abbrev pub digit_char : ℕ → ℕ
digit_char d = if ltb d 10 then b'0' + d else b'a' + (d - 10)

-- The digits of a number in front of a text. A round takes one digit, so `n` rounds are enough.
unfoldable pub emit : ℕ → ℕ → ℕ → Text → Text
emit zero base n out = digit_char (n % base) ∷ out
emit (suc f) base n out =
    let more = emit f base (n / base) (digit_char (n % base) ∷ out) in
    if ltb n base then digit_char n ∷ out else more

-- `%d` and `%x` of a number that is not negative, followed by a text.
unfoldable pub print_dec : ℕ → Text → Text
unfolding emit
print_dec n out = emit n 10 n out

unfoldable pub print_hex : ℕ → Text → Text
unfolding emit
print_hex n out = emit n 16 n out

-- The value of a byte as a digit; 36 stands for a byte that is none.
unfoldable pub digit_value : ℕ → ℕ
digit_value c =
    if leb b'0' c && leb c b'9'
    then c - b'0'
    else if leb b'a' c && leb c b'z'
    then c - b'a' + 10
    else if leb b'A' c && leb c b'Z'
    then c - b'A' + 10
    else 36

-- The digits at the head of a text, with the value read so far; the second part is `*endptr`.
unfoldable pub scan : ℕ → Text → ℕ → ℕ × Text
unfolding digit_value
scan base [] acc = (acc, [])
scan base (c ∷ s) acc =
    let more = scan base s (acc * base + digit_value c) in
    if ltb (digit_value c) base then more else (acc, c ∷ s)

unfoldable pub skip_space : Text → Text
skip_space [] = []
skip_space (c ∷ s) = if c == b' ' || (leb 9 c && leb c 13) then skip_space s else c ∷ s

-- `strtol(s, &end, 10)` and `atoi` on a text that begins with a digit or with spaces and a digit;
-- 0 and the text itself where there is no digit.
unfoldable pub strtol_dec : Text → ℕ × Text
unfolding scan skip_space
strtol_dec s = scan 10 (skip_space s) 0

digit_value-digit_char : (d : ℕ) → d < 16 → digit_value (digit_char d) ≡ d
unfolding digit_value
digit_value-digit_char d h = ground arith

pub scan-digit :
    (base d acc : ℕ) (s : Text)
    → base ≤ 16
    → d < base
    → scan base (digit_char d ∷ s) acc ≡ scan base s (acc * base + d)
unfolding scan
scan-digit base d acc s hb h = ground (arith, digit_value-digit_char d)
