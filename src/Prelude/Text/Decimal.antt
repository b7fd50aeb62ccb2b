-- ===== src/Prelude/Text/Decimal.antt =====
-- The decimal digits that `print_dec` writes, read back by `scan` and by `strtol`.
use Prim.Native.Nat.{ℕ, zero, suc, ◌/◌, ◌%◌, ◌≤◌, ◌<◌}
use mathlib.Core.Path.{◌≡◌, refl}
use mathlib.Core.Bool.{Bool, true, false, ◌&&◌, ◌||◌}
use mathlib.Core.List.{[], ◌∷◌}
use mathlib.Core.Option.{none}
use native.Mathlib.Omega.{arith}
use haussteuerung.Prelude.Tests.{leb, ltb, ◌==◌, if◌then◌else◌}
use haussteuerung.Prelude.Int.{ℤ, pos, negsuc}
use haussteuerung.Prelude.Text.Search.{Text, after, strip_prefix}
use haussteuerung.Prelude.Text.Numbers.{
  digit_char, emit, print_dec, digit_value, scan, skip_space, scan-digit,
}

abbrev pub begins_with_decimal : Text → Bool
begins_with_decimal [] = false
begins_with_decimal (c ∷ s) = ltb (digit_value c) 10

abbrev pub negate : ℕ → ℤ
negate zero = pos 0
negate (suc n) = negsuc n

-- `strtol(s, &end, 10)`: the number and `end`, which is the text itself where there is no number.
abbrev pub is_sign : ℕ → Bool
is_sign c = c == b'+' || (c == b'-')

abbrev strtol_at : Text → Text → ℤ × Text
strtol_at s [] = (pos 0, s)
strtol_at s (c ∷ t) =
    let (n, rest) = scan 10 (c ∷ t) 0 in
    let (m, behind) = scan 10 t 0 in
    if begins_with_decimal (c ∷ t)
    then (pos n, rest)
    else if is_sign c && begins_with_decimal t
    then (if c == b'-' then negate m else pos m, behind)
    else (pos 0, s)

-- Whether a number begins here.
abbrev pub has_number : Text → Bool
has_number [] = false
has_number (c ∷ t) = begins_with_decimal (c ∷ t) || (is_sign c && begins_with_decimal t)

unfoldable pub strtol : Text → ℤ × Text
strtol s = strtol_at s (skip_space s)

-- `atoi`
unfoldable pub atoi : Text → ℤ
atoi s = (strtol s).0

abbrev pub all_digits : Text → Bool
all_digits [] = true
all_digits (c ∷ s) = leb b'0' c && leb c b'9' && all_digits s

-- Digits contain no pattern that begins with a letter.
pub after-digits : (p : ℕ) (ps s : Text) → b'9' < p → all_digits s ≡ true → after (p ∷ ps) s ≡ none
unfolding after strip_prefix
after-digits p ps [] h d = refl
after-digits p ps (c ∷ s) h d = ground (arith, after-digits p ps s)

pub emit-digits : (f n : ℕ) (s : Text) → all_digits s ≡ true → all_digits (emit f 10 n s) ≡ true
unfolding emit
emit-digits zero n s d = ground arith
emit-digits (suc f) n s d = ground (arith, emit-digits f (n / 10) (digit_char (n % 10) ∷ s))

pub scan-emit : (f n : ℕ) (s : Text) → n ≤ f → scan 10 (emit f 10 n s) 0 ≡ scan 10 s n
unfolding emit
scan-emit zero n s h = ground (arith, scan-digit 10 (n % 10) 0 s)
scan-emit (suc f) n s h = ground (
  arith,
  scan-digit 10 n 0 s,
  scan-digit 10 (n % 10) (n / 10) s,
  scan-emit f (n / 10) (digit_char (n % 10) ∷ s),
)

pub emit-begins : (f n : ℕ) (s : Text) → begins_with_decimal (emit f 10 n s) ≡ true
unfolding emit digit_value
emit-begins zero n s = ground arith
emit-begins (suc f) n s = ground (arith, emit-begins f (n / 10) (digit_char (n % 10) ∷ s))

pub print_dec-begins : (n : ℕ) (s : Text) → begins_with_decimal (print_dec n s) ≡ true
unfolding print_dec
print_dec-begins n s = emit-begins n n s

pub skip_space-digits : (s : Text) → all_digits s ≡ true → skip_space s ≡ s
unfolding skip_space
skip_space-digits [] d = refl
skip_space-digits (c ∷ s) d = ground arith

pub skip_space-begins : (u : Text) → begins_with_decimal u ≡ true → skip_space u ≡ u
unfolding skip_space digit_value
skip_space-begins [] h = refl
skip_space-begins (c ∷ u) h = ground arith

strtol_at-digits :
    (s u : Text)
    → begins_with_decimal u ≡ true
    → strtol_at s u ≡ (pos (scan 10 u 0).0, (scan 10 u 0).1)
strtol_at-digits s [] h = ground arith
strtol_at-digits s (c ∷ u) h = ground arith

strtol-begins :
    (u : Text) → begins_with_decimal u ≡ true → strtol u ≡ (pos (scan 10 u 0).0, (scan 10 u 0).1)
unfolding strtol
strtol-begins u h = rw (skip_space-begins u h) (strtol_at-digits u u h)

pub scan-stop : (n : ℕ) (s : Text) → begins_with_decimal s ≡ false → scan 10 s n ≡ (n, s)
unfolding scan
scan-stop n [] h = refl
scan-stop n (c ∷ s) h = ground arith

-- A number that is printed is read again, with what follows it, if that is no digit.
has_number-begins : (s : Text) → begins_with_decimal s ≡ true → has_number s ≡ true
has_number-begins [] h = ground (arith, h)
has_number-begins (c ∷ s) h = ground (arith, h)

pub strtol-print_dec :
    (n : ℕ) (s : Text) → begins_with_decimal s ≡ false → strtol (print_dec n s) ≡ (pos n, s)
unfolding print_dec
strtol-print_dec n s h =
    ground
      (arith, strtol-begins (emit n 10 n s) (emit-begins n n s), scan-emit n n s, scan-stop n s h)

pub has_number-print_dec : (n : ℕ) (s : Text) → has_number (skip_space (print_dec n s)) ≡ true
unfolding print_dec
has_number-print_dec n s =
    ground (
      arith,
      emit-begins n n s,
      skip_space-begins (emit n 10 n s),
      has_number-begins (emit n 10 n s),
    )

-- The same behind a sign.
pub strtol-signed :
    (n : ℕ)
    → (strtol (b'+' ∷ print_dec n []) ≡ (pos n, []))
      × (strtol (b'-' ∷ print_dec n []) ≡ (negate n, []))
unfolding strtol print_dec skip_space scan digit_value
strtol-signed n = ground (arith, emit-begins n n [], scan-emit n n [])

-- Two digits, as `%02d` prints a number under 100.
abbrev pub two_digits : ℕ → Text → Text
two_digits n s = digit_char (n / 10) ∷ digit_char (n % 10) ∷ s

pub strtol-two_digits :
    (n : ℕ) (s : Text)
    → n < 100
    → begins_with_decimal s ≡ false
    → strtol (two_digits n s) ≡ (pos n, s)
strtol-two_digits n s l h = ground (
  arith,
  strtol-begins (two_digits n s) (unfold digit_value in ground arith),
  scan-digit 10 (n / 10) 0 (digit_char (n % 10) ∷ s),
  scan-digit 10 (n % 10) (n / 10) s,
  scan-stop n s h,
)
