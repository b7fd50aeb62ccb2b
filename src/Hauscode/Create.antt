-- ===== src/Hauscode/Create.antt =====
-- The constructor of class Hauscode of src/devices.cpp, which reads the house code from the
-- configuration, and `getHauscode`.
use haussteuerung.Prelude.{
  ℕ, zero, suc, ◌+◌, ◌*◌, Bool, false, ◌&&◌, ◌||◌, [], ◌∷◌, Option, none, some, ◌>>=◌,
  if◌then◌else◌, ◌==◌, ltb,
}
use haussteuerung.Prelude.Text.{Text, codes, skip_space, digit_value}
use haussteuerung.Ini.{Ini}
use haussteuerung.Hauscode.{Hauscode, convert_hauscode}

-- The hexadecimal digits at the head of a text, at most `width` of them, and what is behind them.
unfoldable pub scan_width : ℕ → Text → ℕ → ℕ × Text
scan_width zero s acc = (acc, s)
scan_width (suc width) [] acc = (acc, [])
scan_width (suc width) (c ∷ s) acc =
    let more = scan_width width s (acc * 16 + digit_value c) in
    if ltb (digit_value c) 16 then more else (acc, c ∷ s)

abbrev has_digit : Text → Bool
has_digit [] = false
has_digit (c ∷ s) = ltb (digit_value c) 16

-- The places that a prefix 0x leaves of four.
abbrev prefix_0x : Text → ℕ × Text
prefix_0x [] = (4, [])
prefix_0x (a ∷ []) = (4, a ∷ [])
prefix_0x (a ∷ b ∷ s) = if a == b'0' && (b == b'x' || (b == b'X')) then (2, s) else (4, a ∷ b ∷ s)

-- `%4x` of `sscanf` on a text without a sign; `none` where it does not match.
unfoldable pub scan_4x : Text → Option (ℕ × Text)
scan_4x s =
    let (width, digits) = prefix_0x (skip_space s) in
    if has_digit digits then some (scan_width width digits 0) else none

-- `sscanf(strHauscode, "%4x%4x", &tmphc1, &tmphc2)`: what does not match keeps its value.
unfoldable pub scan_hauscode : Text → Hauscode → Hauscode
scan_hauscode s h = elim (scan_4x s) [
  | none ↦ h
  | some (first, rest) ↦ elim (scan_4x rest) [
    | none ↦ record h { tmphc1 = first }
    | some (second, end) ↦ record h { tmphc1 = first; tmphc2 = second }
  ]
]

-- The fields hold any values before, since nothing sets them; `none` is the use of a null pointer
-- where the configuration has no house code.
module _ (ini : Ini) where
  unfoldable pub create : ini.Dict → Hauscode → Option Hauscode
  create conf h = ini.get_string conf (codes "system:hauscode") none >>= λ str_hauscode.
      some (convert_hauscode (scan_hauscode str_hauscode h))

unfoldable pub get_hauscode : Hauscode → ℕ
get_hauscode h = h.hc

-- `*hauscode1`, `*hauscode2` and the result.
unfoldable pub get_hauscode_parts : Hauscode → ℕ × ℕ × ℕ
get_hauscode_parts h = (h.hc1, h.hc2, h.hc)
