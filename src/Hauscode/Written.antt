-- ===== src/Hauscode/Written.antt =====
-- The house code that the configuration writes with digits is the one that the object of class
-- Hauscode of src/devices.cpp has.
use haussteuerung.Prelude.{
  ℕ, ◌+◌, ◌*◌, ◌/◌, ◌%◌, ◌^◌, ◌<◌, ◌↔◌, true, ◌≡◌, refl, [], ◌∷◌, ◌++◌, none, some, arith,
}
use haussteuerung.Prelude.Text.{Text, codes, skip_space, digit_value}
use haussteuerung.Ini.{Ini}
use haussteuerung.Hauscode.{
  Hauscode, convert_address, convert_hauscode, set_hauscode, compare_hauscode, nibble,
}
use haussteuerung.Hauscode.Digits.{IsElv, hauscode_match, elv_of, address_onto}
use haussteuerung.Hauscode.Create.{scan_width, scan_4x, scan_hauscode, create, get_hauscode_parts}

-- The digits from 1 to 4 for a number of eight bits.
abbrev pub elv_text : ℕ → Text
elv_text code =
    (b'1' + code / 64) ∷ (b'1' + code / 16 % 4) ∷ (b'1' + code / 4 % 4) ∷ (b'1' + code % 4) ∷ []

elv_digit : (d : ℕ) → d < 4 → digit_value (b'1' + d) ≡ d + 1
unfolding digit_value
elv_digit d h = ground arith

scan_4x-elv_text :
    (code : ℕ) (rest : Text)
    → code < 256
    → scan_4x (elv_text code ++ rest) ≡ some (elv_of code, rest)
unfolding scan_4x skip_space scan_width
scan_4x-elv_text code rest h = ground (
  arith,
  elv_digit (code / 64) (omega arith),
  elv_digit (code / 16 % 4) (omega arith),
  elv_digit (code / 4 % 4) (omega arith),
  elv_digit (code % 4) (omega arith),
)

scan_hauscode-scan_4x :
    (s t u : Text) (x y : ℕ) (h : Hauscode)
    → scan_4x s ≡ some (x, t)
    → scan_4x t ≡ some (y, u)
    → scan_hauscode s h ≡ record h { tmphc1 = x; tmphc2 = y }
unfolding scan_hauscode
scan_hauscode-scan_4x s t u x y h first second = rw (scan_hauscode, first, second) refl

elv_of-IsElv : (code : ℕ) → code < 256 → IsElv (elv_of code)
unfolding nibble
elv_of-IsElv code h = omega arith

set_hauscode-parts :
    (a b : ℕ) (h : Hauscode)
    → a < 256
    → b < 256
    → get_hauscode_parts (set_hauscode (elv_of a) (elv_of b) h) ≡ (a, b, a * 256 + b)
unfolding set_hauscode convert_hauscode get_hauscode_parts
set_hauscode-parts a b h ha hb =
    let whole : (a * 256 % 2 ^ 32 + b) % 2 ^ 32 ≡ a * 256 + b = omega arith in
    rw
      (
        set_hauscode,
        get_hauscode_parts,
        convert_hauscode,
        address_onto a ha,
        address_onto b hb,
        whole,
      )
      refl

-- Two numbers of eight bits that the configuration writes with four digits from 1 to 4 each are
-- the house code of the new object, whatever its fields were and whatever stands behind the
-- digits: both halves are the numbers, and the whole is 256 times the first and the second. Of the
-- house codes that are written with such digits, the object takes exactly this one for its own.
pub written_lem :
    (ini : Ini) (conf : ini.Dict) (a b c d : ℕ) (rest : Text) (h : Hauscode)
    → a < 256
    → b < 256
    → IsElv c
    → IsElv d
    → ini.get_string conf (codes "system:hauscode") none ≡ some (elv_text a ++ elv_text b ++ rest)
    → (made : Hauscode) × (create ini conf h ≡ some made)
      × (get_hauscode_parts made ≡ (a, b, a * 256 + b))
      × ((compare_hauscode (convert_address c) (convert_address d) made ≡ true)
          ↔ ((elv_of a ≡ c) × (elv_of b ≡ d)))
unfolding create set_hauscode
written_lem ini conf a b c d rest h ha hb vc vd read =
    let two =
      scan_hauscode-scan_4x (elv_text a ++ elv_text b ++ rest) (elv_text b ++ rest) rest (elv_of a)
        (elv_of b) h (scan_4x-elv_text a (elv_text b ++ rest) ha) (scan_4x-elv_text b rest hb) in
    (
      set_hauscode (elv_of a) (elv_of b) h,
      rw (create, read, two) refl,
      set_hauscode-parts a b h ha hb,
      (hauscode_match (elv_of a) (elv_of b) c d h (elv_of-IsElv a ha) (elv_of-IsElv b hb) vc vd).0,
    )
