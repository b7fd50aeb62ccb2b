-- ===== src/Hauscode/Digits.antt =====
-- The code of addresses and house codes in src/devices.cpp loses nothing: digits from 1 to 4 and
-- numbers of eight bits correspond.
use haussteuerung.Prelude.{
  ℕ, ◌+◌, ◌-◌, ◌*◌, ◌/◌, ◌%◌, ◌^◌, ◌≤◌, ◌<◌, ◌≡◌, refl, ◌∙◌, sym, ap, true, ◌==◌, arith, ==_iff,
  all_below, all_below_sound, ◌↔◌,
}
use haussteuerung.Hauscode.{
  Hauscode, nibble, convert_address, convert_hauscode, set_hauscode, compare_hauscode, add_digit,
  shift,
}

-- Four digits in hexadecimal.
abbrev pub digits : ℕ → ℕ → ℕ → ℕ → ℕ
digits a b c d = a * 4096 + b * 256 + c * 16 + d

-- A text of four digits, each from 1 to 4, read as hexadecimal.
abbrev pub IsElv : ℕ → Type 0
IsElv x =
    (x < 2 ^ 16)
    × (1 ≤ nibble 3 x)
    × (nibble 3 x ≤ 4)
    × (1 ≤ nibble 2 x)
    × (nibble 2 x ≤ 4)
    × (1 ≤ nibble 1 x)
    × (nibble 1 x ≤ 4)
    × (1 ≤ nibble 0 x)
    × (nibble 0 x ≤ 4)

-- The digits that stand for a number of eight bits.
abbrev pub elv_of : ℕ → ℕ
elv_of code = digits (code / 64 + 1) (code / 16 % 4 + 1) (code / 4 % 4 + 1) (code % 4 + 1)

convert_address_lem :
    (x : ℕ)
    → IsElv x
    → convert_address x
      ≡ (nibble 3 x - 1) * 64 + (nibble 2 x - 1) * 16 + (nibble 1 x - 1) * 4 + (nibble 0 x - 1)
unfolding convert_address add_digit shift
convert_address_lem x v = omega arith

nibbles : (x : ℕ) → x < 2 ^ 16 → x ≡ digits (nibble 3 x) (nibble 2 x) (nibble 1 x) (nibble 0 x)
unfolding nibble
nibbles x h = omega arith

-- A text of four digits from 1 to 4 becomes a number of eight bits, and the digits of that number
-- are the text again.
pub address_back : (x : ℕ) → IsElv x → (convert_address x < 256) × (elv_of (convert_address x) ≡ x)
address_back x v =
    let e = convert_address_lem x v in
    let h = v.0 in
    let a = nibble 3 x - 1 in
    let b = nibble 2 x - 1 in
    let c = nibble 1 x - 1 in
    let d = nibble 0 x - 1 in
    let f : convert_address x ≡ a * 64 + b * 16 + c * 4 + d = e in
    let n = nibbles x h in (omega arith, omega arith)

onto_table : all_below 256 (λ code. convert_address (elv_of code) == code) ≡ true
unfolding all_below convert_address add_digit shift nibble
onto_table = refl

-- Every number of eight bits is the code of the four digits that stand for it.
pub address_onto : (code : ℕ) → code < 256 → convert_address (elv_of code) ≡ code
address_onto code h = (==_iff _ code).0 (all_below_sound 256 _ code onto_table h)

-- A house code that is set is the one that is compared: codes that come from another text of
-- digits are not taken for it; and the code sent to the device holds both halves.
pub hauscode_match :
    (a b c d : ℕ) (h : Hauscode)
    → IsElv a
    → IsElv b
    → IsElv c
    → IsElv d
    → let s = set_hauscode a b h in
      ((compare_hauscode (convert_address c) (convert_address d) s ≡ true) ↔ ((a ≡ c) × (b ≡ d)))
      × (s.hc ≡ s.hc1 * 256 + s.hc2)
unfolding set_hauscode convert_hauscode compare_hauscode
hauscode_match a b c d h va vb vc vd =
    let (la, ea) = address_back a va in
    let (lb, eb) = address_back b vb in
    let (lc, ec) = address_back c vc in
    let (ld, ed) = address_back d vd in
    let same_a : convert_address c ≡ convert_address a → a ≡ c =
      λ e. sym ea ∙ ap elv_of (sym e) ∙ ec in
    let same_b : convert_address d ≡ convert_address b → b ≡ d =
      λ e. sym eb ∙ ap elv_of (sym e) ∙ ed in
    let code_a : a ≡ c → convert_address c ≡ convert_address a = λ e. ap convert_address (sym e) in
    let code_b : b ≡ d → convert_address d ≡ convert_address b = λ e. ap convert_address (sym e) in
    ground (arith, same_a, same_b, code_a, code_b)
