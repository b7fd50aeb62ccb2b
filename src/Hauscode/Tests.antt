-- ===== src/Hauscode/Tests.antt =====
-- The code of house codes in src/devices.cpp at concrete inputs.
use haussteuerung.Prelude.{ℕ, ◌+◌, ◌*◌, ◌≡◌, ◌↔◌, true, false, [], none, some, refl, arith}
use haussteuerung.Hauscode.{Hauscode, convert_address, compare_hauscode, nibble}
use haussteuerung.Hauscode.Digits.{IsElv, elv_of}
use haussteuerung.Hauscode.Create.{create, get_hauscode_parts, scan_4x, scan_width}
use haussteuerung.Hauscode.Written.{written_lem}
use haussteuerung.Ini.{Ini}
use haussteuerung.Ini.Sample.{sample}
use haussteuerung.Prelude.Int.{pos}
use haussteuerung.Prelude.Text.{codes, skip_space, digit_value}

abbrev west : ℕ
west = 0x4213

abbrev east : ℕ
east = 0x1144

abbrev blank : Hauscode
blank = record { tmphc1 = 0; tmphc2 = 0; hc1 = 0; hc2 = 0; hc = 0 }

west-IsElv : IsElv 0x4213
unfolding nibble
west-IsElv = omega arith

east-IsElv : IsElv 0x1144
unfolding nibble
east-IsElv = omega arith

abbrev house_ini : Ini
house_ini = sample (λ key. false) (λ key. pos 0) (λ key. some (codes "12344321"))

-- The configuration writes 12344321, and 42131144 is another house code.
written_lem_example :
    (made : Hauscode) × (create house_ini none blank ≡ some made)
    × (get_hauscode_parts made ≡ (27, 228, 27 * 256 + 228))
    × ((compare_hauscode (convert_address 0x4213) (convert_address 0x1144) made ≡ true)
        ↔ ((elv_of 27 ≡ west) × (elv_of 228 ≡ east)))
written_lem_example =
    written_lem house_ini none 27 228 0x4213 0x1144 [] blank (omega arith) (omega arith) west-IsElv
      east-IsElv refl

-- With a prefix 0x the first field takes two digits.
with_prefix : scan_4x (codes "0x4213") ≡ some (0x42, codes "13")
unfolding scan_4x scan_width skip_space digit_value
with_prefix = refl
