-- ===== src/Lamps/Tests.antt =====
-- A message for a lamp, of src/haussteuerung.cpp, at a concrete input.
use haussteuerung.Prelude.{◌≡◌, refl, false, arith, [], ◌++◌, none, some}
use haussteuerung.Prelude.Int.{pos}
use haussteuerung.Prelude.Text.{codes, print_dec, begins_with_decimal, digit_value}
use haussteuerung.Ini.{Ini}
use haussteuerung.Ini.Sample.{sample}
use haussteuerung.RemoteFs20
use haussteuerung.Lamps.{dispatch_licht}
use haussteuerung.Lamps.Messages.{licht_lem}

abbrev lamps : Ini
lamps = sample (λ key. false) (λ key. pos 0) (λ key. some (codes "1112"))

client_behind : begins_with_decimal (codes " client=7") ≡ false
unfolding digit_value
client_behind = refl

licht_lem_example :
    dispatch_licht lamps none
      (λ t. 0)
      7
      (pos 3)
      (codes "value=essen:" ++ print_dec 16 (codes " client=7"))
      []
    ≡ RemoteFs20.set_lampe_stufe lamps none (λ t. 0) 7 (codes "essen") (pos 16) []
licht_lem_example =
    licht_lem lamps none (λ t. 0) 7 (pos 3) (codes "essen") 16 (codes " client=7") [] refl
      (omega arith) client_behind
