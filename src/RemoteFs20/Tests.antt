-- ===== src/RemoteFs20/Tests.antt =====
-- The remote control of src/devices.cpp over a dictionary with two lamps, and the theorems at
-- concrete inputs.
use haussteuerung.Prelude.{
  ℕ, ◌≤◌, ◌<◌, ◌≡◌, refl, Bool, true, false, List, [], ◌∷◌, some, if◌then◌else◌, arith,
}
use haussteuerung.Prelude.Int.{pos, negsuc}
use haussteuerung.Prelude.Text.{Text, codes, contains, after, strip_prefix}
use haussteuerung.Ini.{Ini}
use haussteuerung.RemoteFs20
use haussteuerung.RemoteFs20.{Order}
use haussteuerung.RemoteFs20.Levels.{stufe_of, set_lampe_wert_lem}
use haussteuerung.RemoteFs20.Scenes.{listed}

abbrev lamps : List Text
lamps = codes "essen" ∷ codes "bad" ∷ []

abbrev light_set : Bool → Text → Text → Bool
light_set d key value = contains value (codes "true")

true_is_true : (d : Bool) (key : Text) (b : Bool) → light_set d key (codes "true") ≡ true
unfolding contains after strip_prefix
true_is_true d key b = refl

false_is_false : (d : Bool) (key : Text) (b : Bool) → light_set d key (codes "false") ≡ false
unfolding contains after strip_prefix
false_is_false d key b = refl

-- Two lamps with one address; every scene gives 100 percent.
abbrev lights : Ini
lights = record {
  Dict = Bool;
  get_boolean = λ d key b. d;
  get_int = λ d key n. pos 100;
  get_string = λ d key t.
      if contains key (codes "devices") then some (listed lamps) else some (codes "1112");
  set = light_set;
  get_boolean-set_true = true_is_true;
  get_boolean-set_false = false_is_false;
}

abbrev nothing_held : Text → ℕ
nothing_held t = 0

abbrev one_address : Text → ℕ
one_address t = 0x1112

set_lampe_wert_lem_example :
    (30 ≤ 100
      → RemoteFs20.set_lampe_wert lights true nothing_held 7 (codes "essen") (pos 30) []
        ≡ RemoteFs20.set_lampe_stufe lights true nothing_held 7
            (codes "essen")
            (pos (stufe_of 30))
            [])
    × (100 < 30
        → RemoteFs20.set_lampe_wert lights true nothing_held 7 (codes "essen") (pos 30) []
          ≡ some [])
    × (RemoteFs20.set_lampe_wert lights true nothing_held 7 (codes "essen") (negsuc 30) []
        ≡ RemoteFs20.set_lampe_stufe lights true nothing_held 7 (codes "essen") (pos 1) [])
set_lampe_wert_lem_example =
    set_lampe_wert_lem lights true nothing_held 7 (codes "essen") 30 [] (omega arith)
