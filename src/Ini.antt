-- ===== src/Ini.antt =====
-- What the program uses of lib/iniparser-2.16, which is a library of another project: a dictionary
-- read from a file, and its entries "section:key". The two laws are what the library documents of
-- a text set for a key: it is read back as the Boolean that it spells.
pub mod Sample
use haussteuerung.Prelude.{◌≡◌, Bool, true, false, Option}
use haussteuerung.Prelude.Int.{ℤ}
use haussteuerung.Prelude.Text.{Text, codes}

pub record Ini : Type 1 where
  pub Dict : Type 0
  pub get_boolean : Dict → Text → Bool → Bool
  pub get_int : Dict → Text → ℤ → ℤ
  pub get_string : Dict → Text → Option Text → Option Text
  pub set : Dict → Text → Text → Dict
  pub get_boolean-set_true :
      (d : Dict) (key : Text) (b : Bool) → get_boolean (set d key (codes "true")) key b ≡ true
  pub get_boolean-set_false :
      (d : Dict) (key : Text) (b : Bool) → get_boolean (set d key (codes "false")) key b ≡ false
