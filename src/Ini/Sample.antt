-- ===== src/Ini/Sample.antt =====
-- An instance of the interface of lib/iniparser-2.16 for runs at concrete inputs: the entries are
-- functions of their keys, and a text that is set is what every Boolean entry then spells.
use haussteuerung.Prelude.{◌≡◌, refl, Bool, true, false, Option, none, some}
use haussteuerung.Prelude.Int.{ℤ}
use haussteuerung.Prelude.Text.{Text, codes, contains, after, strip_prefix}
use haussteuerung.Ini.{Ini}

abbrev written : Option Bool → Bool → Bool
written none b = b
written (some v) b = v

pub spells_true : contains (codes "true") (codes "true") ≡ true
unfolding contains after strip_prefix
spells_true = refl

pub spells_false : contains (codes "false") (codes "true") ≡ false
unfolding contains after strip_prefix
spells_false = refl

abbrev pub sample : (Text → Bool) → (Text → ℤ) → (Text → Option Text) → Ini
sample flags numbers texts = record {
  Dict = Option Bool;
  get_boolean = λ d key b. written d (flags key);
  get_int = λ d key n. numbers key;
  get_string = λ d key t. texts key;
  set = λ d key value. some (contains value (codes "true"));
  get_boolean-set_true = λ d key b. spells_true;
  get_boolean-set_false = λ d key b. spells_false;
}
