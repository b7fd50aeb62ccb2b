-- ===== src/Abluft/Tests.antt =====
-- Runs of the ventilation of src/abluft.cpp over a dictionary that is one Boolean, and the theorems
-- at concrete inputs.
use haussteuerung.Prelude.{◌≡◌, refl, Bool, true, false, [], ◌∷◌, arith}
use haussteuerung.Prelude.Int.{pos}
use haussteuerung.Prelude.Text.{Text, codes, contains, after, strip_prefix}
use haussteuerung.Config.{high}
use haussteuerung.Ini.{Ini}
use haussteuerung.Pcf8574.{Pcf8574}
use haussteuerung.Abluft
use haussteuerung.Abluft.Agreement
use haussteuerung.Abluft.Timing

-- Each entry is the last text that was set, read as a Boolean; a high stage lasts 12 seconds.
abbrev settings_set : Bool → Text → Text → Bool
settings_set d key value = contains value (codes "true")

true_is_true : (d : Bool) (key : Text) (b : Bool) → settings_set d key (codes "true") ≡ true
unfolding contains after strip_prefix
true_is_true d key b = refl

false_is_false : (d : Bool) (key : Text) (b : Bool) → settings_set d key (codes "false") ≡ false
unfolding contains after strip_prefix
false_is_false d key b = refl

abbrev settings : Ini
settings = record {
  Dict = Bool;
  get_boolean = λ d key b. d;
  get_int = λ d key n. pos 12;
  get_string = λ d key t. t;
  set = settings_set;
  get_boolean-set_true = true_is_true;
  get_boolean-set_false = false_is_false;
}

abbrev port : Pcf8574
port = record { adr = 0; data_byte = 255; sent = [] }

abbrev started : Abluft.Abluft settings
started = Abluft.create settings 7 port true

abbrev boosted : Abluft.Abluft settings
boosted = Abluft.set_high settings true started

abbrev boosted_reached : Abluft.Reach settings started boosted
boosted_reached = Abluft.next Abluft.here (Abluft.sets_high true)

reach-IsAgreed_example : Agreement.IsAgreed settings boosted
reach-IsAgreed_example =
    Agreement.reach-IsAgreed settings 7 port true boosted (omega arith) boosted_reached

reach-IsCurrent_example : Timing.IsCurrent settings boosted
reach-IsCurrent_example = Timing.reach-IsCurrent settings 7 port true boosted boosted_reached

boosted_high : (boosted.state ≡ high) × (boosted.timers ≡ pos 12 ∷ [])
unfolding Abluft.set_high Abluft.turn_high Abluft.create Abluft.init Abluft.turn_low Abluft.turn_aus
    Abluft.enter Abluft.update_shm
boosted_high = (refl, refl)
