-- ===== src/Dispatch/Water.antt =====
-- What the messages for watering do, src/haussteuerung.cpp, with the time in decimal digits.
use haussteuerung.Prelude.{
  ℕ, zero, suc, ◌+◌, ◌<◌, ◌^◌, false, ◌≡◌, refl, Bool, [], ◌∷◌, ◌++◌, none, some, arith,
}
use haussteuerung.Prelude.Int.{ℤ, pos, to_int-to_long}
use haussteuerung.Prelude.Text.{
  Text, codes, contains, after, strip_prefix, print_dec, begins_with_decimal, strtol-print_dec,
  has_number-print_dec, emit, after-digits, emit-digits,
}
use haussteuerung.Config.{an, aus}
use haussteuerung.Ini.{Ini}
use haussteuerung.Terrasse
use haussteuerung.Terrasse.{Terrasse}
use haussteuerung.Dispatch.{valve_of, read_dauer, dispatch_water}

pub read_number :
    (held : ℤ) (n : ℕ) (tail : Text)
    → n < 2 ^ 31
    → begins_with_decimal tail ≡ false
    → read_dauer held (print_dec n tail) ≡ pos n
unfolding read_dauer
read_number held n tail h t =
    rw (read_dauer, has_number-print_dec n tail, strtol-print_dec n tail t) (to_int-to_long n h)

read_dauer-print_dec : (held : ℤ) (n : ℕ) → n < 2 ^ 31 → read_dauer held (print_dec n []) ≡ pos n
read_dauer-print_dec held n h = read_number held n [] h refl

digits_only : (p n : ℕ) (ps : Text) → b'9' < p → after (p ∷ ps) (print_dec n []) ≡ none
unfolding print_dec
digits_only p n ps h = after-digits p ps (emit n 10 n []) h (emit-digits n n [] refl)

-- The messages of the web interface for a valve.
abbrev pub valve_text : ℕ → Text
valve_text i = codes "value=VENTIL_" ++ (b'1' + i) ∷ []

-- A message to start or stop a valve sets that valve, one with a time that an `int` holds starts
-- its timer for that many minutes, and one without a time starts it as the configuration says.
pub water_lem :
    (ini : Ini) (conf : Ini.Dict ini) (created : Bool) (held : ℤ) (i n : ℕ) (t : Terrasse)
    → i < 2
    → n < 2 ^ 31
    → (dispatch_water ini conf created held (valve_text i ++ codes "_START") t
        ≡ some (Terrasse.set_ventil i an t))
      × (dispatch_water ini conf created held (valve_text i ++ codes "_STOP") t
          ≡ some (Terrasse.set_ventil i aus t))
      × (dispatch_water ini conf created held (valve_text i ++ codes "_TIMER:" ++ print_dec n []) t
          ≡ some (Terrasse.start_ventil_timer created i (pos n) t))
      × (dispatch_water ini conf created held (valve_text i ++ codes "_TIMER") t
          ≡ some (Terrasse.start_ventil_timer_conf ini conf created i t))
unfolding dispatch_water valve_of contains after strip_prefix
water_lem ini conf created held zero n t h m = (
  refl,
  refl,
  ground (
    arith,
    digits_only b'S' n (codes "TART") (omega arith),
    digits_only b'S' n (codes "TOP") (omega arith),
    read_dauer-print_dec held n m,
  ),
  refl,
)
water_lem ini conf created held (suc zero) n t h m = (
  refl,
  refl,
  ground (
    arith,
    digits_only b'S' n (codes "TART") (omega arith),
    digits_only b'S' n (codes "TOP") (omega arith),
    digits_only b'V' n (codes "ENTIL_1") (omega arith),
    read_dauer-print_dec held n m,
  ),
  refl,
)
water_lem ini conf created held (suc (suc i)) n t h m = absurd (omega arith)
