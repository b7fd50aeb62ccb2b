-- ===== src/TimeControl/Irrigation.antt =====
-- The watering at the times of the configuration, src/haussteuerung.cpp: from `timeControl` over
-- the message in decimal digits to the timer of the valve.
use haussteuerung.Prelude.{
  ℕ, zero, suc, ◌<◌, ◌^◌, ◌≡◌, Bool, true, false, [], ◌∷◌, ◌++◌, some, arith,
}
use haussteuerung.Prelude.Int.{ℤ, pos}
use haussteuerung.Prelude.Text.{Text, codes, print_dec}
use haussteuerung.Config.Cmd
use haussteuerung.Ini.{Ini}
use haussteuerung.Terrasse
use haussteuerung.Terrasse.{Terrasse}
use haussteuerung.Dispatch.{dispatch_water}
use haussteuerung.Dispatch.Water.{valve_text, water_lem}
use haussteuerung.TimeControl.{Sun, Tm, send_text, is_time, irrigation, irrigation_text}

timer_text : ℕ → ℕ → Text
timer_text i n = valve_text i ++ codes "_TIMER:" ++ print_dec n []

irrigation-text :
    (ini : Ini) (conf : Ini.Dict ini) (sun : Sun) (daytime : Tm) (i n : ℕ)
    → i < 2
    → 0 < n
    → ini.get_boolean conf (irrigation_text i (codes "_auto")) false ≡ true
    → is_time ini conf sun daytime (irrigation_text i (codes "_start")) ≡ some true
    → ini.get_int conf (irrigation_text i (codes "_duration")) (pos 0) ≡ pos n
    → irrigation ini conf sun daytime i
      ≡ some (send_text Cmd.water (valve_text i ++ codes "_TIMER:" ++ print_dec n []) ∷ [])
unfolding irrigation
irrigation-text ini conf sun daytime zero n b p auto start dauer =
    ground (arith, auto, start, dauer)
irrigation-text ini conf sun daytime (suc zero) n b p auto start dauer =
    ground (arith, auto, start, dauer)
irrigation-text ini conf sun daytime (suc (suc i)) n b p auto start dauer = absurd (omega arith)

-- At the time for a valve that waters by itself, where a duration is configured, one message is
-- written, and its branch of the main loop starts the timer of that valve with that duration.
pub irrigation_lem :
    (ini : Ini) (conf : Ini.Dict ini) (sun : Sun) (daytime : Tm) (created : Bool) (held : ℤ)
    (i n : ℕ) (t : Terrasse)
    → i < 2
    → 0 < n
    → n < 2 ^ 31
    → ini.get_boolean conf (irrigation_text i (codes "_auto")) false ≡ true
    → is_time ini conf sun daytime (irrigation_text i (codes "_start")) ≡ some true
    → ini.get_int conf (irrigation_text i (codes "_duration")) (pos 0) ≡ pos n
    → (text : Text) × (irrigation ini conf sun daytime i ≡ some (send_text Cmd.water text ∷ []))
      × (dispatch_water ini conf created held text t
          ≡ some (Terrasse.start_ventil_timer created i (pos n) t))
irrigation_lem ini conf sun daytime created held i n t b p m auto start dauer = (
  valve_text i ++ codes "_TIMER:" ++ print_dec n [],
  irrigation-text ini conf sun daytime i n b p auto start dauer,
  (water_lem ini conf created held i n t b m).2,
)
