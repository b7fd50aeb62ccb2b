-- ===== src/Rooms/Tests.antt =====
-- The control of the fan of src/haussteuerung.cpp at concrete inputs.
use haussteuerung.Prelude.{◌≡◌, refl, false, [], none, some, arith}
use haussteuerung.Prelude.Int.{pos}
use haussteuerung.Config.{an}
use haussteuerung.Prelude.Text.{codes, contains, after, strip_prefix}
use haussteuerung.Ini.{Ini}
use haussteuerung.Ini.Sample.{sample}
use haussteuerung.Switches.{Hwr}
use haussteuerung.Rooms.{Temps, temp_control_hwr, take_hwr}
use haussteuerung.Rooms.Regulation.{wanted, settle_lem}

abbrev fan : Hwr
fan = record { max = record { adr = 16; sent = [] }; state = an; shown = codes "An" }

abbrev winter : Temps
winter = record { room = pos 180000; outside = pos 20000; threshold = pos 220000 }

-- Only `hwr:auto` is set.
abbrev automatic : Ini
automatic = sample (λ key. contains key (codes "auto")) (λ key. pos 0) (λ key. none)

only_auto : contains (codes "hwr:permanent") (codes "auto") ≡ false
unfolding contains after strip_prefix
only_auto = refl

settle_lem_example :
    (h' : Hwr) × (take_hwr (temp_control_hwr automatic none winter an) fan ≡ some h')
    × (h'.state ≡ wanted automatic none winter an)
    × (temp_control_hwr automatic none winter h'.state ≡ [])
unfolding contains after strip_prefix
settle_lem_example = settle_lem automatic none winter fan (omega arith) refl
