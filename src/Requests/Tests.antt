-- ===== src/Requests/Tests.antt =====
-- A request of the user interface, of src/haussteuerung.cpp, at a concrete input.
use haussteuerung.Prelude.{◌≡◌, refl, false, none, some}
use haussteuerung.Prelude.Int.{pos}
use haussteuerung.Prelude.Text.{codes}
use haussteuerung.Ini.{Ini}
use haussteuerung.Ini.Sample.{sample}
use haussteuerung.Requests.{dispatch_set_config}
use haussteuerung.Requests.Answers.{set_config_lem}

abbrev file : Ini
file = sample (λ key. false) (λ key. pos 0) (λ key. none)

set_config_lem_example :
    dispatch_set_config file (codes "value=true key=blinds:weather client=7") none
    ≡ some (file.set none (codes "blinds:weather") (codes "true "))
set_config_lem_example =
    set_config_lem file none b'b' (codes "true") (codes "linds:weather") (codes "7") refl refl
