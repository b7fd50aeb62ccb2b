-- ===== src/Sensor/Tests.antt =====
-- A sensor that does not answer, of src/temp.cpp and src/ds1631_ts.cpp, at a concrete input.
use haussteuerung.Prelude.{◌≡◌, refl, [], none, some}
use haussteuerung.Prelude.Int.{pos}
use haussteuerung.Prelude.Text.{codes, contains, after, strip_prefix}
use haussteuerung.Config.{an}
use haussteuerung.Ini.{Ini}
use haussteuerung.Ini.Sample.{sample}
use haussteuerung.E6TcpClient.{ret_error}
use haussteuerung.Switches.{Hwr, hwr_aus}
use haussteuerung.Rooms.{temp_control_hwr, take_hwr}
use haussteuerung.Sensor.{Temp, update}
use haussteuerung.Sensor.Failure.{lost_lem}

abbrev fan : Hwr
fan = record { max = record { adr = 16; sent = [] }; state = an; shown = codes "An" }

abbrev warm_room : Temp
warm_room = record { temperature = pos 250000 }

abbrev automatic : Ini
automatic = sample (λ key. contains key (codes "auto")) (λ key. pos 0) (λ key. none)

lost_lem_example :
    take_hwr
      (temp_control_hwr automatic none
        (record {
          room = (update (λ s. pos 7) ret_error [] warm_room).temperature;
          outside = pos 50000;
          threshold = pos 220000;
        })
        an)
      fan
    ≡ some (hwr_aus fan)
unfolding contains after strip_prefix
lost_lem_example =
    lost_lem automatic none (λ s. pos 7) ret_error [] warm_room (pos 50000) (pos 220000) fan refl
      refl refl refl refl
