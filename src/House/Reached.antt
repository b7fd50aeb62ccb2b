-- ===== src/House/Reached.antt =====
-- The house of src/haussteuerung.cpp in every state that it can come to.
use haussteuerung.Prelude.{ℕ}
use haussteuerung.Prelude.Text.{Text}
use haussteuerung.Config.{i2c_max}
use haussteuerung.Ini.{Ini}
use haussteuerung.Pcf8574.{Pcf8574}
use haussteuerung.Pcf8574
use haussteuerung.Max7311.{Max7311}
use haussteuerung.Max7311
use haussteuerung.Jalousie.State
use haussteuerung.Jalousie.Timer
use haussteuerung.Abluft
use haussteuerung.Terrasse
use haussteuerung.House.{House}
use haussteuerung.House.Start.{Found, create}

-- The port expanders behind `main`'s `initOut` and `init`.
abbrev first_max : {ini : Ini} → Found ini → Max7311
first_max f = (Max7311.init_out f.word_set f.direction_set (Max7311.create i2c_max)).0

abbrev first_pcf : ℕ → Pcf8574
first_pcf address = Pcf8574.init (Pcf8574.create address)
