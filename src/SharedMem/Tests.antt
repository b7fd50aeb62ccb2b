-- ===== src/SharedMem/Tests.antt =====
-- The shared text of src/sharedMem.cpp at a concrete input.
use haussteuerung.Prelude.{ℕ, ◌≡◌, refl, some, [], update, arith}
use haussteuerung.Prelude.Text.{Text, codes}
use haussteuerung.SharedMem.{update_helper}
use haussteuerung.SharedMem.Template.{shm_text}
use haussteuerung.SharedMem.Table.{table_lem}
use haussteuerung.SharedMem.Writers.{
  WeatherTexts, update_weather, set_all, weather_list, weather_lem,
}

abbrev empty : ℕ → Text
empty j = []

table_lem_example :
    update_helper (codes "<HWR>") (codes "An") (shm_text empty)
    ≡ some (shm_text (update empty 18 (codes "An")))
unfolding shm_text
table_lem_example =
    table_lem 18 empty (codes "An") (omega arith) (λ j. refl) (omega arith) (omega arith)

abbrev summer : WeatherTexts
summer = record {
  stamp_wetter = codes "Sun Jun 30 12:00:00 2013\n";
  stamp_hell = codes "Sun Jun 30 12:00:05 2013\n";
  temp = codes "21.5";
  feuchte = codes "50";
  wind = codes "3.0";
  regen_1h = codes "0.0";
  regen_24h = codes "0.2";
  regen_7d = codes "4.9";
  symbol = codes "sonnig.png";
}

weather_lem_example :
    update_weather summer (shm_text empty) ≡ some (shm_text (set_all (weather_list summer) empty))
unfolding shm_text
weather_lem_example = weather_lem summer empty refl (λ j. refl) (omega arith)
