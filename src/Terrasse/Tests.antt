-- ===== src/Terrasse/Tests.antt =====
-- Runs of the terrace of src/abluft.cpp, and the theorems at concrete inputs.
use haussteuerung.Prelude.{◌≡◌, refl, true, none, some, arith, []}
use haussteuerung.Prelude.Int.{to_int, ◌*ℤ◌, pos}
use haussteuerung.Config.{aus, timer_an}
use haussteuerung.Pcf8574.{Pcf8574}
use haussteuerung.Terrasse
use haussteuerung.Terrasse.{Terrasse, Timer}
use haussteuerung.Terrasse.Course.{timer_of, run_out, water_course}

abbrev port : Pcf8574
port = record { adr = 0; data_byte = 255; sent = [] }

abbrev dry : Terrasse
dry = Terrasse.create port

-- Valve 1 runs for ten minutes.
abbrev watering : Terrasse
watering = Terrasse.start_ventil_timer true 1 (pos 10) dry

dry-closed : dry.state_ventil 1 ≡ aus
unfolding Terrasse.create Terrasse.init Terrasse.update_shm
dry-closed = refl

watering-open :
    (watering.state_ventil 1 ≡ timer_an)
    × (watering.thr_id 1 ≡ some 0)
    × (watering.threads 0 ≡ some (timer_of 1 10))
unfolding Terrasse.create Terrasse.init Terrasse.update_shm Terrasse.start_ventil_timer
    Terrasse.launch Terrasse.set_ventil Terrasse.set_ventil_at Terrasse.is_change Terrasse.switch
    Terrasse.store to_int ◌*ℤ◌
watering-open = (refl, refl, refl)

water_course_example :
    let done = run_out dry.next_id watering in
    (watering.state_ventil 1 ≡ timer_an)
    × (watering.threads dry.next_id ≡ some (timer_of 1 10))
    × (done.state_ventil 1 ≡ aus)
    × (done.threads dry.next_id ≡ none)
    × (done.state_ventil 0 ≡ dry.state_ventil 0)
water_course_example =
    water_course 1 0 10 dry (omega arith) (λ e. absurd (omega (arith, e))) dry-closed (omega arith)
      (omega arith)
