-- ===== src/House/Steps.antt =====
-- What may happen in the house next, src/haussteuerung.cpp: the main loop takes a message, which
-- may be any, a thread of an object goes on, or the thread of the clock does something. The branch
-- of a message is one step, and so is the end of a timer thread. The control by the weather is one
-- step, and besides each of its commands is one, with anything else in between.
use haussteuerung.Prelude.{ℕ, ◌<◌, ◌≡◌, Bool, List, ◌∷◌, ◌++◌, some}
use haussteuerung.Prelude.Int.{ℤ}
use haussteuerung.Prelude.Text.{Text}
use haussteuerung.Ini.{Ini}
use haussteuerung.Jalousie.Timer
use haussteuerung.Abluft
use haussteuerung.Terrasse
use haussteuerung.Dimmer
use haussteuerung.Switches.{reset_device}
use haussteuerung.Wetter.{wetter_steuerung, average, refresh_regenmenge}
use haussteuerung.Jalousie.Timer.{Command, number, run}
use haussteuerung.House.{
  Env, House, Exchange, Device, main_device, hwr_device, terrasse_device, no_device, reboot_e6,
  with_port,
}
use haussteuerung.House.Messages.{dispatch}

module _ (ini : Ini) (atof : Text → ℤ) where
  -- The clock reboots a device at a time of the configuration.
  unfoldable pub rebooted : Exchange → Device → House ini → House ini
  rebooted e main_device h = record h { main_client = reboot_e6 e h.main_client }
  rebooted e hwr_device h = record h { hwr_client = reboot_e6 e h.hwr_client }
  rebooted e terrasse_device h = record h { terrasse_client = reboot_e6 e h.terrasse_client }
  rebooted e no_device h = h

  pub data Step (h : House ini) : House ini → Type 0 where
    message :
        (e : Env ini) (mtyp : ℕ) (mtext : Text) (k : House ini)
        → dispatch ini atof e mtyp mtext h ≡ some k
        → Step h k
    jal_timer : (created : Bool) (i : ℕ) → Step h (record h { jal = Timer.tick created i h.jal })
    abluft_timer :
        (before : List ℤ) (zeit : ℤ) (behind : List ℤ)
        → h.abluft.timers ≡ before ++ zeit ∷ behind
        → Step h (record h { abluft = Abluft.timer_end ini (before ++ behind) h.abluft })
    ventil_wakes : (k : ℕ) → Step h (record h { terrasse = Terrasse.wake k h.terrasse })
    ventil_closes : (k : ℕ) → Step h (record h { terrasse = Terrasse.close k h.terrasse })
    dimm_timer : (i : ℕ) → Step h (record h { dimmer = Dimmer.dimm_round i h.dimmer })
    weather_control :
        (created : Bool) (now : ℕ)
        → Step h (record h {
          wetter = (wetter_steuerung ini h.abluft.conf created now h.wetter h.jal).0;
          jal = (wetter_steuerung ini h.abluft.conf created now h.wetter h.jal).1;
        })
    weather_drives :
        (created : Bool) (c : Command)
        → number c < 4
        → Step h (record h { jal = run created c h.jal })
    averages : Step h (record h { wetter = average h.wetter })
    refreshes : Step h (record h { wetter = refresh_regenmenge h.wetter })
    resets_touch_screen : Step h (with_port ini (reset_device h.abluft.pcf) h)
    reboots : (e : Exchange) (device : Device) → Step h (rebooted e device h)
    cron_sends : (sent : List (ℕ × Text)) → Step h (record h { queued = h.queued ++ sent })

  pub data Reach (h : House ini) : House ini → Type 0 where
    here : Reach h h
    next : {k l : House ini} → Reach h k → Step k l → Reach h l
