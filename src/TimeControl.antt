-- ===== src/TimeControl.antt =====
-- The control by the time of day in src/haussteuerung.cpp: `compareTimeString`, `timeControl` and
-- `timeControlLicht`, which the cron thread calls once a minute. `none` is the use of a null
-- pointer for a text that is neither a time nor one relative to the sun. The times of the sun,
-- which `sunTime` computes with floating point numbers, are an argument.
pub mod Compare
pub mod Blinds
pub mod Irrigation
pub mod Tests
use haussteuerung.Prelude.{
  ℕ, ◌+◌, ◌*◌, Bool, true, false, not, ◌&&◌, ◌||◌, List, [], ◌∷◌, ◌++◌, map, Option, none, some,
  if◌then◌else◌, ◌==◌, drop, ◌>>=◌,
}
use haussteuerung.Prelude.Int.{ℤ, pos, negsuc, ◌+ℤ◌, ◌*ℤ◌, ltb_ℤ, same_ℤ}
use haussteuerung.Prelude.Text.{Text, codes, contains, after, print_dec, strtol, atoi}
use haussteuerung.Config.Cmd
use haussteuerung.Ini.{Ini}
use haussteuerung.E6UdpServer.{Message}
use haussteuerung.Dispatch.{all_messages}
use haussteuerung.RemoteFs20
use haussteuerung.RemoteFs20.{Order, tokens}

-- `struct sun`
pub record Sun : Type 0 where
  pub sa_hour : ℤ
  pub sa_min : ℤ
  pub su_hour : ℤ
  pub su_min : ℤ

-- What the code reads of `struct tm`.
pub record Tm : Type 0 where
  pub tm_hour : ℕ
  pub tm_min : ℕ
  pub tm_mday : ℕ

abbrev pub minutes : Tm → ℤ
minutes t = pos (t.tm_hour * 60 + t.tm_min)

-- A text with a colon: hours, one byte, minutes.
unfoldable pub clock_minutes : Text → ℤ
clock_minutes s = let (hour, behind) = strtol s in atoi (drop 1 behind) +ℤ hour *ℤ pos 60

-- A text without: sunrise or sunset and an offset in minutes.
unfoldable pub sun_minutes : Sun → Text → Option ℤ
sun_minutes sun s = elim (after (codes "SA") s) [
  | some offset ↦ some (sun.sa_hour *ℤ pos 60 +ℤ sun.sa_min +ℤ atoi offset)
  | none ↦ elim (after (codes "SU") s) [
    | some offset ↦ some (sun.su_hour *ℤ pos 60 +ℤ sun.su_min +ℤ atoi offset)
    | none ↦ none
  ]
]

unfoldable pub compare_time_string : Option Text → Sun → Tm → Option Bool
compare_time_string none sun daytime = some false
compare_time_string (some s) sun daytime =
    if contains s (codes ":")
    then some (same_ℤ (minutes daytime) (clock_minutes s))
    else (sun_minutes sun s >>= λ m. some (same_ℤ (minutes daytime) m))

-- What a time makes the program do, in the order of the calls. The devices are numbered main,
-- utility room, terrace.
pub data Action : Type 0 where
  send : Message → Action
  reset_gui : Action
  reboot : ℕ → Action

unfoldable pub send_text : ℕ → Text → Action
send_text mtyp mtext = send (record { mtyp = mtyp; mtext = mtext })

unfoldable pub irrigation_text : ℕ → Text → Text
irrigation_text i rest = codes "irrigation:ventil_" ++ (b'1' + i) ∷ rest

-- `%u` of a number that is positive.
abbrev print_dauer : ℤ → Text
print_dauer (pos n) = print_dec n []
print_dauer (negsuc n) = []

module _ (ini : Ini) (conf : Ini.Dict ini) (sun : Sun) (daytime : Tm) where
  open ini use {get_boolean, get_string, get_int}

  unfoldable pub is_time : Text → Option Bool
  is_time key = compare_time_string (get_string conf key none) sun daytime

  unfoldable pub blinds_down : List Action
  blinds_down = map (send_text Cmd.jal) (
      all_messages (get_boolean conf (codes "blinds:jal_2_open") false) (
        if get_boolean conf (codes "blinds:close_to_sun") false
        then codes "value=SUN_"
        else codes "value=ABW_"))

  unfoldable pub blinds_up : List Action
  blinds_up = map (send_text Cmd.jal) (all_messages false (codes "value=AUF_"))

  -- The part for the shutters.
  unfoldable pub blinds : Option (List Action)
  blinds =
      if get_boolean conf (codes "blinds:auto_time") false
      then (is_time (codes "blinds:down_time") >>= λ down.
          is_time (codes "blinds:up_time") >>= λ up.
          some ((if down then blinds_down else []) ++ (if up then blinds_up else [])))
      else some []

  -- The part for the light of the floor.
  unfoldable pub floor_light : Option (List Action)
  floor_light =
      if get_boolean conf (codes "floor_lightning:auto_time") false
      then (is_time (codes "floor_lightning:on_time") >>= λ on.
          is_time (codes "floor_lightning:off_time") >>= λ off. some (
            (if on then send_text Cmd.floor (codes "value=AN") ∷ [] else [])
            ++ (if off then send_text Cmd.floor (codes "value=AUS") ∷ [] else [])))
      else some []

  -- One device that is rebooted at its time, if it is no dummy.
  unfoldable pub reboot_at : Text → Bool → ℕ → Option (List Action)
  reboot_at key is_dummy i =
      is_time key >>= λ now. some (if now && not is_dummy then reboot i ∷ [] else [])

  -- The part for valve i, 0 or 1.
  unfoldable pub irrigation : ℕ → Option (List Action)
  irrigation i =
      let dauer = get_int conf (irrigation_text i (codes "_duration")) (pos 0) in
      let message = codes "value=VENTIL_" ++ (b'1' + i) ∷ codes "_TIMER:" ++ print_dauer dauer in
      if get_boolean conf (irrigation_text i (codes "_auto")) false
      then (is_time (irrigation_text i (codes "_start")) >>= λ now.
          some (if now && ltb_ℤ (pos 0) dauer then send_text Cmd.water message ∷ [] else []))
      else some []

  -- `dummy` says which devices are dummies.
  unfoldable pub time_control : (ℕ → Bool) → Option (List Action)
  time_control dummy = do
    a ← blinds
    b ← floor_light
    wake ← is_time (codes "hsgui:display_wakeup")
    r0 ← reboot_at (codes "network:reboot_time_main") (dummy 0) 0
    r1 ← reboot_at (codes "network:reboot_time_hwr") (dummy 1) 1
    r2 ← reboot_at (codes "network:reboot_time_terrasse") (dummy 2) 2
    v0 ← irrigation 0
    v1 ← irrigation 1
    night ← compare_time_string (some (codes "00:01")) sun daytime
    some (
        a
        ++ (b
            ++ ((if wake then reset_gui ∷ [] else [])
                ++ (r0
                    ++ (r1
                        ++ (r2
                            ++ (v0
                                ++ (v1
                                    ++ (if night
                                        then send_text Cmd.cmd (codes "value=") ∷ []
                                        else [])))))))))

module _ (ini : Ini) (light : Ini.Dict ini) (sun : Sun) (daytime : Tm) where
  open ini use {get_string, get_int}

  -- One round of the inner loop of `timeControlLicht`: a lamp is set at its time.
  unfoldable pub at_time : (Text → ℕ) → ℕ → Text → Text → ℤ → List Order → Option (List Order)
  at_time held hc time lampe helligkeit sent =
      compare_time_string (some time) sun daytime >>= λ now.
      (if now then RemoteFs20.set_lampe_wert ini light held hc lampe helligkeit sent else some sent)

  unfoldable pub timer_on : (Text → ℕ) → ℕ → Text → List Order → Option (List Order)
  timer_on held hc lampe sent =
      let helligkeit = get_int light (codes "timerOnValue:" ++ lampe) (negsuc 0) in
      elim (get_string light (codes "timerOn:" ++ lampe) none) [
        | none ↦ some sent
        | some time ↦
            if same_ℤ helligkeit (negsuc 0)
            then some sent
            else at_time held hc time lampe helligkeit sent
      ]

  unfoldable pub timer_off : (Text → ℕ) → ℕ → Text → List Order → Option (List Order)
  timer_off held hc lampe sent = elim (get_string light (codes "timerOff:" ++ lampe) none) [
    | none ↦ some sent
    | some time ↦ at_time held hc time lampe (pos 0) sent
  ]

  unfoldable pub time_control_licht : (Text → ℕ) → ℕ → List Order → Option (List Order)
  time_control_licht held hc sent = elim (get_string light (codes "system:devices") none) [
    | none ↦ some sent
    | some devices ↦
        RemoteFs20.each_device ini light (λ d s. timer_on held hc d s >>= timer_off held hc d)
          (tokens devices) sent
  ]
