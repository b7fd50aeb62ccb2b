-- ===== src/Rooms.antt =====
-- The branches of the dispatch in src/haussteuerung.cpp for the light of the floor, the
-- ventilation, the fan of the utility room and the socket of the terrace, and `tempControlHWR`,
-- which writes messages for the fan. Temperatures are in ten-thousandths of a degree. `none` is
-- the use of a null pointer, where the text lacks "value=".
pub mod Regulation
pub mod Tests
use haussteuerung.Prelude.{
  ℕ, Bool, true, false, not, ◌&&◌, ◌||◌, List, [], ◌∷◌, ◌++◌, Option, none, some, if◌then◌else◌,
  ◌==◌, ◌>>=◌,
}
use haussteuerung.Prelude.Int.{ℤ, pos, ◌+ℤ◌, ◌-ℤ◌, ltb_ℤ}
use haussteuerung.Prelude.Text.{Text, codes, contains, after}
use haussteuerung.Config.{an, aus}
use haussteuerung.Config.Cmd
use haussteuerung.Ini.{Ini}
use haussteuerung.Switches.{Hwr, hwr_an, hwr_aus}

-- The methods that the branches call.
pub data Call : Type 0 where
  orient_an orient_aus : Call
  toggle_low set_high update_low : Call
  set_low : Bool → Call
  hwr_on hwr_off temp_control : Call
  set_steckdose : ℕ → Call

-- The branch CMD_HWR.
unfoldable pub hwr_calls : Text → List Call
hwr_calls tmp =
    (if contains tmp (codes "AN") then hwr_on ∷ [] else [])
    ++ ((if contains tmp (codes "AUS") then hwr_off ∷ [] else [])
        ++ (if contains tmp (codes "UPDATE") then temp_control ∷ [] else []))

-- The branch CMD_ABLUFT, which goes on into the next one.
unfoldable pub abluft_calls : Text → List Call
abluft_calls tmp =
    if contains tmp (codes "TOGGLELW")
    then toggle_low ∷ []
    else if contains tmp (codes "LOW")
    then set_low true ∷ []
    else if contains tmp (codes "HIGH")
    then set_high ∷ []
    else if contains tmp (codes "AUS")
    then set_low false ∷ []
    else if contains tmp (codes "UPDATE")
    then update_low ∷ []
    else hwr_calls tmp

-- The branch CMD_FLOOR, which goes on into the next one.
unfoldable pub floor_calls : Text → List Call
floor_calls tmp =
    if contains tmp (codes "AN")
    then orient_an ∷ []
    else if contains tmp (codes "AUS")
    then orient_aus ∷ []
    else if contains tmp (codes "DIMM_AUF")
    then []
    else if contains tmp (codes "DIMM_AB")
    then []
    else abluft_calls tmp

-- The branch CMD_STECKDOSE_TERRASSE.
unfoldable pub steckdose_calls : Text → List Call
steckdose_calls tmp =
    if contains tmp (codes "AN")
    then set_steckdose an ∷ []
    else if contains tmp (codes "AUS")
    then set_steckdose aus ∷ []
    else []

unfoldable pub dispatch_rooms : ℕ → Text → Option (List Call)
dispatch_rooms mtyp mtext = after (codes "value=") mtext >>= λ tmp. some (
    if mtyp == Cmd.floor
    then floor_calls tmp
    else if mtyp == Cmd.abluft
    then abluft_calls tmp
    else if mtyp == Cmd.hwr
    then hwr_calls tmp
    else if mtyp == Cmd.steckdose_terrasse
    then steckdose_calls tmp
    else [])

-- The temperatures: of the utility room, outside, and the threshold.
pub record Temps : Type 0 where
  pub room : ℤ
  pub outside : ℤ
  pub threshold : ℤ

-- The four tests of `tempControlHWR`.
unfoldable pub control_messages : Bool → Bool → Bool → Bool → ℕ → List Text
control_messages auto permanent cold warm state =
    (if (state == an) && (auto && cold) then codes "value=AUS" ∷ [] else [])
    ++ ((if (state == aus) && (warm && auto) then codes "value=AN" ∷ [] else [])
        ++ ((if (state == aus) && permanent then codes "value=AN" ∷ [] else [])
            ++ (if (state == an) && (not permanent && not auto)
                then codes "value=AUS" ∷ []
                else [])))

module _ (ini : Ini) (conf : Ini.Dict ini) where
  open ini use {get_boolean}

  abbrev pub auto : Bool
  auto = get_boolean conf (codes "hwr:auto") false

  abbrev pub permanent : Bool
  permanent = get_boolean conf (codes "hwr:permanent") false

  abbrev pub cold : Temps → Bool
  cold t = ltb_ℤ t.room (t.threshold -ℤ pos 5000) || ltb_ℤ t.room t.outside

  abbrev pub warm : Temps → Bool
  warm t = ltb_ℤ t.threshold t.room && ltb_ℤ (t.outside +ℤ pos 20000) t.room

  -- The texts of the messages that `tempControlHWR` writes, in their order.
  unfoldable pub temp_control_hwr : Temps → ℕ → List Text
  temp_control_hwr t state = control_messages auto permanent (cold t) (warm t) state

-- The calls that concern the fan.
unfoldable pub call_hwr : Call → Hwr → Hwr
call_hwr hwr_on h = hwr_an h
call_hwr hwr_off h = hwr_aus h
call_hwr _ h = h

unfoldable pub calls_hwr : List Call → Hwr → Hwr
calls_hwr [] h = h
calls_hwr (c ∷ cs) h = calls_hwr cs (call_hwr c h)

-- The main loop takes the messages for the fan.
unfoldable pub take_hwr : List Text → Hwr → Option Hwr
take_hwr [] h = some h
take_hwr (m ∷ ms) h = dispatch_rooms Cmd.hwr m >>= λ calls. take_hwr ms (calls_hwr calls h)
