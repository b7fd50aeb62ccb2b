-- ===== src/Dimmer/Tests.antt =====
-- A key that is pressed and released, and messages for it, of src/haussteuerung.cpp and
-- src/devices.cpp.
use haussteuerung.Prelude.{ℕ, suc, ◌*◌, ◌≤◌, ◌≡◌, refl, false, true, none, some, length, update}
use haussteuerung.Prelude.Int.{pos, to_int, to_long}
use haussteuerung.Prelude.Text.{
  Text, codes, after, strip_prefix, until, strtol, skip_space, scan, digit_value,
}
use haussteuerung.Ini.{Ini}
use haussteuerung.Ini.Sample.{sample}
use haussteuerung.Config.{fs20_dimm_up}
use haussteuerung.Hauscode.{convert_address}
use haussteuerung.RemoteFs20.{fs20_send, scan_hex, address_of}
use haussteuerung.Dispatch.{read_dauer}
use haussteuerung.Lamps.{strsep}
use haussteuerung.Dimmer.{
  Dimmer, create, launch, dimm_lampe_start, dimm_lampe_stop, dimm_round, cancel, dispatch_dimm,
}
use haussteuerung.Dimmer.Keys.{Keys, begin, press, release, turn, released_lem, twenty_lem}

abbrev lamps : Ini
lamps = sample (λ key. false) (λ key. pos 0) (λ key. some (codes "1112"))

abbrev nothing_held : Text → ℕ
nothing_held t = 0

abbrev pressed : Dimmer
pressed =
    launch (fs20_send 7 (convert_address (scan_hex 0 (codes "1112"))) (pos fs20_dimm_up)) create

pressed_run : Keys lamps none nothing_held 7 true pressed
pressed_run =
    press (codes "essen") fs20_dimm_up pressed begin (unfold dimm_lampe_start address_of in refl)

abbrev sending : Dimmer
sending = dimm_round 0 pressed

abbrev released : Dimmer
released = record sending { threads = update sending.threads 0 (cancel (sending.threads 0)) }

released_run : Keys lamps none nothing_held 7 false released
released_run =
    release released (turn 0 pressed_run) (unfold dimm_lampe_stop dimm_round launch create in refl)

released_lem_example :
    let e = dimm_round 0 (dimm_round 0 released) in
    (e.threads 0 ≡ none) × (length e.sent ≤ suc (length released.sent))
released_lem_example = released_lem lamps none nothing_held 7 released released_run 0

twenty_lem_example : length released.sent ≤ 20 * released.made
twenty_lem_example = twenty_lem lamps none nothing_held 7 false released released_run

-- A key that is released before its thread has sent its first command: that command is still sent.
abbrev hasty : Dimmer
hasty = record pressed { threads = update pressed.threads 0 (cancel (pressed.threads 0)) }

hasty_run : dimm_lampe_stop pressed ≡ some hasty
unfolding dimm_lampe_stop launch create
hasty_run = refl

sent_late : length (dimm_round 0 hasty).sent ≡ 1
unfolding dimm_round cancel launch create
sent_late = refl

-- The message that presses the key.
by_message :
    dispatch_dimm lamps none nothing_held 7 true (pos 0) (codes "value=essen:1") create
    ≡ some pressed
unfolding dispatch_dimm dimm_lampe_start address_of after strip_prefix strsep until read_dauer
    strtol skip_space scan digit_value to_int to_long
by_message = refl
