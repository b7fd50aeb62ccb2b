-- ===== src/House/Messages.antt =====
-- The `switch` on the type of a message in the main loop of src/haussteuerung.cpp. `none` is the
-- use of a null pointer or of one that was never set in a branch.
use haussteuerung.Prelude.{ℕ, ◌++◌, map, Option, some, if◌then◌else◌, ◌==◌, ◌>>=◌}
use haussteuerung.Prelude.Int.{ℤ}
use haussteuerung.Prelude.Text.{Text, codes, after}
use haussteuerung.Config.Cmd
use haussteuerung.Ini.{Ini}
use haussteuerung.Log.{limit_file_size}
use haussteuerung.Dispatch.{dispatch_jal, dispatch_water}
use haussteuerung.Rooms.{dispatch_rooms}
use haussteuerung.Lamps.{dispatch_licht, dispatch_reset_timer, dispatch_szene}
use haussteuerung.Requests.{
  dispatch_wett, dispatch_hell, dispatch_get_hsinfo, dispatch_send_hsinfo, dispatch_set_config,
}
use haussteuerung.ConfigFile.{dispatch_get_config}
use haussteuerung.Dimmer.{dispatch_dimm}
use haussteuerung.House.{Env, House, calls, init_e6_tcp_client}

-- The labels of the `switch`; those of the rooms share their code.
pub data Branch : Type 0 where
  files shutters rooms water lamp reset_timer scene dimming weather brightness hsinfo config
        send_info setting reconnect no_branch :
      Branch

unfoldable pub branch_of : ℕ → Branch
branch_of mtyp =
    if mtyp == Cmd.cmd
    then files
    else if mtyp == Cmd.jal
    then shutters
    else if mtyp == Cmd.floor
    then rooms
    else if mtyp == Cmd.abluft
    then rooms
    else if mtyp == Cmd.hwr
    then rooms
    else if mtyp == Cmd.water
    then water
    else if mtyp == Cmd.steckdose_terrasse
    then rooms
    else if mtyp == Cmd.licht
    then lamp
    else if mtyp == Cmd.licht_reset_timer
    then reset_timer
    else if mtyp == Cmd.szene
    then scene
    else if mtyp == Cmd.dimm
    then dimming
    else if mtyp == Cmd.wett
    then weather
    else if mtyp == Cmd.hell
    then brightness
    else if mtyp == Cmd.get_hsinfo
    then hsinfo
    else if mtyp == Cmd.get_config
    then config
    else if mtyp == Cmd.send_hsinfo
    then send_info
    else if mtyp == Cmd.e6_init
    then reconnect
    else if mtyp == Cmd.set_config
    then setting
    else no_branch

module _ (ini : Ini) (atof : Text → ℤ) where
  -- One branch, for a message of type `mtyp`.
  unfoldable pub take_branch : Branch → Env ini → ℕ → Text → House ini → Option (House ini)
  take_branch files e mtyp mtext h = some (record h {
    log = limit_file_size e.logfile h.log;
    wetter_file = limit_file_size e.logfile h.wetter_file;
    regen_file = limit_file_size e.logfile h.regen_file;
  })
  take_branch shutters e mtyp mtext h = dispatch_jal e.created mtext h.jal >>= λ done.
      some (record h { jal = done.0; queued = h.queued ++ map (λ t. (Cmd.jal, t)) done.1 })
  take_branch rooms e mtyp mtext h = dispatch_rooms mtyp mtext >>= λ list. some (calls ini e list h)
  take_branch water e mtyp mtext h =
      dispatch_water ini h.abluft.conf e.created e.dauer mtext h.terrasse >>= λ t.
      some (record h { terrasse = t })
  take_branch lamp e mtyp mtext h =
      dispatch_licht ini e.light e.address_held e.hc e.helligkeit mtext h.orders >>= λ sent.
      some (record h { orders = sent })
  take_branch reset_timer e mtyp mtext h =
      dispatch_reset_timer ini e.light e.address_held e.hc mtext h.orders >>= λ sent.
      some (record h { orders = sent })
  take_branch scene e mtyp mtext h =
      dispatch_szene ini e.light e.address_held e.hc mtext h.orders >>= λ sent.
      some (record h { orders = sent })
  take_branch dimming e mtyp mtext h =
      dispatch_dimm ini e.light e.address_held e.hc e.created e.dimm_cmd mtext h.dimmer >>= λ d.
      some (record h { dimmer = d })
  take_branch weather e mtyp mtext h =
      dispatch_wett mtext h.wetter >>= λ w. some (record h { wetter = w })
  take_branch brightness e mtyp mtext h =
      dispatch_hell mtext h.wetter >>= λ w. some (record h { wetter = w })
  take_branch hsinfo e mtyp mtext h =
      some (record h { gui = dispatch_get_hsinfo e.client mtext h.gui })
  take_branch config e mtyp mtext h =
      dispatch_get_config e.logfile e.client mtext e.files h.gui >>= λ g.
      some (record h { gui = g })
  take_branch send_info e mtyp mtext h =
      some (record h { gui = dispatch_send_hsinfo e.shared_memory h.gui })
  take_branch setting e mtyp mtext h = dispatch_set_config ini mtext h.abluft.conf >>= λ conf.
      some (record h { abluft = record h.abluft { conf = conf } })
  take_branch reconnect e mtyp mtext h =
      after (codes "value=") mtext >>= λ tmp. some (init_e6_tcp_client ini atof e e.device h)
  take_branch no_branch e mtyp mtext h = some h

  unfoldable pub dispatch : Env ini → ℕ → Text → House ini → Option (House ini)
  dispatch e mtyp mtext h = take_branch (branch_of mtyp) e mtyp mtext h
