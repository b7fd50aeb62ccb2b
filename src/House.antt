-- ===== src/House.antt =====
-- The objects that `main` of src/haussteuerung.cpp creates, together. A port expander that several
-- of them use is one object: the MAX7311 of the utility room, which `jal` holds and the fan uses
-- as well, and the PCF8574 of the main device, which `abluft` holds and the orientation light and
-- the touch screen use as well. `Env` is what else the code meets at a message: what the system
-- calls and the connections return, the files, and the variables of `main` with their values of
-- earlier messages.
pub mod Start
pub mod Messages
pub mod Steps
pub mod Ventilation
pub mod Safe
pub mod Calls
pub mod Returns
pub mod Branches
pub mod Invariant
pub mod Reached
pub mod Tests
use haussteuerung.Prelude.{ℕ, Bool, true, List, [], ◌∷◌, ◌++◌, map, Option, some, if◌then◌else◌}
use haussteuerung.Prelude.Int.{ℤ, pos}
use haussteuerung.Prelude.Text.{Text}
use haussteuerung.Config.Cmd
use haussteuerung.Config.{aus}
use haussteuerung.Ini.{Ini}
use haussteuerung.E6TcpClient.{Ret, Network, Attempt, Client, connect_to_server, send_ecmd}
use haussteuerung.Max7311.{Max7311}
use haussteuerung.Max7311
use haussteuerung.Pcf8574.{Pcf8574}
use haussteuerung.Pcf8574
use haussteuerung.Jalousie.State.{Jalousie}
use haussteuerung.Jalousie.State
use haussteuerung.Abluft
use haussteuerung.Terrasse.{Terrasse}
use haussteuerung.Terrasse
use haussteuerung.Switches.{
  Hwr, Orient, hwr_an, hwr_aus, hwr_init, orient_an, orient_aus, orient_init, gui_init,
}
use haussteuerung.Wetter.{Wetter}
use haussteuerung.GuiTcpServer.{GuiTcpServer}
use haussteuerung.GuiTcpServer
use haussteuerung.Dimmer.{Dimmer}
use haussteuerung.Dimmer
use haussteuerung.RemoteFs20.{Order}
use haussteuerung.Log
use haussteuerung.ConfigFile
use haussteuerung.Sensor.{Temp}
use haussteuerung.Sensor
use haussteuerung.Rooms.{Call, temp_control_hwr}
use haussteuerung.Rooms

-- A command that is sent over a connection, with a second try.
pub record Exchange : Type 0 where
  pub first : Attempt
  pub network : Network
  pub second : Attempt

unfoldable pub exchange : Exchange → Client → Client
exchange e c = (send_ecmd true e.first e.network e.second c).0

-- `rebootE6`
unfoldable pub reboot_e6 : Exchange → Client → Client
reboot_e6 e c = if c.dummy then c else exchange e c

-- The device whose address a message names, as `inet_addr` compares them.
pub data Device : Type 0 where
  main_device hwr_device terrasse_device no_device : Device

module _ (ini : Ini) where
  pub record Env : Type 0 where
    pub created : Bool
    pub light : Ini.Dict ini
    pub address_held : Text → ℕ
    pub hc : ℕ
    pub dauer : ℤ
    pub helligkeit : ℤ
    pub dimm_cmd : ℤ
    pub client : ℕ
    pub logfile : Bool
    pub files : ConfigFile.Files
    pub shared_memory : Text
    pub device : Device
    pub network : Network
    pub detect : Exchange
    pub rec868 : Exchange
    pub word_set : Ret
    pub direction_set : Ret
    pub sensor_started : Ret
    pub sensor_answer : Ret
    pub sensor_text : Text
    pub outside : ℤ
    pub threshold : ℤ

  -- The file haussteuerung.conf is the dictionary that `abluft` reads and writes. `queued` are the
  -- messages that the main loop writes, the first one first.
  pub record House : Type 0 where
    pub main_client : Client
    pub hwr_client : Client
    pub terrasse_client : Client
    pub jal : Jalousie
    pub hwr : Hwr
    pub abluft : Abluft.Abluft ini
    pub orient : Orient
    pub terrasse : Terrasse
    pub temp_hwr : Temp
    pub temp_wohnen : Temp
    pub wetter : Wetter
    pub gui : GuiTcpServer
    pub dimmer : Dimmer
    pub orders : List Order
    pub log : Log.Files
    pub wetter_file : Log.Files
    pub regen_file : Log.Files
    pub queued : List (ℕ × Text)

  -- A call of the fan, on the MAX7311 as the shutters left it.
  abbrev pub fan : House → Hwr
  fan h = record h.hwr { max = h.jal.max }

  abbrev pub with_fan : Hwr → House → House
  with_fan x h = record h { hwr = x; jal = record h.jal { max = x.max } }

  -- A call of the orientation light, on the PCF8574 as the others left it.
  abbrev pub lamp : House → Orient
  lamp h = record h.orient { pcf = h.abluft.pcf }

  abbrev pub with_lamp : Orient → House → House
  with_lamp x h = record h { orient = x; abluft = record h.abluft { pcf = x.pcf } }

  abbrev pub with_port : Pcf8574 → House → House
  with_port p h = record h { abluft = record h.abluft { pcf = p } }

  unfoldable pub call : Env → Call → House → House
  call e Rooms.orient_an h = with_lamp (orient_an (lamp h)) h
  call e Rooms.orient_aus h = with_lamp (orient_aus (lamp h)) h
  call e Rooms.toggle_low h = record h { abluft = Abluft.toggle_low ini h.abluft }
  call e (Rooms.set_low b) h = record h { abluft = Abluft.set_low ini b h.abluft }
  call e Rooms.set_high h = record h { abluft = Abluft.set_high ini e.created h.abluft }
  call e Rooms.update_low h = record h { abluft = Abluft.update_low ini h.abluft }
  call e Rooms.hwr_on h = with_fan (hwr_an (fan h)) h
  call e Rooms.hwr_off h = with_fan (hwr_aus (fan h)) h
  call e Rooms.temp_control h =
      let temps : Rooms.Temps = record {
        room = h.temp_hwr.temperature;
        outside = e.outside;
        threshold = e.threshold;
      } in
      let texts = temp_control_hwr ini h.abluft.conf temps h.hwr.state in
      record h { queued = h.queued ++ map (λ t. (Cmd.hwr, t)) texts }
  call e (Rooms.set_steckdose state) h = record h {
    terrasse = Terrasse.set_steckdose state h.terrasse;
  }

  unfoldable pub calls : Env → List Call → House → House
  calls e [] h = h
  calls e (c ∷ cs) h = calls e cs (call e c h)

  -- The branches of `init_E6TCPClient`, behind the connection and the commands for it.
  unfoldable pub init_main : (Text → ℤ) → Env → House → House
  init_main atof e h =
      let h1 = with_port (Pcf8574.init h.abluft.pcf) h in
      let h2 = record h1 { abluft = Abluft.init ini h1.abluft } in
      let h3 = with_lamp (orient_init (lamp h2)) h2 in
      let h4 = with_port (gui_init h3.abluft.pcf) h3 in
      record h4 {
        temp_wohnen =
            (Sensor.init atof e.sensor_started e.sensor_answer e.sensor_text h4.temp_wohnen).0;
      }

  unfoldable pub init_hwr : (Text → ℤ) → Env → House → House
  init_hwr atof e h =
      let driven = (Max7311.init_out e.word_set e.direction_set h.jal.max).0 in
      let h1 = record h { jal = State.init (record h.jal { max = driven }) } in
      let h2 = with_fan (hwr_init (fan h1)) h1 in
      record h2 {
        temp_hwr = (Sensor.init atof e.sensor_started e.sensor_answer e.sensor_text h2.temp_hwr).0;
      }

  unfoldable pub init_terrasse : House → House
  init_terrasse h = record h {
    terrasse = Terrasse.init (record h.terrasse { pcf = Pcf8574.init h.terrasse.pcf });
  }

  unfoldable pub init_e6_tcp_client : (Text → ℤ) → Env → Device → House → House
  init_e6_tcp_client atof e main_device h =
      let c = exchange e.detect (connect_to_server e.network h.main_client).0 in
      init_main atof e (record h { main_client = exchange e.rec868 c })
  init_e6_tcp_client atof e hwr_device h =
      let c = exchange e.detect (connect_to_server e.network h.hwr_client).0 in
      init_hwr atof e (record h { hwr_client = c })
  init_e6_tcp_client atof e terrasse_device h =
      let c = exchange e.detect (connect_to_server e.network h.terrasse_client).0 in
      init_terrasse (record h { terrasse_client = c })
  init_e6_tcp_client atof e no_device h = h
