-- ===== src/House/Start.antt =====
-- The objects as `main` of src/haussteuerung.cpp creates them, behind the connections: first the
-- port expanders, then those that use them.
use haussteuerung.Prelude.{ℕ, []}
use haussteuerung.Config.{aus, i2c_max, i2c_pcf, i2c_pcf_t}
use haussteuerung.Ini.{Ini}
use haussteuerung.E6TcpClient.{Ret, Client}
use haussteuerung.Max7311
use haussteuerung.Pcf8574
use haussteuerung.Jalousie.State
use haussteuerung.Abluft
use haussteuerung.Terrasse
use haussteuerung.Switches.{hwr_init, orient_init, gui_init}
use haussteuerung.Wetter.{Wetter}
use haussteuerung.GuiTcpServer
use haussteuerung.Dimmer
use haussteuerung.Log
use haussteuerung.Sensor.{Temp}
use haussteuerung.House.{House, with_fan, fan, with_lamp, lamp, with_port}

module _ (ini : Ini) where
  -- What `main` finds: the dictionary of the file, the memory that `Abluft` takes for its state,
  -- the answers to `initOut`, and the objects that no theorem speaks of.
  pub record Found : Type 0 where
    pub conf : Ini.Dict ini
    pub state : ℕ
    pub word_set : Ret
    pub direction_set : Ret
    pub main_client : Client
    pub hwr_client : Client
    pub terrasse_client : Client
    pub temp_hwr : Temp
    pub temp_wohnen : Temp
    pub wetter : Wetter
    pub log : Log.Files
    pub wetter_file : Log.Files
    pub regen_file : Log.Files

  -- The constructors, those of the fan and the light without their `init`.
  unfoldable pub made : Found → House ini
  made f =
      let max = (Max7311.init_out f.word_set f.direction_set (Max7311.create i2c_max)).0 in
      let pcf = Pcf8574.init (Pcf8574.create i2c_pcf) in
      let pcf_terrasse = Pcf8574.init (Pcf8574.create i2c_pcf_t) in
      record {
        main_client = f.main_client;
        hwr_client = f.hwr_client;
        terrasse_client = f.terrasse_client;
        jal = State.create max;
        hwr = record { max = max; state = aus; shown = [] };
        abluft = Abluft.create ini f.state pcf f.conf;
        orient = record { pcf = pcf; state = aus; shown = [] };
        terrasse = Terrasse.create pcf_terrasse;
        temp_hwr = f.temp_hwr;
        temp_wohnen = f.temp_wohnen;
        wetter = f.wetter;
        gui = GuiTcpServer.create;
        dimmer = Dimmer.create;
        orders = [];
        log = f.log;
        wetter_file = f.wetter_file;
        regen_file = f.regen_file;
        queued = [];
      }

  unfoldable pub create : Found → House ini
  create f =
      let h1 = with_fan ini (hwr_init (fan ini (made f))) (made f) in
      let h2 = with_lamp ini (orient_init (lamp ini h1)) h1 in
      with_port ini (gui_init h2.abluft.pcf) h2
