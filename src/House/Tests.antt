-- ===== src/House/Tests.antt =====
-- A message for the orientation light and one that a device came back, in the house of
-- src/haussteuerung.cpp.
use haussteuerung.Prelude.{◌≡◌, refl, true, false, [], ◌∷◌, none, some}
use haussteuerung.Prelude.Int.{ℤ, pos}
use haussteuerung.Prelude.Text.{Text, codes, after, contains, strip_prefix}
use haussteuerung.Config.{timer_an}
use haussteuerung.Config.Cmd
use haussteuerung.Ini.{Ini}
use haussteuerung.Ini.Sample.{sample}
use haussteuerung.E6TcpClient.{Client, Network, Attempt, ret_ok, timeout}
use haussteuerung.Sensor.{Temp}
use haussteuerung.Wetter.{Wetter, Average, data_ks}
use haussteuerung.Log
use haussteuerung.Rooms.{dispatch_rooms, floor_calls}
use haussteuerung.Terrasse
use haussteuerung.Switches.{orient_an}
use haussteuerung.House.{House, Env, Exchange, hwr_device, lamp, with_lamp, call, calls}
use haussteuerung.House.Start.{Found, made, create}
use haussteuerung.House.Messages.{dispatch, take_branch, branch_of}
use haussteuerung.House.Steps.{Reach, here, next, message}

abbrev ini : Ini
ini = sample (λ key. false) (λ key. pos 0) (λ key. none)

abbrev no_number : Text → ℤ
no_number t = pos 0

abbrev offline : Client
offline = record { dummy = true; connected = false; lasterror = 0; has_socket = false; buffer = [] }

abbrev no_files : Log.Files
no_files = record { log = none; archive = λ i. none }

abbrev zero_temp : Temp
zero_temp = record { temperature = pos 0 }

abbrev attempt : Attempt
attempt = record { writable = true; sent_all = true; reads = timeout ∷ [] }

abbrev network : Network
network = record { socket_made = true; accepted = true }

abbrev sending : Exchange
sending = record { first = attempt; network = network; second = attempt }

abbrev no_average : Average
no_average = record {
  sum_feuchte = pos 0;
  sum_temp = pos 0;
  max_wind = pos 0;
  rec_ks = 0;
  cnt_regen = pos 0;
  sum_hell = pos 0;
  rec_as = 0;
}

abbrev calm : Wetter
calm = record {
  last_ks = data_ks (pos 0) (pos 50) (pos 0) (pos 0);
  buf_ks = λ i. data_ks (pos 0) (pos 0) (pos 0) (pos 0);
  cnt_ks_buf = 0;
  last_hell = pos 0;
  buf_hell = λ i. pos 0;
  cnt_as_buf = 0;
  avg = no_average;
  regen = false;
  regenmenge_1h = λ i. pos 0;
  cnt_regen_1h = 0;
  drv_time_stamp = 0;
  drv_timer = false;
  close_on_wetter = false;
}

abbrev found : Found ini
found = record {
  conf = none;
  state = 77;
  word_set = ret_ok;
  direction_set = ret_ok;
  main_client = offline;
  hwr_client = offline;
  terrasse_client = offline;
  temp_hwr = zero_temp;
  temp_wohnen = zero_temp;
  wetter = calm;
  log = no_files;
  wetter_file = no_files;
  regen_file = no_files;
}

abbrev env : Env ini
env = record {
  created = true;
  light = none;
  address_held = λ t. 0;
  hc = 7;
  dauer = pos 0;
  helligkeit = pos 0;
  dimm_cmd = pos 0;
  client = 5;
  logfile = true;
  files = record { conf = none; light = none; log = none };
  shared_memory = [];
  device = hwr_device;
  network = network;
  detect = sending;
  rec868 = sending;
  word_set = ret_ok;
  direction_set = ret_ok;
  sensor_started = ret_ok;
  sensor_answer = ret_ok;
  sensor_text = [];
  outside = pos 0;
  threshold = pos 0;
}

abbrev first : House ini
first = create ini found

abbrev lit_house : House ini
lit_house = with_lamp ini (orient_an (lamp ini first)) first

light_on : dispatch ini no_number env Cmd.floor (codes "value=AN") first ≡ some lit_house
unfolding dispatch branch_of take_branch dispatch_rooms floor_calls calls call after contains
    strip_prefix
light_on = refl

run : Reach ini no_number first lit_house
run = next here (message env Cmd.floor (codes "value=AN") lit_house light_on)

-- A message for a valve and its time.
abbrev watered : House ini
watered = record lit_house {
  terrasse = Terrasse.start_ventil_timer true 0 (pos 10) lit_house.terrasse;
}

by_timer : watered.terrasse.state_ventil 0 ≡ timer_an
unfolding Terrasse.start_ventil_timer Terrasse.launch Terrasse.set_ventil create made
    Terrasse.create Terrasse.update_shm Terrasse.init Terrasse.set_ventil_at Terrasse.is_change
    Terrasse.store Terrasse.switch
by_timer = refl
