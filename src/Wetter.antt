-- ===== src/Wetter.antt =====
-- Class Wetter of src/devices.cpp and include/devices.h: the weather station. It keeps the last
-- readings and those of the last ten minutes, counts the rain, and drives the shutters by the
-- weather. Temperature and wind are in tenths, as the station sends them; amounts of rain are in
-- pulses, which the code multiplies by REGENFAKTOR. `none` is the use of a null pointer, where a
-- packet lacks a field. The buffers, which `init` leaves as they are, begin with zeros here.
pub mod Readings
pub mod Rain
pub mod Control
pub mod Tests
use haussteuerung.Prelude.{
  ℕ, zero, suc, ◌+◌, ◌-◌, ◌*◌, ◌≤◌, Bool, true, false, not, ◌&&◌, ◌||◌, List, [], ◌∷◌, ◌++◌, Option,
  none, some, if◌then◌else◌, ◌==◌, leb, ltb, take, update, ◌>>=◌,
}
use haussteuerung.Prelude.Int.{ℤ, pos, negsuc, ◌+ℤ◌, ◌-ℤ◌, ◌*ℤ◌, ltb_ℤ, same_ℤ}
use haussteuerung.Prelude.Text.{Text, codes, after, atoi}
use haussteuerung.Config.{stop, auf, ab}
use haussteuerung.Ini.{Ini}
use haussteuerung.Jalousie.State.{Jalousie}
use haussteuerung.Jalousie.Timer.{Command, auf_all, ab_all, sonne, run, drive_each, shutters}

-- `struct sdata_KS` and `struct sdata_AS`, as far as they are read.
pub record DataKs : Type 0 where
  pub temp : ℤ
  pub feuchte : ℤ
  pub wind : ℤ
  pub cnt_regen : ℤ

-- The averages are kept as a sum and the number of its readings.
pub record Average : Type 0 where
  pub sum_feuchte : ℤ
  pub sum_temp : ℤ
  pub max_wind : ℤ
  pub rec_ks : ℕ
  pub cnt_regen : ℤ
  pub sum_hell : ℤ
  pub rec_as : ℕ

pub record Wetter : Type 0 where
  pub last_ks : DataKs
  pub buf_ks : ℕ → DataKs
  pub cnt_ks_buf : ℕ
  pub last_hell : ℤ
  pub buf_hell : ℕ → ℤ
  pub cnt_as_buf : ℕ
  pub avg : Average
  pub regen : Bool
  pub regenmenge_1h : ℕ → ℤ
  pub cnt_regen_1h : ℕ
  pub drv_time_stamp : ℕ
  pub drv_timer : Bool
  pub close_on_wetter : Bool

abbrev pub data_ks : ℤ → ℤ → ℤ → ℤ → DataKs
data_ks temp feuchte wind cnt = record {
  temp = temp;
  feuchte = feuchte;
  wind = wind;
  cnt_regen = cnt;
}

abbrev stored_or_default : Option (DataKs × ℤ) → DataKs × ℤ
stored_or_default none = (data_ks (pos 0) (pos 50) (pos 0) (pos 0), pos 0)
stored_or_default (some s) = s

-- `init`, with the entry that the code reads near the end of wetter.dbk, where there is one.
unfoldable pub create : Option (DataKs × ℤ) → ℕ → Wetter
create stored now =
    let (ks, hell) = stored_or_default stored in
    record {
      last_ks = ks;
      buf_ks = λ _. data_ks (pos 0) (pos 0) (pos 0) (pos 0);
      cnt_ks_buf = 0;
      last_hell = hell;
      buf_hell = λ _. pos 0;
      cnt_as_buf = 0;
      avg = record {
        sum_feuchte = pos 0;
        sum_temp = pos 0;
        max_wind = pos 0;
        rec_ks = 0;
        cnt_regen = pos 0;
        sum_hell = pos 0;
        rec_as = 0;
      };
      regen = false;
      regenmenge_1h = λ _. ks.cnt_regen;
      cnt_regen_1h = 0;
      drv_time_stamp = now;
      drv_timer = false;
      close_on_wetter = false;
    }

-- A field of a packet: at most that many bytes behind its name, read as an integer.
unfoldable pub field : Text → ℕ → Text → Option ℤ
field name width packet = after name packet >>= λ rest. some (atoi (take width rest))

unfoldable pub put_ks : DataKs → Bool → Wetter → Wetter
put_ks d rain w = record w {
  last_ks = d;
  regen = rain;
  buf_ks = update w.buf_ks w.cnt_ks_buf d;
  cnt_ks_buf = let cnt = suc w.cnt_ks_buf in if ltb 5 cnt then 5 else cnt;
}

unfoldable pub put_as : ℤ → Wetter → Wetter
put_as hell w = record w {
  last_hell = hell;
  buf_hell = update w.buf_hell w.cnt_as_buf hell;
  cnt_as_buf = let cnt = suc w.cnt_as_buf in if ltb 5 cnt then 5 else cnt;
}

unfoldable pub update_ks : Text → Wetter → Option Wetter
update_ks udp_paket w = do
  temp ← field (codes "TEMP:") 4 udp_paket
  feuchte ← field (codes "HUMID:") 2 udp_paket
  wind ← field (codes "WIND:") 3 udp_paket
  cnt ← field (codes "RAINCOUNT:") 4 udp_paket
  rain ← field (codes "RAIN:") 1 udp_paket
  some (put_ks (data_ks temp feuchte wind cnt) (not (same_ℤ rain (pos 0))) w)

unfoldable pub update_as : Text → Wetter → Option Wetter
update_as udp_paket w = field (codes "TEMP:") 4 udp_paket >>= λ hell. some (put_as hell w)

-- The loops of `average`, over the first readings of a buffer.
unfoldable pub sum_up_to : ℕ → (ℕ → ℤ) → ℤ
sum_up_to zero f = pos 0
sum_up_to (suc n) f = sum_up_to n f +ℤ f n

unfoldable pub max_up_to : ℕ → (ℕ → ℤ) → ℤ
max_up_to zero f = pos 0
max_up_to (suc n) f = let m = max_up_to n f in if ltb_ℤ m (f n) then f n else m

unfoldable pub average : Wetter → Wetter
average w = record w {
  avg = record {
    sum_feuchte = sum_up_to w.cnt_ks_buf (λ i. (w.buf_ks i).feuchte);
    sum_temp = sum_up_to w.cnt_ks_buf (λ i. (w.buf_ks i).temp);
    max_wind = max_up_to w.cnt_ks_buf (λ i. (w.buf_ks i).wind);
    rec_ks = w.cnt_ks_buf;
    cnt_regen = w.last_ks.cnt_regen;
    sum_hell = sum_up_to w.cnt_as_buf w.buf_hell;
    rec_as = w.cnt_as_buf;
  };
  cnt_as_buf = 0;
  cnt_ks_buf = 0;
}

unfoldable pub get_wetter_symbol : Wetter → Text
get_wetter_symbol w =
    if w.regen
    then codes "Regen.png"
    else if ltb_ℤ w.last_hell (negsuc 199)
    then codes "Nacht.png"
    else if ltb_ℤ (pos 680) w.last_hell
    then codes "Sonne.png"
    else codes "Wolke.png"

unfoldable pub refresh_regenmenge : Wetter → Wetter
refresh_regenmenge w =
    let cnt = let n = suc w.cnt_regen_1h in if ltb 23 n then 0 else n in
    record w { cnt_regen_1h = cnt; regenmenge_1h = update w.regenmenge_1h cnt w.last_ks.cnt_regen }

-- `getRegen(R_1h)`
unfoldable pub get_regen_1h : Wetter → ℤ
get_regen_1h w =
    let foo_1 = w.cnt_regen_1h in
    let foo_2 = if ltb 0 w.cnt_regen_1h then w.cnt_regen_1h - 1 else 23 in
    if same_ℤ (w.regenmenge_1h foo_2) (pos 0)
    then pos 0
    else w.regenmenge_1h foo_1 -ℤ w.regenmenge_1h foo_2

-- A line of wetter.dbk: a comment, or the time and the count of the rain.
pub data Line : Type 0 where
  comment : Line
  entry : ℕ → ℤ → Line

-- `save`: what it writes behind the lines of wetter.dbk. The text of `ctime` ends its own line.
unfoldable pub save : ℕ → Wetter → List Line → List Line
save now w lines = lines ++ comment ∷ entry now w.last_ks.cnt_regen ∷ []

-- The second loop of `getRegen`: the count of the first entry behind a time.
unfoldable pub first_behind : ℕ → List Line → Option ℤ
first_behind since [] = none
first_behind since (comment ∷ lines) = first_behind since lines
first_behind since (entry stamp cnt ∷ lines) =
    let rest = first_behind since lines in if ltb since stamp then some cnt else rest

-- The first loop, over two lines at most: whether the file begins behind the time, and the lines
-- that are still to be read.
unfoldable pub begins_behind : ℕ → List Line → Bool × List Line
begins_behind since [] = (false, [])
begins_behind since (entry stamp cnt ∷ lines) = (ltb since stamp, lines)
begins_behind since (comment ∷ []) = (false, [])
begins_behind since (comment ∷ comment ∷ lines) = (false, lines)
begins_behind since (comment ∷ entry stamp cnt ∷ lines) = (ltb since stamp, lines)

unfoldable pub regen_since_count : ℤ → Option ℤ → ℤ
regen_since_count last none = pos 0
regen_since_count last (some cnt) = if ltb_ℤ last cnt then last +ℤ pos 4096 -ℤ cnt else last -ℤ cnt

-- `getRegen` of an interval that began at `since`. The files are wetter.dbk and the one that the
-- rotation left, `none` where they cannot be opened.
unfoldable pub get_regen : Option (List Line) → Option (List Line) → ℕ → Wetter → ℤ
get_regen none older since w = pos 0
get_regen (some current) older since w =
    let (behind, rest) = begins_behind since current in
    if behind
    then elim older [
      | none ↦ pos 0
      | some lines ↦ regen_since_count w.last_ks.cnt_regen (first_behind since lines)
    ]
    else regen_since_count w.last_ks.cnt_regen (first_behind since rest)

unfoldable pub at_position : ℕ → Bool → Jalousie → Bool
at_position p with_1 jal =
    (jal.position 0 == p)
    && ((not with_1 || (jal.position 1 == p)) && ((jal.position 2 == p) && (jal.position 3 == p)))

unfoldable pub standing : Jalousie → Bool
standing jal =
    (jal.drvstate 0 == stop)
    && ((jal.drvstate 1 == stop) && ((jal.drvstate 2 == stop) && (jal.drvstate 3 == stop)))

module _ (ini : Ini) (conf : Ini.Dict ini) where
  open ini use {get_boolean, get_int}

  -- The thresholds for wind and temperature are whole numbers.
  abbrev threshold : Text → ℤ
  threshold key = get_int conf key (pos 0) *ℤ pos 10

  -- Whether the time of the hysteresis is over.
  unfoldable pub hyst_over : ℕ → Wetter → Bool
  hyst_over now w = not (
      ltb_ℤ (pos now -ℤ pos w.drv_time_stamp)
        (get_int conf (codes "blinds:hytersis_time") (pos 0) *ℤ pos 60))

  -- The three reasons to open, of which the last one needs the mark that the weather has closed.
  unfoldable pub must_open : ℕ → Bool → Wetter → Bool
  must_open now marked w =
      (get_boolean conf (codes "blinds:wind_protection") false
        && ltb_ℤ (threshold (codes "blinds:wind_speed_thrs")) w.last_ks.wind)
      || ((get_boolean conf (codes "blinds:open_on_rain") false && w.regen)
          || (get_boolean conf (codes "blinds:weather") false
              && ((ltb_ℤ w.last_hell (get_int conf (codes "blinds:brightness_thrs_open") (pos 0))
                    || w.regen)
                  && ((not w.drv_timer || hyst_over now w) && marked))))

  unfoldable pub may_close : ℕ → Wetter → Bool
  may_close now w =
      get_boolean conf (codes "blinds:weather") false
      && ((not w.drv_timer || hyst_over now w)
          && (ltb_ℤ (get_int conf (codes "blinds:brightness_thrs_close") (pos 0)) w.last_hell
              && (ltb_ℤ (threshold (codes "blinds:outside_temp_thrs")) w.last_ks.temp
                  && (ltb_ℤ w.last_ks.wind (threshold (codes "blinds:wind_speed_thrs"))
                      && not w.regen))))

  -- What closing means; the terrace door is left out, where it is to stay open.
  unfoldable pub close_command : ℕ → Command
  close_command = if get_boolean conf (codes "blinds:close_to_sun") false then sonne else ab_all

  abbrev driven : ℕ → Bool → Wetter → Wetter
  driven now closing w = record w {
    drv_time_stamp = now;
    drv_timer = true;
    close_on_wetter = closing;
  }

  unfoldable pub wetter_steuerung : Bool → ℕ → Wetter → Jalousie → Wetter × Jalousie
  wetter_steuerung created now w jal =
      let jal_2_open = get_boolean conf (codes "blinds:jal_2_open") false in
      let marked = w.close_on_wetter && at_position ab (not jal_2_open) jal in
      let w' = record w { close_on_wetter = marked } in
      if not (standing jal)
      then (w, jal)
      else if not (at_position auf true jal)
      then (if must_open now marked w'
          then (driven now false w', drive_each created auf_all (shutters false) jal)
          else (w', jal))
      else if may_close now w'
      then (driven now true w', drive_each created close_command (shutters jal_2_open) jal)
      else (w', jal)
