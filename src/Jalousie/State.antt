-- ===== src/Jalousie/State.antt =====
-- The object and its methods, src/jalousie.cpp.
use haussteuerung.Prelude.{
  ℕ, zero, suc, ◌+◌, ◌*◌, Bool, true, false, List, [], ◌∷◌, Option, none, some, if◌then◌else◌, ◌==◌,
  update,
}
use haussteuerung.Prelude.Int.{ℤ, pos, negsuc}
use haussteuerung.Prelude.Text.{Text, codes}
use haussteuerung.Config.{stop, undef, auf, ab, fahrzeit, sonnenzeit}
use haussteuerung.Max7311.{Max7311}
use haussteuerung.Max7311

-- Where a timer thread is: in `usleep`, where it can be cancelled; behind it with cancelling
-- disabled; behind `setPosition`, before the last call.
pub data Phase : Type 0 where
  sleeping woken reported : Phase

-- A running thread with its `struct thr_jalData`.
pub record Thread : Type 0 where
  pub id : ℕ
  pub jal_nr : ℕ
  pub zeit : ℕ
  pub direction : ℕ
  pub sonne : Bool
  pub phase : Phase

pub record Jalousie : Type 0 where
  pub max : Max7311
  pub position : ℕ → ℕ
  pub drvstate : ℕ → ℕ
  pub offset_count : ℕ
  pub thr_id : ℕ → Option ℕ
  pub threads : List Thread
  pub next_id : ℕ
  -- The elements <posJal_n> and <drvJal_n> of the shared memory.
  pub pos_shown : ℕ → Text
  pub drv_shown : ℕ → Text

-- `getPosition` and `getDrvState` as texts.
unfoldable pub position_text : ℕ → Text
position_text zero = codes "Undefiniert"
position_text (suc zero) = codes "Offen"
position_text (suc (suc zero)) = codes "Geschlossen"
position_text _ = []

unfoldable pub drvstate_text : ℕ → Text
drvstate_text zero = codes "Stop"
drvstate_text (suc zero) = codes "Aufwaerts"
drvstate_text (suc (suc zero)) = codes "Abwaerts"
drvstate_text _ = []

unfoldable pub update_shm : ℕ → Jalousie → Jalousie
update_shm j s = record s {
  pos_shown = update s.pos_shown j (position_text (s.position j));
  drv_shown = update s.drv_shown j (drvstate_text (s.drvstate j));
}

unfoldable pub relays : ℕ → Bool → Bool → Jalousie → Jalousie
relays j down up s = record s { max = Max7311.set (2 * j + 1) up (Max7311.set (2 * j) down s.max) }

-- One round of `init`: the switch on a state of the drive that was read before.
unfoldable pub init_write : ℕ → ℕ → Jalousie → Jalousie
init_write j seen s =
    if seen == auf
    then relays j false true s
    else if seen == ab
    then relays j true false s
    else if seen == stop
    then relays j false false s
    else s

unfoldable pub init_one : ℕ → Jalousie → Jalousie
unfolding init_write
init_one j s = init_write j (s.drvstate j) s

unfoldable pub init : Jalousie → Jalousie
unfolding init_one
init s = init_one 3 (init_one 2 (init_one 1 (init_one 0 s)))

unfoldable pub create : Max7311 → Jalousie
unfolding init update_shm
create m = update_shm 3 (
    update_shm 2 (
      update_shm 1 (
        update_shm 0 (
          init (record {
            max = m;
            position = λ _. undef;
            drvstate = λ _. stop;
            offset_count = 0;
            thr_id = λ _. none;
            threads = [];
            next_id = 0;
            pos_shown = λ _. [];
            drv_shown = λ _. [];
          })))))

abbrev is_sleeping : Phase → Bool
is_sleeping sleeping = true
is_sleeping _ = false

-- `pthread_cancel`: it ends the thread of that id if it sleeps, and is without effect behind
-- `pthread_setcancelstate`, also from the thread itself.
unfoldable pub cancel_id : ℕ → List Thread → List Thread
cancel_id i [] = []
cancel_id i (t ∷ ts) =
    let rest = cancel_id i ts in
    if t.id == i then (if is_sleeping t.phase then rest else t ∷ rest) else t ∷ rest

unfoldable pub cancel : Option ℕ → List Thread → List Thread
cancel none ts = ts
cancel (some i) ts = cancel_id i ts

unfoldable pub pstop : ℕ → Jalousie → Jalousie
pstop j s =
    let stopped =
      update_shm j (relays j false false (record s { drvstate = update s.drvstate j stop })) in
    if s.drvstate j == stop then s else record stopped { threads = cancel (s.thr_id j) s.threads }

-- `drv`: only the relay of the direction is switched on.
unfoldable pub drv : Bool → ℕ → ℕ → ℕ → Bool → Jalousie → Jalousie × ℤ
drv created j direction fahr_zeit sonne s =
    let left = record s { position = update s.position j undef } in
    let thread : Thread = record {
      id = s.next_id;
      jal_nr = j;
      zeit = fahr_zeit;
      direction = direction;
      sonne = sonne;
      phase = sleeping;
    } in
    let started = record left {
      thr_id = update s.thr_id j (some s.next_id);
      threads = thread ∷ s.threads;
      next_id = s.next_id + 1;
      drvstate = update s.drvstate j direction;
      max =
          if direction == auf
          then Max7311.set (2 * j + 1) true s.max
          else Max7311.set (2 * j) true s.max;
    } in
    if created then (update_shm j started, pos 0) else (left, negsuc 0)

unfoldable pub offset : Jalousie → Jalousie × ℕ
offset s =
    let n = if s.offset_count + 1 == 4 then 0 else s.offset_count + 1 in
    (record s { offset_count = n }, n * 800000)

unfoldable pub pdrv_aufwaerts : Bool → ℕ → ℕ → Jalousie → Jalousie × ℤ
pdrv_aufwaerts created j imptime s =
    let s' = if s.drvstate j == ab then pstop j s else s in
    if s.drvstate j == auf
    then (s, pos 0)
    else if s'.position j == auf
    then (s', pos 0)
    else drv created j auf imptime false s'

unfoldable pub pdrv_abwaerts : Bool → ℕ → ℕ → Jalousie → Jalousie × ℤ
pdrv_abwaerts created j imptime s =
    let s' = if s.drvstate j == auf then pstop j s else s in
    if s.drvstate j == ab
    then (s, pos 0)
    else if s'.position j == ab
    then (s', pos 0)
    else drv created j ab imptime false s'

unfoldable pub drv_aufwaerts : Bool → ℕ → Jalousie → Jalousie × ℤ
drv_aufwaerts created j s =
    let (s', more) = offset s in pdrv_aufwaerts created j (fahrzeit + more) s'

unfoldable pub drv_abwaerts : Bool → ℕ → Jalousie → Jalousie × ℤ
drv_abwaerts created j s = let (s', more) = offset s in pdrv_abwaerts created j (fahrzeit + more) s'

unfoldable pub toggle_aufwaerts : Bool → ℕ → Jalousie → Jalousie × ℤ
toggle_aufwaerts created j s =
    if s.drvstate j == stop then drv_aufwaerts created j s else (pstop j s, pos 0)

unfoldable pub toggle_abwaerts : Bool → ℕ → Jalousie → Jalousie × ℤ
toggle_abwaerts created j s =
    if s.drvstate j == stop then drv_abwaerts created j s else (pstop j s, pos 0)

-- `drvSonne` behind its stop: close first, then open a little.
unfoldable pub sonne_from : Bool → ℕ → Jalousie → Jalousie × ℤ
sonne_from created j s =
    let (s', more) = offset s in
    if s.position j == ab
    then drv created j auf sonnenzeit false s
    else drv created j ab (fahrzeit + more) true s'

unfoldable pub drv_sonne : Bool → ℕ → Jalousie → Jalousie × ℤ
drv_sonne created j s =
    if s.drvstate j == stop then sonne_from created j s else sonne_from created j (pstop j s)

unfoldable pub set_position : ℕ → ℕ → Jalousie → Jalousie
set_position j p s = record s { position = update s.position j p }
