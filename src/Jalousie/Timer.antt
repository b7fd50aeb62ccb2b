-- ===== src/Jalousie/Timer.antt =====
-- The timer thread `jalTimer` and the commands of the other threads, as steps in any order.
use haussteuerung.Prelude.{
  ℕ, ◌<◌, Bool, List, [], ◌∷◌, ◌++◌, Option, none, some, if◌then◌else◌, ◌==◌, leb,
}
use haussteuerung.Config.{fahrzeit}
use haussteuerung.E6TcpClient.{Ret}
use haussteuerung.Max7311
use haussteuerung.Jalousie.State.{
  Phase, sleeping, woken, reported, Thread, Jalousie, pstop, pdrv_aufwaerts, pdrv_abwaerts,
  drv_aufwaerts, drv_abwaerts, toggle_aufwaerts, toggle_abwaerts, drv_sonne, set_position, init,
}

unfoldable pub find : ℕ → List Thread → Option Thread
find i [] = none
find i (t ∷ ts) = if t.id == i then some t else find i ts

unfoldable pub set_phase : ℕ → Phase → List Thread → List Thread
set_phase i p [] = []
set_phase i p (t ∷ ts) =
    if t.id == i then record t { phase = p } ∷ set_phase i p ts else t ∷ set_phase i p ts

unfoldable pub remove : ℕ → List Thread → List Thread
remove i [] = []
remove i (t ∷ ts) = if t.id == i then remove i ts else t ∷ remove i ts

-- `usleep` returns, and cancelling is disabled.
unfoldable pub wake : ℕ → Jalousie → Jalousie
wake i s = record s { threads = set_phase i woken s.threads }

-- `setPosition`, without the mutex, if the thread has slept for the whole way.
unfoldable pub report : Thread → Jalousie → Jalousie
report t s =
    let s' = if leb fahrzeit t.zeit then set_position t.jal_nr t.direction s else s in
    record s' { threads = set_phase t.id reported s.threads }

-- The call of `drvSonne` or `stop`, and the end of the thread.
unfoldable pub finish : Bool → Thread → Jalousie → Jalousie
finish created t s =
    let s' = if t.sonne then (drv_sonne created t.jal_nr s).0 else pstop t.jal_nr s in
    record s' { threads = remove t.id s'.threads }

-- The next step of a thread; nothing for an id without a thread.
unfoldable pub advance : Bool → ℕ → Phase → Thread → Jalousie → Jalousie
advance created i sleeping t s = wake i s
advance created i woken t s = report t s
advance created i reported t s = finish created t s

unfoldable pub tick : Bool → ℕ → Jalousie → Jalousie
tick created i s = elim (find i s.threads) [ none ↦ s | some t ↦ advance created i t.phase t s ]

-- The public methods, with the number of the shutter, and the time of an impulse.
pub data Command : Type 0 where
  auf_by ab_by : ℕ → ℕ → Command
  auf_all ab_all toggle_auf toggle_ab sonne halt : ℕ → Command

unfoldable pub number : Command → ℕ
number (auf_by j _) = j
number (ab_by j _) = j
number (auf_all j) = j
number (ab_all j) = j
number (toggle_auf j) = j
number (toggle_ab j) = j
number (sonne j) = j
number (halt j) = j

unfoldable pub run : Bool → Command → Jalousie → Jalousie
run created (auf_by j time) s = (pdrv_aufwaerts created j time s).0
run created (ab_by j time) s = (pdrv_abwaerts created j time s).0
run created (auf_all j) s = (drv_aufwaerts created j s).0
run created (ab_all j) s = (drv_abwaerts created j s).0
run created (toggle_auf j) s = (toggle_aufwaerts created j s).0
run created (toggle_ab j) s = (toggle_abwaerts created j s).0
run created (sonne j) s = (drv_sonne created j s).0
run created (halt j) s = pstop j s

-- A command to the shutters of a list, one after the other.
abbrev pub drive_each : Bool → (ℕ → Command) → List ℕ → Jalousie → Jalousie
drive_each created call [] s = s
drive_each created call (j ∷ js) s = drive_each created call js (run created (call j) s)

-- The numbers of the four shutters, or of those without the terrace door, number 1.
abbrev pub shutters : Bool → List ℕ
shutters jal_2_open = 0 ∷ (if jal_2_open then [] else 1 ∷ []) ++ 2 ∷ 3 ∷ []

-- What may happen next: a command, a step of a thread, `initOut` and `init` after the device came
-- up again, or the fan of class HWR switching pin 8 of the same MAX7311.
pub data Step (s : Jalousie) : Jalousie → Type 0 where
  command : (created : Bool) (c : Command) → number c < 4 → Step s (run created c s)
  thread : (created : Bool) (i : ℕ) → Step s (tick created i s)
  again :
      (set_result ddr_result : Ret)
      → Step s (init (record s { max = (Max7311.init_out set_result ddr_result s.max).0 }))
  hwr : (state : Bool) → Step s (record s { max = Max7311.set 8 state s.max })

pub data Reach (s : Jalousie) : Jalousie → Type 0 where
  here : Reach s s
  next : {t u : Jalousie} → Reach s t → Step t u → Reach s u
