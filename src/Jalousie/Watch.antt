-- ===== src/Jalousie/Watch.antt =====
-- A shutter that moves is watched: the thread in `thr_id` runs for it and will stop it.
-- src/jalousie.cpp
pub mod Threads
pub mod Reached
use haussteuerung.Prelude.{
  ℕ, ◌+◌, ◌*◌, ◌≤◌, ◌<◌, ◌≡◌, refl, ◌≢◌, Bool, true, false, List, [], ◌∷◌, Option, none, some,
  if◌then◌else◌, ◌==◌, arith, ap, ◌∙◌, ==_iff, sym, ◌⊎◌, Option-cases, Bool-cases, inl, inr, update,
}
use mathlib.Core.Option.{some-injective}
use haussteuerung.Max7311.{Max7311}
use haussteuerung.Config.{stop, auf, ab, sonnenzeit, fahrzeit}
use haussteuerung.Jalousie.Wiring.{pstop-legal, drv-legal, init_one-legal}
use haussteuerung.Jalousie.State.{
  Jalousie, Thread, Phase, sleeping, woken, reported, relays, update_shm, init_write, init_one,
  init, create, pstop, drv, offset, cancel, cancel_id, sonne_from, drv_sonne, set_position,
}
use haussteuerung.Jalousie.Timer.{
  find, set_phase, remove, advance, wake, report, finish, tick, Step, command, thread, again, hwr,
  Reach, here, next,
}
use haussteuerung.Jalousie.Closure.{run-P, drv_sonne-P, pstop-stop}
use Threads.{
  AllBelow, Below, owner, owner_id, owner-cancel, owner-cons, AllBelow-cancel, AllBelow-suc,
}

-- Where shutter j moves, its thread is there, and drives that shutter.
pub record IsWatched (j : ℕ) (s : Jalousie) : Type 0 where
  pub fresh : Below s.next_id (s.thr_id j)
  pub moving : s.drvstate j ≢ stop → owner (s.thr_id j) s.threads ≡ some j

abbrev pub AllWatched : Jalousie → Type 0
AllWatched s =
    ((k : ℕ) → s.drvstate k ≤ ab) × AllBelow s.next_id s.threads × ((j : ℕ) → IsWatched j s)

pstop-IsWatched : (j k : ℕ) (s : Jalousie) → IsWatched j s → IsWatched k s → IsWatched j (pstop k s)
unfolding pstop relays update_shm
pstop-IsWatched j k s w v =
    ground (arith, owner-cancel (s.thr_id j) (s.thr_id k) s.threads j k, w.moving, v.moving)

Below-suc : (n : ℕ) (o : Option ℕ) → Below n o → Below (n + 1) o
Below-suc n none h = tt
Below-suc n (some i) h = omega arith

owner-new :
    (n k : ℕ) (t : Thread) (ts : List Thread)
    → t.id ≡ n
    → t.jal_nr ≡ k
    → owner (some n) (t ∷ ts) ≡ some k
unfolding owner owner_id
owner-new n k t ts p q = ground arith

drv-IsWatched :
    (created : Bool) (j k d time : ℕ) (sun : Bool) (s : Jalousie)
    → IsWatched j s
    → IsWatched j (drv created k d time sun s).0
unfolding drv update_shm
drv-IsWatched created j k d time sun s w =
    let t : Thread = record {
      id = s.next_id;
      jal_nr = k;
      zeit = time;
      direction = d;
      sonne = sun;
      phase = sleeping;
    } in
    ground (
      arith,
      Below-suc s.next_id (s.thr_id j),
      owner-new s.next_id k t s.threads refl refl,
      owner-cons (s.thr_id j) t s.threads,
      w.moving,
    )

drv-AllBelow :
    (created : Bool) (k d time : ℕ) (sun : Bool) (s : Jalousie)
    → AllBelow s.next_id s.threads
    → AllBelow (drv created k d time sun s).0.next_id (drv created k d time sun s).0.threads
unfolding drv update_shm
drv-AllBelow created k d time sun s h = ground (arith, AllBelow-suc s.next_id s.threads)

pstop-AllBelow :
    (k : ℕ) (s : Jalousie)
    → AllBelow s.next_id s.threads
    → AllBelow (pstop k s).next_id (pstop k s).threads
unfolding pstop relays update_shm
pstop-AllBelow k s h = ground (arith, AllBelow-cancel s.next_id (s.thr_id k) s.threads)

pub pstop-AllWatched : (k : ℕ) (s : Jalousie) → AllWatched s → AllWatched (pstop k s)
pstop-AllWatched k s (l, b, w) =
    (λ i. pstop-legal k i s (l i), pstop-AllBelow k s b, λ j. pstop-IsWatched j k s (w j) (w k))

pub offset-AllWatched : (s : Jalousie) → AllWatched s → AllWatched (offset s).0
unfolding offset
offset-AllWatched s (l, b, w) = (l, b, λ j. let v = w j in ground (arith, v.moving))

pub drv-AllWatched :
    (created : Bool) (k d time : ℕ) (sun : Bool) (s : Jalousie)
    → (d ≡ auf) ⊎ (d ≡ ab)
    → s.drvstate k ≡ stop
    → AllWatched s
    → AllWatched (drv created k d time sun s).0
drv-AllWatched created k d time sun s e q (l, b, w) = (
  λ i. drv-legal created k d time sun i s e (l i),
  drv-AllBelow created k d time sun s b,
  λ j. drv-IsWatched created j k d time sun s (w j),
)

pub legal-AllWatched : (k : ℕ) (s : Jalousie) → AllWatched s → s.drvstate k ≤ ab
legal-AllWatched k s h = h.0 k

-- The shutter does not rest on the thread of that id.
abbrev pub Apart : ℕ → ℕ → Jalousie → Type 0
Apart x j s = s.drvstate j ≢ stop → s.thr_id j ≢ some x

pub pstop-Apart : (x j k : ℕ) (s : Jalousie) → (j ≢ k → Apart x j s) → Apart x j (pstop k s)
unfolding pstop relays update_shm
pstop-Apart x j k s h = ground arith

pub drv-Apart :
    (created : Bool) (x j k d time : ℕ) (sun : Bool) (s : Jalousie)
    → x < s.next_id
    → Apart x j s
    → Apart x j (drv created k d time sun s).0
unfolding drv update_shm
drv-Apart created x j k d time sun s lt h = ground arith

pub sonne_from-Apart :
    (created : Bool) (x j k : ℕ) (s : Jalousie)
    → x < s.next_id
    → Apart x j s
    → Apart x j (sonne_from created k s).0
unfolding sonne_from offset
sonne_from-Apart created x j k s lt h = ground (
  arith,
  drv-Apart created x j k auf sonnenzeit false s lt h,
  drv-Apart created x j k ab (fahrzeit + (offset s).1) true (offset s).0 lt h,
)

next_id-pstop : (k : ℕ) (s : Jalousie) → (pstop k s).next_id ≡ s.next_id
unfolding pstop relays update_shm
next_id-pstop k s = ground arith

Apart-stopped :
    (x j k : ℕ) (s : Jalousie) → s.drvstate k ≡ stop → (j ≢ k → Apart x j s) → Apart x j s
Apart-stopped x j k s z h m = h (λ p. m (ap s.drvstate p ∙ z)) m

pub drv_sonne-Apart :
    (created : Bool) (x j k : ℕ) (s : Jalousie)
    → x < s.next_id
    → (j ≢ k → Apart x j s)
    → Apart x j (drv_sonne created k s).0
unfolding drv_sonne
drv_sonne-Apart created x j k s lt h = elim (Bool-cases (s.drvstate k == stop)) [
  | inl e ↦ rw e (sonne_from-Apart created x j k s lt (Apart-stopped x j k s ((==_iff _ _).0 e) h))
  | inr e ↦ rw e (
      sonne_from-Apart created x j k (pstop k s) (omega (arith, next_id-pstop k s))
        (pstop-Apart x j k s h))
]
