-- ===== src/Terrasse/Timers.antt =====
-- The timer threads of class Terrasse, src/abluft.cpp: a valve that is open by timer has a running
-- thread that will close it.
use haussteuerung.Prelude.{
  ℕ, ◌<◌, ◌≡◌, refl, ◌≢◌, Bool, true, false, ◌&&◌, Option, none, some, ◌==◌, arith, Option-cases,
  inl, inr, ltb, ◌⊎◌,
}
use haussteuerung.Prelude.Int.{ℤ}
use haussteuerung.Config.{aus, timer_an}
use haussteuerung.Pcf8574.{Pcf8574}
use haussteuerung.Terrasse
use haussteuerung.Terrasse.Pins.{set_ventil-cases, start_ventil_timer-cases}
use haussteuerung.Terrasse.{Terrasse, Timer}

-- Whether a thread is there and is one for valve i; `d` is the answer where there is none.
abbrev pub is_for : Bool → ℕ → Option Timer → Bool
is_for d i none = d
is_for d i (some timer) = timer.ventil_nr == i

-- The kept id is of an own thread or of one that ended.
abbrev is_own : ℕ → ℕ → (ℕ → Option Timer) → Option ℕ → Bool
is_own i bound threads none = true
is_own i bound threads (some k) = ltb k bound && is_for true i (threads k)

-- The kept id is of a running thread for the valve.
abbrev pub is_alive : ℕ → (ℕ → Option Timer) → Option ℕ → Bool
is_alive i threads none = false
is_alive i threads (some k) = is_for false i (threads k)

pub record IsTimed (i : ℕ) (t : Terrasse) : Type 0 where
  pub own : is_own i t.next_id t.threads (t.thr_id i) ≡ true
  pub alive : t.state_ventil i ≡ timer_an → is_alive i t.threads (t.thr_id i) ≡ true

launch-IsTimed :
    (i index : ℕ) (dauer : ℤ) (t : Terrasse)
    → IsTimed i t
    → IsTimed i (Terrasse.launch index dauer t)
      × (index ≡ i
          → is_alive i
              (Terrasse.launch index dauer t).threads
              ((Terrasse.launch index dauer t).thr_id i)
            ≡ true)
unfolding Terrasse.launch
launch-IsTimed i index dauer t w = ground (arith, w.alive)

-- Cancelling a thread takes nothing from an id that is kept for another valve.
cancel-is_own :
    (i bound : ℕ) (threads : ℕ → Option Timer) (o c : Option ℕ)
    → is_own i bound threads o ≡ true
    → is_own i bound (Terrasse.cancel c threads) o ≡ true
unfolding Terrasse.cancel
cancel-is_own i bound threads o none h = h
cancel-is_own i bound threads o (some k) h = elim (Option-cases (threads k)) [
  | inl e ↦ ground (arith, e)
  | inr (timer, e) ↦ ground (arith, e)
]

cancel-is_alive :
    (i j bound : ℕ) (threads : ℕ → Option Timer) (o c : Option ℕ)
    → i ≢ j
    → is_own j bound threads c ≡ true
    → is_alive i threads o ≡ true
    → is_alive i (Terrasse.cancel c threads) o ≡ true
unfolding Terrasse.cancel
cancel-is_alive i j bound threads o none n h k = k
cancel-is_alive i j bound threads none (some c) n h k = absurd (ground arith)
cancel-is_alive i j bound threads (some o) (some c) n h k = elim (Option-cases (threads c)) [
  | inl e ↦ ground (arith, e)
  | inr (timer, e) ↦ ground (arith, e)
]

set_ventil_at-IsTimed :
    (i number state : ℕ) (t : Terrasse)
    → (number ≡ i → state ≡ timer_an → is_alive i t.threads (t.thr_id i) ≡ true)
    → IsTimed i t
    → IsTimed number t
    → IsTimed i (Terrasse.set_ventil_at number state t)
unfolding Terrasse.set_ventil_at Terrasse.switch Terrasse.store Terrasse.update_shm
set_ventil_at-IsTimed i number state t a w v = ground (
  arith,
  w.alive,
  w.own,
  v.own,
  cancel-is_own i t.next_id t.threads (t.thr_id i) (t.thr_id number),
  cancel-is_alive i number t.next_id t.threads (t.thr_id i) (t.thr_id number),
)

set_ventil-IsTimed :
    (i number state : ℕ) (t : Terrasse)
    → (number ≡ i → state ≡ timer_an → is_alive i t.threads (t.thr_id i) ≡ true)
    → IsTimed i t
    → (number < 2 → IsTimed number t)
    → IsTimed i (Terrasse.set_ventil number state t)
set_ventil-IsTimed i number state t a w v = elim (set_ventil-cases number state t) [
  | inl e ↦ rw e w
  | inr (h, e) ↦ rw e (set_ventil_at-IsTimed i number state t a w (v h))
]

cancel-thread :
    (k : ℕ) (c : Option ℕ) (threads : ℕ → Option Timer)
    → (Terrasse.cancel c threads k ≡ none) ⊎ (Terrasse.cancel c threads k ≡ threads k)
unfolding Terrasse.cancel
cancel-thread k none threads = inr refl
cancel-thread k (some c) threads = elim (Option-cases (threads c)) [
  | inl e ↦ ground (arith, e)
  | inr (timer, e) ↦ ground (arith, e)
]

set_ventil-small :
    (number state : ℕ) (t : Terrasse)
    → number < 2
    → Terrasse.set_ventil number state t ≡ Terrasse.set_ventil_at number state t
unfolding Terrasse.set_ventil
set_ventil-small number state t h = ground arith

set_ventil_lem :
    (number k : ℕ) (t : Terrasse)
    → let u = Terrasse.set_ventil number aus t in
      ((u.threads k ≡ none) ⊎ (u.threads k ≡ t.threads k))
      × (number < 2 → u.state_ventil number ≡ aus)
unfolding Terrasse.set_ventil_at Terrasse.is_change Terrasse.switch Terrasse.store
    Terrasse.update_shm
set_ventil_lem number k t = elim (set_ventil-cases number aus t) [
  | inl e ↦ ground (arith, e, set_ventil-small number aus t)
  | inr (h, e) ↦ rw e (ground (arith, cancel-thread k (t.thr_id number) t.threads))
]

remove-IsTimed :
    (i k : ℕ) (t : Terrasse)
    → (t.state_ventil i ≡ timer_an → is_for false i (t.threads k) ≡ false)
    → IsTimed i t
    → IsTimed i (Terrasse.remove k t)
unfolding Terrasse.remove
remove-IsTimed i k t n w = elim (Option-cases (t.thr_id i)) [
  | inl e ↦ ground (arith, e, w.alive, w.own)
  | inr (o, e) ↦ ground (arith, e, w.alive, w.own, n)
]

wake-IsTimed : (i k : ℕ) (t : Terrasse) → IsTimed i t → IsTimed i (Terrasse.wake k t)
unfolding Terrasse.wake
wake-IsTimed i k t w = elim (Option-cases (t.threads k)) [
  | inl e ↦ ground (arith, e, w.alive, w.own)
  | inr (timer, e) ↦ elim (Option-cases (t.thr_id i)) [
    | inl f ↦ ground (arith, e, f, w.alive, w.own)
    | inr (o, f) ↦ ground (arith, e, f, w.alive, w.own)
  ]
]

close-IsTimed :
    (i k : ℕ) (t : Terrasse)
    → i < 2
    → ((j : ℕ) → j < 2 → IsTimed j t)
    → IsTimed i (Terrasse.close k t)
unfolding Terrasse.close
close-IsTimed i k t h all = elim (Option-cases (t.threads k)) [
  | inl e ↦ ground (arith, e, (all i h).alive, (all i h).own)
  | inr (timer, e) ↦
      (let nr = timer.ventil_nr in
        let closed = Terrasse.set_ventil nr aus t in
        let shut =
          set_ventil-IsTimed i nr aus t (λ p q. absurd (omega (arith, q))) (all i h) (all nr) in
        ground (
          arith,
          e,
          all i h,
          remove-IsTimed i k closed (ground (arith, e, set_ventil_lem nr k t)) shut,
        ))
]

create-IsTimed : (i : ℕ) (p : Pcf8574) → IsTimed i (Terrasse.create p)
unfolding Terrasse.create Terrasse.init Terrasse.update_shm
create-IsTimed i p = record { own = refl; alive = λ e. absurd (omega (arith, e)) }

Step-IsTimed :
    {t u : Terrasse}
    → Terrasse.Step t u
    → ((j : ℕ) → j < 2 → IsTimed j t)
    → (j : ℕ) → j < 2
    → IsTimed j u
unfolding Terrasse.set_steckdose Terrasse.init Terrasse.update_shm
Step-IsTimed {t} (Terrasse.sets number state h k) all j l =
    set_ventil-IsTimed j number state t (λ p q. absurd (omega (arith, k, q))) (all j l) (all number)
Step-IsTimed {t} (Terrasse.sets_steckdose state k) all j l =
    ground (arith, (all j l).alive, (all j l).own)
Step-IsTimed {t} (Terrasse.starts created index dauer h) all j l =
    let launched = Terrasse.launch index dauer t in
    let ready = launch-IsTimed j index dauer t (all j l) in
    elim (start_ventil_timer-cases created index dauer t) [
      | inl e ↦ rw e (all j l)
      | inr e ↦ rw e (
          set_ventil-IsTimed j index timer_an launched (λ p q. ready.1 p) ready.0
            (λ q. (launch-IsTimed index index dauer t (all index q)).0))
    ]
Step-IsTimed {t} (Terrasse.wakes k) all j l = wake-IsTimed j k t (all j l)
Step-IsTimed {t} (Terrasse.closes k) all j l = close-IsTimed j k t l all
Step-IsTimed {t} Terrasse.inits all j l = ground (arith, (all j l).alive, (all j l).own)

Reach-IsTimed :
    {t u : Terrasse}
    → Terrasse.Reach t u
    → ((j : ℕ) → j < 2 → IsTimed j t)
    → (j : ℕ) → j < 2
    → IsTimed j u
Reach-IsTimed Terrasse.here all = all
Reach-IsTimed (Terrasse.next r st) all = Step-IsTimed st (Reach-IsTimed r all)

-- From the constructor on, by commands, timer threads and reconnections in any order, each call of
-- `setVentil` taken as one step: while a valve is open by timer, the thread whose id is kept for
-- it runs and is one that closes this valve.
pub reach-IsTimed :
    (p : Pcf8574) (t : Terrasse) (i : ℕ)
    → Terrasse.Reach (Terrasse.create p) t
    → i < 2
    → t.state_ventil i ≡ timer_an
    → is_alive i t.threads (t.thr_id i) ≡ true
reach-IsTimed p t i r h = (Reach-IsTimed r (λ j l. create-IsTimed j p) i h).alive
