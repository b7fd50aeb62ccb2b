-- ===== src/Terrasse/Pins.antt =====
-- Pins and display of class Terrasse, src/abluft.cpp, agree with its states.
use haussteuerung.Prelude.{
  ℕ, zero, suc, ◌⊎◌, ◌≤◌, ◌<◌, ◌≡◌, refl, Bool, false, if◌then◌else◌, ◌==◌, arith, Bool-cases,
  Option-cases, inl, inr, update, [],
}
use haussteuerung.Prelude.Int.{ℤ}
use haussteuerung.Prelude.Text.{Text}
use haussteuerung.Config.{aus, an, timer_an, ventil_1, ventil_2, steckdose}
use haussteuerung.Pcf8574.{Pcf8574}
use haussteuerung.Pcf8574
use haussteuerung.Pcf8574.Bits.{pin, set_lem}
use haussteuerung.Pcf8574.Bits
use haussteuerung.Terrasse
use haussteuerung.Terrasse.{Terrasse}

-- The pin of an open valve, or of the socket switched on, is low.
abbrev pub level_at : ℕ → ℕ
level_at state = if state == aus then 1 else 0

pub record IsPinned (t : Terrasse) : Type 0 where
  pub valid : Bits.IsValid t.pcf
  pub pin_0 : pin t.pcf.data_byte 0 ≡ level_at (t.state_ventil 0)
  pub pin_1 : pin t.pcf.data_byte 1 ≡ level_at (t.state_ventil 1)
  pub pin_3 : pin t.pcf.data_byte 3 ≡ level_at t.state_steckdose
  pub legal_0 : t.state_ventil 0 ≤ timer_an
  pub legal_1 : t.state_ventil 1 ≤ timer_an
  pub legal_3 : t.state_steckdose ≤ an
  pub shown_0 : t.ventil_shown 0 ≡ Terrasse.ventil_text [] (t.state_ventil 0)
  pub shown_1 : t.ventil_shown 1 ≡ Terrasse.ventil_text [] (t.state_ventil 1)
  pub shown_3 : t.steckdose_shown ≡ Terrasse.steckdose_text [] t.state_steckdose

-- One write to one of the three ports.
port_set :
    (port : ℕ) (b : Bool) (p : Pcf8574)
    → port < 4
    → Bits.IsValid p
    → let q = Pcf8574.set port b p in
      Bits.IsValid q
      × (pin q.data_byte 0 ≡ (if port == 0 then (if b then 0 else 1) else pin p.data_byte 0))
      × (pin q.data_byte 1 ≡ (if port == 1 then (if b then 0 else 1) else pin p.data_byte 1))
      × (pin q.data_byte 3 ≡ (if port == 3 then (if b then 0 else 1) else pin p.data_byte 3))
port_set port b p h v = ground (arith, set_lem port 0 b p, set_lem port 1 b p, set_lem port 3 b p)

three_ports :
    (a b c : Bool) (p : Pcf8574)
    → Bits.IsValid p
    → let q = Pcf8574.set steckdose c (Pcf8574.set ventil_2 b (Pcf8574.set ventil_1 a p)) in
      Bits.IsValid q
      × (pin q.data_byte 0 ≡ (if a then 0 else 1))
      × (pin q.data_byte 1 ≡ (if b then 0 else 1))
      × (pin q.data_byte 3 ≡ (if c then 0 else 1))
three_ports a b c p v = ground (
  arith,
  port_set 0 a p,
  port_set 1 b (Pcf8574.set 0 a p),
  port_set 3 c (Pcf8574.set 1 b (Pcf8574.set 0 a p)),
)

init-IsPinned : (t : Terrasse) → IsPinned t → IsPinned (Terrasse.init t)
unfolding Terrasse.init
init-IsPinned t w = ground (
  arith,
  three_ports (Terrasse.open_at (t.state_ventil 0)) (Terrasse.open_at (t.state_ventil 1))
      (Terrasse.open_at t.state_steckdose) t.pcf,
)

create-IsPinned : (p : Pcf8574) → Bits.IsValid p → IsPinned (Terrasse.create p)
unfolding Terrasse.create Terrasse.init Terrasse.update_shm Terrasse.ventil_text
    Terrasse.steckdose_text
create-IsPinned p v = ground (arith, three_ports false false false p)

ventil_text-held :
    (held : Text) (state : ℕ)
    → state ≤ timer_an
    → Terrasse.ventil_text held state ≡ Terrasse.ventil_text [] state
unfolding Terrasse.ventil_text
ventil_text-held held state h = ground arith

steckdose_text-held :
    (held : Text) (state : ℕ)
    → state ≤ an
    → Terrasse.steckdose_text held state ≡ Terrasse.steckdose_text [] state
unfolding Terrasse.steckdose_text
steckdose_text-held held state h = ground arith

pub switch_lem :
    (i state : ℕ) (t : Terrasse)
    → let u = Terrasse.switch i state t in
      (u.pcf ≡ Pcf8574.set i (Terrasse.open_at state) t.pcf)
      × (u.state_ventil ≡ t.state_ventil)
      × (u.state_steckdose ≡ t.state_steckdose)
      × (u.thr_id ≡ t.thr_id)
      × (u.next_id ≡ t.next_id)
unfolding Terrasse.switch
switch_lem i state t = ground arith

switch-store-IsPinned :
    (i state : ℕ) (t : Terrasse)
    → i < 2
    → state ≤ timer_an
    → IsPinned t
    → IsPinned (Terrasse.store i state (Terrasse.switch i state t))
unfolding Terrasse.store Terrasse.update_shm
switch-store-IsPinned i state t h k w =
    let u = Terrasse.switch i state t in
    let first = Terrasse.ventil_text [] (update t.state_ventil i state 0) in
    let second = Terrasse.ventil_text first (update t.state_ventil i state 1) in
    ground (
      arith,
      switch_lem i state t,
      port_set i (Terrasse.open_at state) t.pcf,
      ventil_text-held first (update t.state_ventil i state 1),
      steckdose_text-held second t.state_steckdose,
    )

set_ventil_at-IsPinned :
    (i state : ℕ) (t : Terrasse)
    → i < 2
    → state ≤ timer_an
    → IsPinned t
    → IsPinned (Terrasse.set_ventil_at i state t)
unfolding Terrasse.set_ventil_at
set_ventil_at-IsPinned i state t h k w = elim (Bool-cases (Terrasse.is_change i state t)) [
  | inl y ↦ rw y (switch-store-IsPinned i state t h k w)
  | inr n ↦ rw n w
]

-- `setVentil` on each number.
pub set_ventil-cases :
    (number state : ℕ) (t : Terrasse)
    → (Terrasse.set_ventil number state t ≡ t)
      ⊎ ((number < 2)
          × (Terrasse.set_ventil number state t ≡ Terrasse.set_ventil_at number state t))
unfolding Terrasse.set_ventil
set_ventil-cases zero state t = inr (omega arith, refl)
set_ventil-cases (suc zero) state t = inr (omega arith, refl)
set_ventil-cases (suc (suc n)) state t = inl (ground arith)

set_ventil-IsPinned :
    (number state : ℕ) (t : Terrasse)
    → state ≤ timer_an
    → IsPinned t
    → IsPinned (Terrasse.set_ventil number state t)
set_ventil-IsPinned number state t k w = elim (set_ventil-cases number state t) [
  | inl e ↦ rw e w
  | inr (h, e) ↦ rw e (set_ventil_at-IsPinned number state t h k w)
]

set_steckdose-IsPinned :
    (state : ℕ) (t : Terrasse)
    → state < timer_an
    → IsPinned t
    → IsPinned (Terrasse.set_steckdose state t)
unfolding Terrasse.set_steckdose Terrasse.update_shm Terrasse.ventil_text Terrasse.steckdose_text
set_steckdose-IsPinned state t k w = ground (arith, port_set 3 (Terrasse.open_at state) t.pcf)

-- The fields of threads play no part.
wake-IsPinned : (k : ℕ) (t : Terrasse) → IsPinned t → IsPinned (Terrasse.wake k t)
unfolding Terrasse.wake
wake-IsPinned k t w = elim (Option-cases (t.threads k)) [
  | inl e ↦ ground (arith, e)
  | inr (timer, e) ↦ ground (arith, e)
]

launch-IsPinned :
    (index : ℕ) (dauer : ℤ) (t : Terrasse) → IsPinned t → IsPinned (Terrasse.launch index dauer t)
unfolding Terrasse.launch
launch-IsPinned index dauer t w = ground arith

remove-IsPinned : (k : ℕ) (t : Terrasse) → IsPinned t → IsPinned (Terrasse.remove k t)
unfolding Terrasse.remove
remove-IsPinned k t w = ground arith

pub start_ventil_timer-cases :
    (created : Bool) (index : ℕ) (dauer : ℤ) (t : Terrasse)
    → (Terrasse.start_ventil_timer created index dauer t ≡ t)
      ⊎ (Terrasse.start_ventil_timer created index dauer t
          ≡ Terrasse.set_ventil index timer_an (Terrasse.launch index dauer t))
unfolding Terrasse.start_ventil_timer
start_ventil_timer-cases created index dauer t = ground arith

start_ventil_timer-IsPinned :
    (created : Bool) (index : ℕ) (dauer : ℤ) (t : Terrasse)
    → IsPinned t
    → IsPinned (Terrasse.start_ventil_timer created index dauer t)
start_ventil_timer-IsPinned created index dauer t w =
    elim (start_ventil_timer-cases created index dauer t) [
      | inl e ↦ rw e w
      | inr e ↦
          rw e
            (set_ventil-IsPinned index timer_an _ (omega arith) (launch-IsPinned index dauer t w))
    ]

close-IsPinned : (k : ℕ) (t : Terrasse) → IsPinned t → IsPinned (Terrasse.close k t)
unfolding Terrasse.close
close-IsPinned k t w = elim (Option-cases (t.threads k)) [
  | inl e ↦ ground (arith, e)
  | inr (timer, e) ↦
      (let closed = Terrasse.set_ventil timer.ventil_nr aus t in
        let shut = set_ventil-IsPinned timer.ventil_nr aus t (omega arith) w in
        ground (arith, e, remove-IsPinned k closed shut))
]

port-IsPinned : (t : Terrasse) → IsPinned t → IsPinned (record t { pcf = Pcf8574.init t.pcf })
unfolding Pcf8574.init
port-IsPinned t w = ground (arith, w)

-- A step keeps pins, states and display in agreement.
Step-IsPinned : {t u : Terrasse} → Terrasse.Step t u → IsPinned t → IsPinned u
Step-IsPinned {t} (Terrasse.sets number state h k) w =
    set_ventil-IsPinned number state t (omega arith) w
Step-IsPinned {t} (Terrasse.sets_steckdose state k) w = set_steckdose-IsPinned state t k w
Step-IsPinned {t} (Terrasse.starts created index dauer h) w =
    start_ventil_timer-IsPinned created index dauer t w
Step-IsPinned {t} (Terrasse.wakes k) w = wake-IsPinned k t w
Step-IsPinned {t} (Terrasse.closes k) w = close-IsPinned k t w
Step-IsPinned {t} Terrasse.inits w = init-IsPinned _ (port-IsPinned t w)

Reach-IsPinned : {t u : Terrasse} → Terrasse.Reach t u → IsPinned t → IsPinned u
Reach-IsPinned Terrasse.here w = w
Reach-IsPinned (Terrasse.next r st) w = Step-IsPinned st (Reach-IsPinned r w)

-- From the constructor on, by commands, timer threads and reconnections in any order, each call of
-- `setVentil` taken as one step: the two valves and the socket have their pin low exactly if they
-- are on, and the shared memory shows their states.
pub reach-IsPinned :
    (p : Pcf8574) (t : Terrasse)
    → Bits.IsValid p
    → Terrasse.Reach (Terrasse.create p) t
    → IsPinned t
reach-IsPinned p t v r = Reach-IsPinned r (create-IsPinned p v)
