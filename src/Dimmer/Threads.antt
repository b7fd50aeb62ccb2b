-- ===== src/Dimmer/Threads.antt =====
-- What the threads of the dimmer of src/devices.cpp keep, whatever step comes next: those that are
-- not cancelled, and the commands that are left.
use haussteuerung.Prelude.{
  ℕ, zero, suc, ◌||◌, ◌<◌, ◌+◌, ◌≤◌, ◌≡◌, refl, Bool, true, false, if◌then◌else◌, Option, none,
  some, ◌==◌, ltb, ◌-◌, ◌*◌, length, update, arith, Bool-cases, Option-cases, inl, inr,
}
use haussteuerung.Prelude.Text.{Text}
use haussteuerung.Dimmer.{Thread, Dimmer, create, launch, cancel, dimm_lampe_stop, dimm_round}

-- A thread is cancelled, or it is that of the kept id and a key is held, which `b` says.
abbrev pub in_order : Bool → ℕ → Option ℕ → Option Thread → Bool
in_order b i id none = true
in_order false i id (some t) = t.cancelled
in_order true i none (some t) = t.cancelled
in_order true i (some k) (some t) = t.cancelled || (k == i)

-- The commands that a thread will still send at most, and all threads below a number.
abbrev pub left : Option Thread → ℕ
left none = 0
left (some t) = 20 - t.count

pub total : ℕ → (ℕ → Option Thread) → ℕ
total zero f = 0
total (suc n) f = total n f + left (f n)

total-update_above :
    (n i : ℕ) (f : ℕ → Option Thread) (x : Option Thread)
    → n ≤ i
    → total n (update f i x) ≡ total n f
unfolding total
total-update_above zero i f x h = refl
total-update_above (suc n) i f x h = ground (arith, h, total-update_above n i f x)

total-update :
    (n i : ℕ) (f : ℕ → Option Thread) (x : Option Thread)
    → i < n
    → total n (update f i x) + left (f i) ≡ total n f + left x
unfolding total
total-update zero i f x h = absurd (omega arith)
total-update (suc n) i f x h = elim (Bool-cases (i == n)) [
  | inl y ↦ ground (arith, y, total-update_above n i f x)
  | inr m ↦ ground (arith, m, h, total-update n i f x)
]

pub record IsOrdered (b : Bool) (d : Dimmer) : Type 0 where
  pub order : (i : ℕ) → in_order b i d.thr_id (d.threads i) ≡ true
  pub unused : (i : ℕ) → d.made ≤ i → d.threads i ≡ none
  pub budget : length d.sent + total d.made d.threads ≤ 20 * d.made

pub create-IsOrdered : IsOrdered false create
unfolding create total
create-IsOrdered = record { order = λ i. refl; unused = λ i h. refl; budget = omega arith }

in_order-false :
    (b : Bool) (i : ℕ) (id id' : Option ℕ) (o : Option Thread)
    → in_order false i id o ≡ true
    → in_order b i id' o ≡ true
in_order-false b i id id' none h = refl
in_order-false false i id id' (some t) h = h
in_order-false true i id none (some t) h = h
in_order-false true i id (some k) (some t) h = ground (arith, h)

pub launch-IsOrdered :
    (ecmd : Text) (d : Dimmer) → IsOrdered false d → IsOrdered true (launch ecmd d)
unfolding launch total
launch-IsOrdered ecmd d w = record {
  order = λ i.
      (let kept = in_order-false true i d.thr_id (some d.made) (d.threads i) (w.order i) in
        elim (Bool-cases (d.made == i)) [
          | inl y ↦ ground (arith, y)
          | inr n ↦ ground (arith, n, kept)
        ]);
  unused = λ i h. ground (arith, h, w.unused i);
  budget = ground (
    arith,
    w.budget,
    total-update_above d.made d.made d.threads
        (some (record { ecmd = ecmd; count = 0; awake = true; cancelled = false })),
  );
}

cancel-in_order :
    (b : Bool) (i : ℕ) (id : Option ℕ) (o : Option Thread) → in_order b i id (cancel o) ≡ true
unfolding cancel
cancel-in_order b i id none = refl
cancel-in_order false i id (some t) = refl
cancel-in_order true i none (some t) = refl
cancel-in_order true i (some k) (some t) = refl

others-in_order :
    (i k : ℕ) (o : Option Thread)
    → in_order true i (some k) o ≡ true
    → (k == i) ≡ false
    → in_order false i (some k) o ≡ true
others-in_order i k none h n = refl
others-in_order i k (some t) h n = ground (arith, h, n)

left-cancel : (o : Option Thread) → left (cancel o) ≡ left o
unfolding cancel
left-cancel none = refl
left-cancel (some t) = refl

total-less :
    (n k : ℕ) (f : ℕ → Option Thread) (x : Option Thread)
    → left x ≤ left (f k)
    → total n (update f k x) ≤ total n f
total-less n k f x h = elim (Bool-cases (ltb k n)) [
  | inl y ↦ ground (arith, y, h, total-update n k f x)
  | inr m ↦ ground (arith, m, total-update_above n k f x)
]

-- A number of no thread is one that the object has not used yet.
unused-update :
    (n k i : ℕ) (f : ℕ → Option Thread) (x : Option Thread)
    → ((j : ℕ) → n ≤ j → f j ≡ none)
    → (f k ≡ none → x ≡ none)
    → n ≤ i
    → update f k x i ≡ none
unused-update n k i f x u e h = elim (Bool-cases (k == i)) [
  | inl y ↦ ground (arith, y, h, u k, e)
  | inr m ↦ ground (arith, m, h, u i)
]

pub stop-IsOrdered :
    (d e : Dimmer) → IsOrdered true d → dimm_lampe_stop d ≡ some e → IsOrdered false e
unfolding dimm_lampe_stop
stop-IsOrdered d e w h = elim (Option-cases d.thr_id) [
  | inl n ↦ ground (arith, h, n)
  | inr (k, y) ↦
      let next = cancel (d.threads k) in
      let same : (e ≡ record d { threads = update d.threads k next }) = ground (arith, h, y) in
      let below : left next ≤ left (d.threads k) = omega (arith, left-cancel (d.threads k)) in
      let ended : IsOrdered false (record d { threads = update d.threads k next }) = record {
        order = λ i. elim (Bool-cases (k == i)) [
          | inl s ↦ ground (arith, s, cancel-in_order false i d.thr_id (d.threads k))
          | inr m ↦ ground (arith, m, y, others-in_order i k (d.threads i), w.order i)
        ];
        unused = λ i u.
            unused-update d.made k i d.threads next w.unused
              (λ g. unfold cancel in ground (arith, g)) u;
        budget = omega (arith, w.budget, total-less d.made k d.threads next below);
      } in
      rw same ended
]

-- What a step of thread i leaves of it.
abbrev stepped : Thread → Option Thread
stepped t =
    if t.awake
    then (if ltb t.count 20 then some (record t { count = suc t.count; awake = false }) else none)
    else if t.cancelled
    then none
    else some (record t { awake = true })

stepped-in_order :
    (b : Bool) (i : ℕ) (id : Option ℕ) (t : Thread)
    → in_order b i id (some t) ≡ true
    → in_order b i id (stepped t) ≡ true
stepped-in_order false i id t h = ground (arith, h)
stepped-in_order true i none t h = ground (arith, h)
stepped-in_order true i (some k) t h = ground (arith, h)

-- A step changes its own thread only, and sends a command exactly if it uses up one that is left.
round-parts :
    (i : ℕ) (d : Dimmer) (t : Thread)
    → d.threads i ≡ some t
    → let e = dimm_round i d in
      (e.threads ≡ update d.threads i (stepped t))
      × (e.thr_id ≡ d.thr_id)
      × (e.made ≡ d.made)
      × (length e.sent + left (stepped t) ≤ length d.sent + left (some t))
unfolding dimm_round
round-parts i d t y = elim (Bool-cases t.awake) [
  | inl a ↦ elim (Bool-cases (ltb t.count 20)) [
    | inl l ↦ ground (arith, y, a, l)
    | inr l ↦ ground (arith, y, a, l)
  ]
  | inr a ↦ elim (Bool-cases t.cancelled) [
    | inl l ↦ ground (arith, y, a, l)
    | inr l ↦ ground (arith, y, a, l)
  ]
]

round-none : (i : ℕ) (d : Dimmer) → d.threads i ≡ none → dimm_round i d ≡ d
unfolding dimm_round
round-none i d n = rw (dimm_round, n) refl

pub round-IsOrdered : (b : Bool) (i : ℕ) (d : Dimmer) → IsOrdered b d → IsOrdered b (dimm_round i d)
round-IsOrdered b i d w = elim (Option-cases (d.threads i)) [
  | inl n ↦ rw (round-none i d n) w
  | inr (t, y) ↦
      let (threads, id, made, sent) = round-parts i d t y in
      let mine : in_order b i d.thr_id (some t) ≡ true = ground (arith, y, w.order i) in
      let low : i < d.made = elim (Bool-cases (ltb i d.made)) [
        | inl l ↦ ground (arith, l)
        | inr l ↦ ground (arith, l, y, w.unused i)
      ] in
      let change = total-update d.made i d.threads (stepped t) low in
      record {
        order = λ j.
            rw (threads, id)
              (elim (Bool-cases (i == j)) [
                | inl s ↦ ground (arith, s, stepped-in_order b i d.thr_id t mine)
                | inr m ↦ ground (arith, m, w.order j)
              ]);
        unused = λ j u. rw threads (
            unused-update d.made i j d.threads (stepped t) w.unused (λ g. ground (arith, g, y))
              (omega (arith, u, made)));
        budget = rw (threads, made) (ground (arith, y, sent, change, w.budget));
      }
]
