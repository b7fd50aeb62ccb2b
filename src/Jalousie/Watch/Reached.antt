-- ===== src/Jalousie/Watch/Reached.antt =====
-- Every step of src/jalousie.cpp keeps a moving shutter watched.
use haussteuerung.Prelude.{
  ℕ, ◌≡◌, refl, ◌≢◌, Bool, some, arith, ap, ◌∙◌, Option-cases, Bool-cases, inl, inr,
}
use haussteuerung.Max7311.{Max7311}
use haussteuerung.Max7311
use haussteuerung.Jalousie.Wiring.{init_one-legal}
use haussteuerung.Jalousie.State.{
  Jalousie, Thread, Phase, sleeping, woken, reported, relays, update_shm, init_write, init_one,
  init, create, set_position,
}
use haussteuerung.Jalousie.Timer.{
  find, remove, advance, wake, report, finish, tick, Step, command, thread, again, hwr, Reach, here,
  next,
}
use haussteuerung.Jalousie.Closure.{run-P, drv_sonne-P}
use haussteuerung.Jalousie.Watch.Threads.{
  owner, owner_id-find, owner-apart, find-below, AllBelow-remove, AllBelow-set_phase,
  owner-set_phase,
}
use haussteuerung.Jalousie.Watch.{
  IsWatched, AllWatched, Apart, pstop-AllWatched, drv-AllWatched, offset-AllWatched,
  legal-AllWatched, pstop-Apart, drv_sonne-Apart,
}

-- A thread that no moving shutter rests on may end.
remove-IsWatched :
    (j x : ℕ) (s : Jalousie)
    → IsWatched j s
    → Apart x j s
    → IsWatched j (record s { threads = remove x s.threads })
remove-IsWatched j x s w a = record {
  fresh = w.fresh;
  moving = λ m. owner-apart (s.thr_id j) x s.threads j (w.moving m) (a m);
}

remove-AllWatched :
    (x : ℕ) (s : Jalousie)
    → AllWatched s
    → ((j : ℕ) → Apart x j s)
    → AllWatched (record s { threads = remove x s.threads })
remove-AllWatched x s (l, b, w) a =
    (l, AllBelow-remove s.next_id x s.threads b, λ j. remove-IsWatched j x s (w j) (a j))

-- The thread of shutter `t.jal_nr` is not the one that another shutter rests on.
other-Apart :
    (t : Thread) (j : ℕ) (s : Jalousie)
    → find t.id s.threads ≡ some t
    → IsWatched j s
    → j ≢ t.jal_nr
    → Apart t.id j s
unfolding owner
other-Apart t j s f w n m q =
    n (cc (w.moving m, ap (λ o. owner o s.threads) q, (owner_id-find t.id t s.threads f).0))

finish-AllWatched :
    (created : Bool) (t : Thread) (s : Jalousie)
    → find t.id s.threads ≡ some t
    → AllWatched s
    → AllWatched (finish created t s)
unfolding finish
finish-AllWatched created t s f h =
    let lt = find-below t.id t s.next_id s.threads f h.1 in
    let apart = λ (j : ℕ) (n : j ≢ t.jal_nr). other-Apart t j s f (h.2 j) n in
    elim (Bool-cases t.sonne) [
      | inl e ↦ rw e (
          remove-AllWatched t.id _
            (drv_sonne-P AllWatched legal-AllWatched pstop-AllWatched offset-AllWatched
              drv-AllWatched created t.jal_nr s h)
            (λ j. drv_sonne-Apart created t.id j t.jal_nr s lt (apart j)))
      | inr e ↦ rw e (
          remove-AllWatched t.id _ (pstop-AllWatched t.jal_nr s h)
            (λ j. pstop-Apart t.id j t.jal_nr s (apart j)))
    ]

wake-AllWatched : (i : ℕ) (s : Jalousie) → AllWatched s → AllWatched (wake i s)
unfolding wake
wake-AllWatched i s (l, b, w) = (
  l,
  AllBelow-set_phase s.next_id i woken s.threads b,
  λ j. record {
    fresh = (w j).fresh;
    moving = λ m. owner-set_phase (s.thr_id j) i woken s.threads ∙ (w j).moving m;
  },
)

report-AllWatched : (t : Thread) (s : Jalousie) → AllWatched s → AllWatched (report t s)
unfolding report set_position
report-AllWatched t s (l, b, w) = (
  λ k. let h = l k in ground arith,
  ground (arith, AllBelow-set_phase s.next_id t.id reported s.threads b),
  λ j.
      let v = w j in ground (arith, v.moving, owner-set_phase (s.thr_id j) t.id reported s.threads),
)

advance-AllWatched :
    (created : Bool) (i : ℕ) (p : Phase) (t : Thread) (s : Jalousie)
    → find t.id s.threads ≡ some t
    → AllWatched s
    → AllWatched (advance created i p t s)
unfolding advance
advance-AllWatched created i sleeping t s f h = wake-AllWatched i s h
advance-AllWatched created i woken t s f h = report-AllWatched t s h
advance-AllWatched created i reported t s f h = finish-AllWatched created t s f h

tick-AllWatched :
    (created : Bool) (i : ℕ) (s : Jalousie) → AllWatched s → AllWatched (tick created i s)
unfolding tick
tick-AllWatched created i s h = elim (Option-cases (find i s.threads)) [
  | inl n ↦ rw (n, tick) h
  | inr (t, f) ↦
      rw (f, tick)
        (advance-AllWatched created i t.phase t s
          (ap (λ x. find x s.threads) (owner_id-find i t s.threads f).1 ∙ f) h)
]

init_one-AllWatched : (k : ℕ) (s : Jalousie) → AllWatched s → AllWatched (init_one k s)
unfolding init_one init_write relays
init_one-AllWatched k s (l, b, w) =
    (λ i. init_one-legal k i s (l i), ground arith, λ j. let v = w j in ground (arith, v.moving))

init-AllWatched : (s : Jalousie) → AllWatched s → AllWatched (init s)
unfolding init
init-AllWatched s h =
    let a = init_one-AllWatched 0 s h in
    let b = init_one-AllWatched 1 (init_one 0 s) a in
    let c = init_one-AllWatched 2 (init_one 1 (init_one 0 s)) b in
    init_one-AllWatched 3 (init_one 2 (init_one 1 (init_one 0 s))) c

max-AllWatched : (m : Max7311) (s : Jalousie) → AllWatched s → AllWatched (record s { max = m })
max-AllWatched m s (l, b, w) = (l, b, λ j. let v = w j in ground (arith, v.moving))

Step-AllWatched : {s t : Jalousie} → Step s t → AllWatched s → AllWatched t
Step-AllWatched {s} (command created c lt) h =
    run-P AllWatched legal-AllWatched pstop-AllWatched offset-AllWatched drv-AllWatched created c s
      h
Step-AllWatched {s} (thread created i) h = tick-AllWatched created i s h
Step-AllWatched {s} (again a b) h =
    let m = (Max7311.init_out a b s.max).0 in
    init-AllWatched (record s { max = m }) (max-AllWatched m s h)
Step-AllWatched {s} (hwr state) h = max-AllWatched (Max7311.set 8 state s.max) s h

Reach-AllWatched : {s t : Jalousie} → Reach s t → AllWatched s → AllWatched t
Reach-AllWatched here h = h
Reach-AllWatched (next r st) h = Step-AllWatched st (Reach-AllWatched r h)

create-AllWatched : (m : Max7311) → AllWatched (create m)
unfolding create init init_one init_write relays update_shm
create-AllWatched m =
    (λ k. omega arith, tt, λ j. record { fresh = tt; moving = λ n. absurd (n refl) })

-- In every state that can be reached, each reconnection taken as one step, a shutter that moves has a
-- running timer thread of its own.
pub reach-IsWatched : (m : Max7311) (s : Jalousie) (j : ℕ) → Reach (create m) s → IsWatched j s
reach-IsWatched m s j r = (Reach-AllWatched r (create-AllWatched m)).2 j
