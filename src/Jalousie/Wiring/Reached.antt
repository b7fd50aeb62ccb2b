-- ===== src/Jalousie/Wiring/Reached.antt =====
-- The relays of src/jalousie.cpp in every state that can be reached.
use haussteuerung.Prelude.{
  ℕ, ◌≤◌, ◌<◌, ◌≡◌, Bool, List, arith, ◌⊎◌, Option-cases, Bool-cases, inl, inr,
}
use haussteuerung.Config.{stop, auf, ab}
use haussteuerung.Max7311.{Max7311}
use haussteuerung.Max7311
use haussteuerung.Max7311.Levels.{level}
use haussteuerung.Jalousie.State.{
  Jalousie, Thread, Phase, sleeping, woken, reported, relays, update_shm, init_write, init_one,
  init, create, pstop, drv, drvstate_text, offset, set_position,
}
use haussteuerung.Jalousie.Closure.{run-P, drv_sonne-P}
use haussteuerung.Jalousie.Timer.{
  tick, find, advance, wake, report, finish, Step, command, thread, again, hwr, Reach, here, next,
}
use haussteuerung.Jalousie.Wiring.{
  IsWired, pstop-legal, drv-legal, init-legal, init-IsWired, pstop-IsWired, drv-IsWired,
  offset-IsWired, hwr-IsWired,
}

-- All states are legal, and the four shutters are wired as they should.
abbrev pub AllWired : Jalousie → Type 0
AllWired s = ((k : ℕ) → s.drvstate k ≤ ab) × ((j : ℕ) → j < 4 → IsWired j s)

pstop-AllWired : (k : ℕ) (s : Jalousie) → AllWired s → AllWired (pstop k s)
pstop-AllWired k s (l, w) = (λ i. pstop-legal k i s (l i), λ j h. pstop-IsWired j k s (w j h))

offset-AllWired : (s : Jalousie) → AllWired s → AllWired (offset s).0
unfolding offset
offset-AllWired s (l, w) = (l, λ j h. offset-IsWired j s (w j h))

drv-AllWired :
    (created : Bool) (k d time : ℕ) (sun : Bool) (s : Jalousie)
    → (d ≡ auf) ⊎ (d ≡ ab)
    → s.drvstate k ≡ stop
    → AllWired s
    → AllWired (drv created k d time sun s).0
drv-AllWired created k d time sun s e q (l, w) = (
  λ i. drv-legal created k d time sun i s e (l i),
  λ j h. drv-IsWired j created k d time sun s e q (w j h),
)

legal-AllWired : (k : ℕ) (s : Jalousie) → AllWired s → s.drvstate k ≤ ab
legal-AllWired k s (l, w) = l k

wake-AllWired : (i : ℕ) (s : Jalousie) → AllWired s → AllWired (wake i s)
unfolding wake
wake-AllWired i s (l, w) = (l, λ j h. let v = w j h in ground arith)

report-IsWired : (j : ℕ) (t : Thread) (s : Jalousie) → IsWired j s → IsWired j (report t s)
unfolding report set_position
report-IsWired j t s w = ground arith

report-legal :
    (k : ℕ) (t : Thread) (s : Jalousie) → s.drvstate k ≤ ab → (report t s).drvstate k ≤ ab
unfolding report set_position
report-legal k t s h = ground arith

remove-AllWired :
    (s : Jalousie) (ts : List Thread) → AllWired s → AllWired (record s { threads = ts })
remove-AllWired s ts (l, w) = (l, λ j h. let v = w j h in ground arith)

finish-AllWired :
    (created : Bool) (t : Thread) (s : Jalousie) → AllWired s → AllWired (finish created t s)
unfolding finish
finish-AllWired created t s h = elim (Bool-cases t.sonne) [
  | inl e ↦ rw e (
      remove-AllWired _ _ (
        drv_sonne-P AllWired legal-AllWired pstop-AllWired offset-AllWired drv-AllWired created
          t.jal_nr s h))
  | inr e ↦ rw e (remove-AllWired _ _ (pstop-AllWired t.jal_nr s h))
]

advance-AllWired :
    (created : Bool) (i : ℕ) (p : Phase) (t : Thread) (s : Jalousie)
    → AllWired s
    → AllWired (advance created i p t s)
unfolding advance
advance-AllWired created i sleeping t s h = wake-AllWired i s h
advance-AllWired created i woken t s h =
    (λ k. report-legal k t s (h.0 k), λ j l. report-IsWired j t s (h.1 j l))
advance-AllWired created i reported t s h = finish-AllWired created t s h

tick-AllWired : (created : Bool) (i : ℕ) (s : Jalousie) → AllWired s → AllWired (tick created i s)
unfolding tick
tick-AllWired created i s h = elim (Option-cases (find i s.threads)) [
  | inl n ↦ rw (n, tick) h
  | inr (t, f) ↦ rw (f, tick) (advance-AllWired created i t.phase t s h)
]

init-AllWired : (m : Max7311) (s : Jalousie) → AllWired s → AllWired (init (record s { max = m }))
init-AllWired m s (l, w) = (λ i. init-legal m i s (l i), λ j h. init-IsWired m j s h l (w j h))

Step-AllWired : {s t : Jalousie} → Step s t → AllWired s → AllWired t
Step-AllWired {s} (command created c lt) h =
    run-P AllWired legal-AllWired pstop-AllWired offset-AllWired drv-AllWired created c s h
Step-AllWired {s} (thread created i) h = tick-AllWired created i s h
Step-AllWired {s} (again a b) h = init-AllWired (Max7311.init_out a b s.max).0 s h
Step-AllWired {s} (hwr state) (l, w) = (l, λ j h. hwr-IsWired j state s h (w j h))

create-AllWired : (m : Max7311) → AllWired (create m)
unfolding create init init_one init_write relays update_shm level Max7311.set drvstate_text
create-AllWired m = (λ i. ground arith, λ j h. ground arith)

Reach-AllWired : {s t : Jalousie} → Reach s t → AllWired s → AllWired t
Reach-AllWired here h = h
Reach-AllWired (next r st) h = Step-AllWired st (Reach-AllWired r h)

-- In every state that the shutters can come to, by commands, timers, reconnections and the fan in
-- any order, each reconnection taken as one step, the two relays of a shutter are never both on,
-- each is on exactly if the shutter is driven its way, and the shared memory shows the state of
-- the drive.
pub reach-IsWired : (m : Max7311) (s : Jalousie) (j : ℕ) → Reach (create m) s → j < 4 → IsWired j s
reach-IsWired m s j r h = (Reach-AllWired r (create-AllWired m)).1 j h
