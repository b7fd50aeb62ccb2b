-- ===== src/Rooms/Regulation.antt =====
-- `tempControlHWR` and the branch for its messages as one loop, src/haussteuerung.cpp.
use haussteuerung.Prelude.{
  ℕ, ◌≤◌, ◌≡◌, refl, Bool, true, false, not, ◌&&◌, [], ◌∷◌, some, if◌then◌else◌, ◌==◌, arith,
  Bool-cases, inl, inr,
}
use haussteuerung.Prelude.Int.{pos, +ℤ_parts, -ℤ_parts}
use haussteuerung.Prelude.Text.{codes, contains, after, strip_prefix}
use haussteuerung.Config.{an, aus}
use haussteuerung.Ini.{Ini}
use haussteuerung.Switches.{Hwr, hwr_an, hwr_aus}
use haussteuerung.Rooms.{
  Temps, control_messages, temp_control_hwr, take_hwr, dispatch_rooms, hwr_calls, calls_hwr,
  call_hwr, auto, permanent, cold, warm,
}

take_an : (h : Hwr) → take_hwr (codes "value=AN" ∷ []) h ≡ some (hwr_an h)
unfolding take_hwr dispatch_rooms hwr_calls calls_hwr call_hwr contains after strip_prefix
take_an h = refl

pub take_aus : (h : Hwr) → take_hwr (codes "value=AUS" ∷ []) h ≡ some (hwr_aus h)
unfolding take_hwr dispatch_rooms hwr_calls calls_hwr call_hwr contains after strip_prefix
take_aus h = refl

take_none : (h : Hwr) → take_hwr [] h ≡ some h
unfolding take_hwr
take_none h = refl

abbrev pub wanted_by : Bool → Bool → Bool → Bool → ℕ → ℕ
wanted_by auto permanent cold warm state =
    if permanent
    then an
    else if not auto
    then aus
    else if cold
    then aus
    else if warm
    then an
    else state

abbrev Ends : Bool → Bool → Bool → Bool → Hwr → Hwr → Type 0
Ends a p c w h h' =
    (take_hwr (control_messages a p c w h.state) h ≡ some h')
    × (h'.state ≡ wanted_by a p c w h.state)
    × (control_messages a p c w h'.state ≡ [])

abbrev Settled : Bool → Bool → Bool → Bool → Hwr → Type 0
Settled a p c w h =
    (h' : Hwr) × (take_hwr (control_messages a p c w h.state) h ≡ some h')
    × (h'.state ≡ wanted_by a p c w h.state)
    × (control_messages a p c w h'.state ≡ [])

reach : (a p c w : Bool) (h h' : Hwr) → Ends a p c w h h' → Settled a p c w h
reach a p c w h h' (taken, state, quiet) = (h', taken, state, quiet)

settle :
    (a p c w : Bool) (h : Hwr)
    → h.state ≤ an
    → (a && p) ≡ false
    → (w && c) ≡ false
    → Settled a p c w h
unfolding control_messages hwr_an hwr_aus
settle true p c w h l e n = elim (Bool-cases (h.state == an)) [
  | inl on ↦ elim (Bool-cases c) [
    | inl y ↦ reach true p c w h (hwr_aus h) (ground (arith, on, y, e, n, take_aus h))
    | inr m ↦ reach true p c w h (h) (ground (arith, on, m, e, n, take_none h))
  ]
  | inr off ↦ elim (Bool-cases w) [
    | inl y ↦ reach true p c w h (hwr_an h) (ground (arith, off, y, l, e, n, take_an h))
    | inr m ↦ reach true p c w h (h) (ground (arith, off, m, l, e, n, take_none h))
  ]
]
settle false true c w h l e n = elim (Bool-cases (h.state == an)) [
  | inl on ↦ reach false true c w h (h) (ground (arith, on, n, take_none h))
  | inr off ↦ reach false true c w h (hwr_an h) (ground (arith, off, n, l, take_an h))
]
settle false false c w h l e n = elim (Bool-cases (h.state == an)) [
  | inl on ↦ reach false false c w h (hwr_aus h) (ground (arith, on, n, take_aus h))
  | inr off ↦ reach false false c w h (h) (ground (arith, off, n, l, take_none h))
]

module _ (ini : Ini) (conf : Ini.Dict ini) where
  not_both : (t : Temps) → (warm ini conf t && cold ini conf t) ≡ false
  not_both t = ground (arith, -ℤ_parts t.threshold (pos 5000), +ℤ_parts t.outside (pos 20000))

  -- What the fan should do.
  abbrev pub wanted : Temps → ℕ → ℕ
  wanted t state =
      wanted_by (auto ini conf) (permanent ini conf) (cold ini conf t) (warm ini conf t) state

  -- Unless the fan is both automatic and permanent: one round of the control and of the main loop
  -- brings it to what the configuration and the temperatures ask for, and a second round at the
  -- same temperatures writes no message.
  pub settle_lem :
      (t : Temps) (h : Hwr)
      → h.state ≤ an
      → (auto ini conf && permanent ini conf) ≡ false
      → (h' : Hwr) × (take_hwr (temp_control_hwr ini conf t h.state) h ≡ some h')
        × (h'.state ≡ wanted t h.state)
        × (temp_control_hwr ini conf t h'.state ≡ [])
  unfolding temp_control_hwr
  settle_lem t h l e =
      settle (auto ini conf) (permanent ini conf) (cold ini conf t) (warm ini conf t) h l e
        (not_both t)

  -- A fan that is both automatic and permanent is switched off and on again, round by round, as
  -- long as it is cold.
  pub swing_lem :
      (t : Temps) (h : Hwr)
      → h.state ≡ an
      → auto ini conf ≡ true
      → permanent ini conf ≡ true
      → cold ini conf t ≡ true
      → (take_hwr (temp_control_hwr ini conf t h.state) h ≡ some (hwr_aus h))
        × (take_hwr (temp_control_hwr ini conf t (hwr_aus h).state) (hwr_aus h)
            ≡ some (hwr_an (hwr_aus h)))
  unfolding temp_control_hwr control_messages hwr_aus
  swing_lem t h s a p c = ground (arith, s, a, p, c, not_both t, take_an (hwr_aus h), take_aus h)
