-- ===== src/Abluft/Timing.antt =====
-- The stages of class Abluft in time, src/abluft.cpp: the setting of the low stage in the
-- configuration, and the threads that end the high stage.
use haussteuerung.Prelude.{ℕ, ◌≤◌, ◌≡◌, ◌≢◌, Bool, true, false, not, [], ◌∷◌, if◌then◌else◌, arith}
use haussteuerung.Prelude.Int.{ℤ, pos}
use haussteuerung.Config.{aus, low, high}
use haussteuerung.Ini.{Ini}
use haussteuerung.Pcf8574.{Pcf8574}
use haussteuerung.Abluft

module _ (ini : Ini) where
  open ini use {Dict, get_boolean, get_int, get_boolean-set_true, get_boolean-set_false}

  -- The stage that the configuration asks for.
  abbrev pub wanted : Dict → ℕ
  wanted conf = if get_boolean conf Abluft.low_key false then low else aus

  pub record IsCurrent (a : Abluft.Abluft ini) : Type 0 where
    pub legal : a.state ≤ high
    pub stage : a.state ≢ high → a.state ≡ wanted a.conf
    pub pending : a.state ≡ high → a.timers ≢ []

  by_conf-state :
      (a : Abluft.Abluft ini)
      → ((Abluft.by_conf ini a).state ≡ wanted a.conf)
        × ((Abluft.by_conf ini a).conf ≡ a.conf)
        × ((Abluft.by_conf ini a).timers ≡ a.timers)
  unfolding Abluft.by_conf Abluft.turn_aus Abluft.turn_low Abluft.enter Abluft.update_shm
  by_conf-state a = ground arith

  init-state :
      (a : Abluft.Abluft ini)
      → ((Abluft.init ini a).state ≡ wanted a.conf) × ((Abluft.init ini a).conf ≡ a.conf)
  unfolding Abluft.init Abluft.turn_aus Abluft.turn_low Abluft.enter Abluft.update_shm
  init-state a = ground arith

  set_low-IsCurrent :
      (b : Bool) (a : Abluft.Abluft ini) → IsCurrent a → IsCurrent (Abluft.set_low ini b a)
  unfolding Abluft.set_low Abluft.turn_aus Abluft.turn_low Abluft.enter Abluft.update_shm
  set_low-IsCurrent true a c =
      ground (arith, c.pending, get_boolean-set_true a.conf Abluft.low_key false)
  set_low-IsCurrent false a c =
      ground (arith, c.pending, get_boolean-set_false a.conf Abluft.low_key false)

  set_high-IsCurrent :
      (created : Bool) (a : Abluft.Abluft ini)
      → IsCurrent a
      → IsCurrent (Abluft.set_high ini created a)
  unfolding Abluft.set_high Abluft.turn_high Abluft.enter Abluft.update_shm
  set_high-IsCurrent created a c = ground (arith, c.pending, c.stage)

  settled : (a : Abluft.Abluft ini) → a.state ≡ wanted a.conf → IsCurrent a
  settled a e = ground arith

  Step-IsCurrent : {a b : Abluft.Abluft ini} → Abluft.Step ini a b → IsCurrent a → IsCurrent b
  unfolding Abluft.toggle_low Abluft.update_low Abluft.timer_end
  Step-IsCurrent {a} Abluft.inits c = settled _ (ground (arith, init-state a))
  Step-IsCurrent {a} Abluft.port_inits c = ground (arith, c.pending, c.stage)
  Step-IsCurrent {a} (Abluft.sets_low b) c = set_low-IsCurrent b a c
  Step-IsCurrent {a} Abluft.toggles c = set_low-IsCurrent _ a c
  Step-IsCurrent {a} Abluft.updates c =
      ground (arith, by_conf-state a, settled (Abluft.by_conf ini a))
  Step-IsCurrent {a} (Abluft.sets_high created) c = set_high-IsCurrent created a c
  Step-IsCurrent {a} (Abluft.ends before zeit behind e) c =
      settled _ (ground (arith, by_conf-state a))
  Step-IsCurrent {a} (Abluft.other_port port b p q) c = ground (arith, c.pending, c.stage)

  Reach-IsCurrent : {a b : Abluft.Abluft ini} → Abluft.Reach ini a b → IsCurrent a → IsCurrent b
  Reach-IsCurrent Abluft.here c = c
  Reach-IsCurrent (Abluft.next r st) c = Step-IsCurrent st (Reach-IsCurrent r c)

  -- After the constructor and any steps, a ventilation that is not in the high stage runs at the
  -- stage of the configuration as `setLow` left it, and in the high stage some thread is still to
  -- end it.
  pub reach-IsCurrent :
      (state : ℕ) (p : Pcf8574) (conf : Dict) (a : Abluft.Abluft ini)
      → Abluft.Reach ini (Abluft.create ini state p conf) a
      → IsCurrent a
  unfolding Abluft.create
  reach-IsCurrent state p conf a r = Reach-IsCurrent r (
      settled _ (
        ground (
          arith,
          init-state
              (record { pcf = p; leds = []; state = state; conf = conf; timers = []; shown = [] }),
        )))

  set_low_lem :
      (b : Bool) (a : Abluft.Abluft ini)
      → let a' = Abluft.set_low ini b a in
        (get_boolean a'.conf Abluft.low_key false ≡ b)
        × (a.state ≡ high → a'.state ≡ high)
        × (a.state ≢ high → a'.state ≡ (if b then low else aus))
  unfolding Abluft.set_low Abluft.turn_aus Abluft.turn_low Abluft.enter Abluft.update_shm
  set_low_lem true a = ground (arith, get_boolean-set_true a.conf Abluft.low_key false)
  set_low_lem false a = ground (arith, get_boolean-set_false a.conf Abluft.low_key false)

  -- Two changes of the low stage by the remote key give back the setting and, outside the high
  -- stage, the stage; in the high stage neither changes the stage.
  pub toggle_twice :
      (a : Abluft.Abluft ini)
      → IsCurrent a
      → let b = Abluft.toggle_low ini (Abluft.toggle_low ini a) in
        (wanted b.conf ≡ wanted a.conf) × (b.state ≡ a.state)
  unfolding Abluft.toggle_low
  toggle_twice a c =
      let g = get_boolean a.conf Abluft.low_key false in
      let a' = Abluft.set_low ini (not g) a in
      let g' = get_boolean a'.conf Abluft.low_key false in
      ground (arith, set_low_lem (not g) a, set_low_lem (not g') a', c.stage)

  -- The thread of an earlier high stage, left over by an `init`, ends the next one while that
  -- one's own thread still waits.
  pub early_end :
      (a : Abluft.Abluft ini) (zeit : ℤ)
      → a.state ≡ high
      → a.timers ≡ zeit ∷ []
      → let again = Abluft.set_high ini true (Abluft.init ini a) in
        let own = get_int a.conf Abluft.high_time_key (pos 0) in
        (again.state ≡ high)
        × (again.timers ≡ own ∷ zeit ∷ [])
        × ((Abluft.timer_end ini (own ∷ []) again).state ≡ wanted a.conf)
  unfolding Abluft.set_high Abluft.turn_high Abluft.init Abluft.timer_end Abluft.by_conf
      Abluft.turn_aus Abluft.turn_low Abluft.enter Abluft.update_shm
  early_end a zeit e t = ground arith
