-- ===== src/House/Ventilation.antt =====
-- What the ventilation of src/abluft.cpp does to the pin of the orientation light: it writes to its
-- own two pins only.
use haussteuerung.Prelude.{ℕ, ◌≡◌, Bool, true, false, List, ◌∷◌, arith}
use haussteuerung.Prelude.Int.{ℤ, pos}
use haussteuerung.Config.{orient, abluft_0, abluft_1}
use haussteuerung.Ini.{Ini}
use haussteuerung.Pcf8574
use haussteuerung.Pcf8574.Bits.{pin, set_lem}
use haussteuerung.Pcf8574.Bits
use haussteuerung.Abluft

module _ (ini : Ini) where
  -- The byte stays one, and the pin of the light as it was.
  abbrev pub Keeps : Abluft.Abluft ini → Abluft.Abluft ini → Type 0
  Keeps a b = Bits.IsValid b.pcf × (pin b.pcf.data_byte orient ≡ pin a.pcf.data_byte orient)

  enter-Keeps :
      (state : ℕ) (p0 p1 red green : Bool) (a : Abluft.Abluft ini)
      → Bits.IsValid a.pcf
      → Keeps a (Abluft.enter ini state p0 p1 red green a)
  unfolding Abluft.enter Abluft.update_shm
  enter-Keeps state p0 p1 red green a v = ground (
    arith,
    set_lem abluft_0 orient p0 a.pcf,
    set_lem abluft_1 orient p1 (Pcf8574.set abluft_0 p0 a.pcf),
  )

  turn_aus-Keeps : (a : Abluft.Abluft ini) → Bits.IsValid a.pcf → Keeps a (Abluft.turn_aus ini a)
  unfolding Abluft.turn_aus
  turn_aus-Keeps a v = ground (arith, enter-Keeps 0 true false false false a v)

  turn_low-Keeps : (a : Abluft.Abluft ini) → Bits.IsValid a.pcf → Keeps a (Abluft.turn_low ini a)
  unfolding Abluft.turn_low
  turn_low-Keeps a v = ground (arith, enter-Keeps 1 false false false true a v)

  by_conf-Keeps : (a : Abluft.Abluft ini) → Bits.IsValid a.pcf → Keeps a (Abluft.by_conf ini a)
  unfolding Abluft.by_conf
  by_conf-Keeps a v = ground (arith, turn_aus-Keeps a v, turn_low-Keeps a v)

  pub init-Keeps : (a : Abluft.Abluft ini) → Bits.IsValid a.pcf → Keeps a (Abluft.init ini a)
  unfolding Abluft.init
  init-Keeps a v =
      ground (
        arith,
        turn_aus-Keeps (record a { state = 1 }) v,
        turn_low-Keeps (record a { state = 0 }) v,
      )

  pub set_low-Keeps :
      (b : Bool) (a : Abluft.Abluft ini) → Bits.IsValid a.pcf → Keeps a (Abluft.set_low ini b a)
  unfolding Abluft.set_low
  set_low-Keeps b a v = ground (arith, turn_aus-Keeps a v, turn_low-Keeps a v)

  pub update_low-Keeps :
      (a : Abluft.Abluft ini) → Bits.IsValid a.pcf → Keeps a (Abluft.update_low ini a)
  unfolding Abluft.update_low
  update_low-Keeps a v = ground (arith, by_conf-Keeps a v)

  pub set_high-Keeps :
      (created : Bool) (a : Abluft.Abluft ini)
      → Bits.IsValid a.pcf
      → Keeps a (Abluft.set_high ini created a)
  unfolding Abluft.set_high Abluft.turn_high
  set_high-Keeps created a v =
      let zeit = Ini.get_int ini a.conf Abluft.high_time_key (pos 0) in
      ground (arith, enter-Keeps 2 true true true false (record a { timers = zeit ∷ a.timers }) v)

  pub timer_end-Keeps :
      (others : List ℤ) (a : Abluft.Abluft ini)
      → Bits.IsValid a.pcf
      → Keeps a (Abluft.timer_end ini others a)
  unfolding Abluft.timer_end
  timer_end-Keeps others a v = ground (arith, by_conf-Keeps a v)
