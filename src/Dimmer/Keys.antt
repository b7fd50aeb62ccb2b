-- ===== src/Dimmer/Keys.antt =====
-- The threads of the dimmer while keys are pressed and released, src/devices.cpp.
use haussteuerung.Prelude.{
  ℕ, suc, not, ◌≤◌, ◌≡◌, Bool, true, false, Option, none, some, ◌*◌, length, arith, Bool-cases,
  Option-cases, inl, inr,
}
use haussteuerung.Prelude.Int.{pos}
use haussteuerung.Prelude.Text.{Text}
use haussteuerung.Ini.{Ini}
use haussteuerung.Hauscode.{convert_address}
use haussteuerung.RemoteFs20.{fs20_send, address_of}
use haussteuerung.Dimmer.{
  Thread, Dimmer, create, launch, cancel, dimm_lampe_start, dimm_lampe_stop, dimm_round,
}
use haussteuerung.Dimmer.Threads.{
  IsOrdered, create-IsOrdered, launch-IsOrdered, stop-IsOrdered, round-IsOrdered,
}

-- The thread runs, and nothing was done to end it.
abbrev pub is_free : Option Thread → Bool
is_free none = false
is_free (some t) = not t.cancelled

-- Runs in which a key is pressed only after the one before was released, with the rounds of the
-- threads at any time.
module _ (ini : Ini) (light : Ini.Dict ini) (held : Text → ℕ) (hc : ℕ) where
  pub data Keys : Bool → Dimmer → Type 0 where
    begin : Keys false create
    press :
        {d : Dimmer} (lampe : Text) (cmd : ℕ) (e : Dimmer)
        → Keys false d
        → dimm_lampe_start ini light held hc true lampe cmd d ≡ some e
        → Keys true e
    release : {d : Dimmer} (e : Dimmer) → Keys true d → dimm_lampe_stop d ≡ some e → Keys false e
    turn : {b : Bool} {d : Dimmer} (i : ℕ) → Keys b d → Keys b (dimm_round i d)

module _ (ini : Ini) (light : Ini.Dict ini) (held : Text → ℕ) (hc : ℕ) where
  start-IsOrdered :
      (lampe : Text) (cmd : ℕ) (d e : Dimmer)
      → IsOrdered false d
      → dimm_lampe_start ini light held hc true lampe cmd d ≡ some e
      → IsOrdered true e
  unfolding dimm_lampe_start
  start-IsOrdered lampe cmd d e w h = elim (Option-cases (address_of ini light held lampe)) [
    | inl n ↦ ground (arith, h, n)
    | inr (a, y) ↦
        let ecmd = fs20_send hc (convert_address a) (pos cmd) in
        let same : (e ≡ launch ecmd d) = ground (arith, h, y) in rw same (launch-IsOrdered ecmd d w)
  ]

  keys-IsOrdered : {b : Bool} {d : Dimmer} → Keys ini light held hc b d → IsOrdered b d
  keys-IsOrdered begin = create-IsOrdered
  keys-IsOrdered (press {d} lampe cmd e k h) = start-IsOrdered lampe cmd d e (keys-IsOrdered k) h
  keys-IsOrdered (release {d} e k h) = stop-IsOrdered d e (keys-IsOrdered k) h
  keys-IsOrdered (turn {b} {d} i k) = round-IsOrdered b i d (keys-IsOrdered k)

  -- Where a key is pressed only after the one before was released: while no key is held, every
  -- thread of the dimmer that is left sends one command more at most, the one that it was about to
  -- send or has not yet sent to its end when it was cancelled, and is gone with its second step.
  pub released_lem :
      (d : Dimmer)
      → Keys ini light held hc false d
      → (i : ℕ)
      → let e = dimm_round i (dimm_round i d) in
        (e.threads i ≡ none) × (length e.sent ≤ suc (length d.sent))
  unfolding dimm_round
  released_lem d k i =
      let w = keys-IsOrdered k in
      elim (Option-cases (d.threads i)) [
        | inl n ↦ ground (arith, n)
        | inr (t, y) ↦
            let cancelled : t.cancelled ≡ true = ground (arith, y, w.order i) in
            elim (Bool-cases t.awake) [
              | inl a ↦ ground (arith, y, a, cancelled)
              | inr a ↦ ground (arith, y, a, cancelled)
            ]
      ]

  -- Nor are more than 20 commands sent for each key that was pressed, however long it is held.
  pub twenty_lem :
      (b : Bool) (d : Dimmer) → Keys ini light held hc b d → length d.sent ≤ 20 * d.made
  twenty_lem b d k = omega (arith, (keys-IsOrdered k).budget)

  -- A second key that is pressed before the first one is released takes over the kept id: the
  -- thread of the first key is not cancelled by the release.
  pub overtaken_lem :
      (one two : Text) (c1 c2 : ℕ) (d d1 d2 d3 : Dimmer)
      → dimm_lampe_start ini light held hc true one c1 d ≡ some d1
      → dimm_lampe_start ini light held hc true two c2 d1 ≡ some d2
      → dimm_lampe_stop d2 ≡ some d3
      → is_free (d3.threads d.made) ≡ true
  unfolding dimm_lampe_start dimm_lampe_stop launch cancel
  overtaken_lem one two c1 c2 d d1 d2 d3 h1 h2 h3 =
      elim (Option-cases (address_of ini light held one)) [
        | inl n ↦ ground (arith, h1, n)
        | inr (a, y) ↦ elim (Option-cases (address_of ini light held two)) [
          | inl n ↦ ground (arith, h2, n)
          | inr (b, z) ↦ ground (arith, h1, h2, h3, y, z)
        ]
      ]
