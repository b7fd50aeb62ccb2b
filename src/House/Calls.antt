-- ===== src/House/Calls.antt =====
-- The calls that the branches of the main loop make keep what holds in the house of
-- src/haussteuerung.cpp.
use haussteuerung.Prelude.{
  ℕ, ◌≡◌, refl, Bool, true, false, ◌&&◌, List, [], ◌∷◌, some, ltb, arith, Option-cases, inl, inr,
}
use haussteuerung.Prelude.Text.{Text, codes, after}
use haussteuerung.Config.{timer_an}
use haussteuerung.Ini.{Ini}
use haussteuerung.Pcf8574.{Pcf8574}
use haussteuerung.Pcf8574.Bits
use haussteuerung.Max7311.{Max7311}
use haussteuerung.Abluft
use haussteuerung.Terrasse
use haussteuerung.Switches.{Orient, orient_an, orient_aus, orient_init, hwr_an, hwr_aus}
use haussteuerung.Switches.Sharing.{IsLit, orient_lem}
use haussteuerung.Rooms.{
  Call, hwr_calls, abluft_calls, floor_calls, steckdose_calls, dispatch_rooms,
}
use haussteuerung.Rooms
use haussteuerung.House.{House, Env, fan, lamp, call, calls}
use haussteuerung.House.Ventilation.{set_low-Keeps, update_low-Keeps, set_high-Keeps}
use haussteuerung.House.Safe.{IsSafe, abluft-IsSafe, lamp-IsSafe, fan-IsSafe}

-- The socket is switched to on or off only.
abbrev pub is_legal : Call → Bool
is_legal (Rooms.set_steckdose state) = ltb state timer_an
is_legal _ = true

abbrev pub all_legal : List Call → Bool
all_legal [] = true
all_legal (c ∷ cs) = is_legal c && all_legal cs

hwr_calls-legal : (tmp : Text) → all_legal (hwr_calls tmp) ≡ true
unfolding hwr_calls
hwr_calls-legal tmp = ground arith

abluft_calls-legal : (tmp : Text) → all_legal (abluft_calls tmp) ≡ true
unfolding abluft_calls
abluft_calls-legal tmp = ground (arith, hwr_calls-legal tmp)

floor_calls-legal : (tmp : Text) → all_legal (floor_calls tmp) ≡ true
unfolding floor_calls
floor_calls-legal tmp = ground (arith, abluft_calls-legal tmp)

steckdose_calls-legal : (tmp : Text) → all_legal (steckdose_calls tmp) ≡ true
unfolding steckdose_calls
steckdose_calls-legal tmp = ground arith

pub dispatch_rooms-legal :
    (mtyp : ℕ) (mtext : Text) (list : List Call)
    → dispatch_rooms mtyp mtext ≡ some list
    → all_legal list ≡ true
unfolding dispatch_rooms
dispatch_rooms-legal mtyp mtext list h = elim (Option-cases (after (codes "value=") mtext)) [
  | inl n ↦ ground (arith, h, n)
  | inr (tmp, e) ↦ ground (
    arith,
    h,
    e,
    floor_calls-legal tmp,
    abluft_calls-legal tmp,
    hwr_calls-legal tmp,
    steckdose_calls-legal tmp,
  )
]

pub lit_lem :
    (o : Orient)
    → Bits.IsValid o.pcf
    → IsLit (orient_an o) × IsLit (orient_aus o) × IsLit (orient_init o)
lit_lem o v =
    let (on, off, again) = orient_lem 0 o v (omega arith) (λ x. absurd (omega (arith, x))) in
    (on.0, off.0, again.0)

module _ (ini : Ini) (m : Max7311) (p : Pcf8574) where
  call-IsSafe :
      (e : Env ini) (c : Call) (h : House ini)
      → is_legal c ≡ true
      → IsSafe ini m p h
      → IsSafe ini m p (call ini e c h)
  unfolding call
  call-IsSafe e Rooms.orient_an h l w =
      lamp-IsSafe ini m p true (orient_an (lamp ini h)) h w (lit_lem (lamp ini h) w.agreed.valid).0
        (unfold orient_an in refl)
  call-IsSafe e Rooms.orient_aus h l w =
      lamp-IsSafe ini m p false (orient_aus (lamp ini h)) h w
        (lit_lem (lamp ini h) w.agreed.valid).1 (unfold orient_aus in refl)
  call-IsSafe e Rooms.toggle_low h l w =
      abluft-IsSafe ini m p h _ w Abluft.toggles
        (unfold Abluft.toggle_low in set_low-Keeps ini _ h.abluft w.agreed.valid)
  call-IsSafe e (Rooms.set_low b) h l w =
      abluft-IsSafe ini m p h _ w (Abluft.sets_low b) (set_low-Keeps ini b h.abluft w.agreed.valid)
  call-IsSafe e Rooms.set_high h l w =
      abluft-IsSafe ini m p h _ w (Abluft.sets_high e.created)
        (set_high-Keeps ini e.created h.abluft w.agreed.valid)
  call-IsSafe e Rooms.update_low h l w =
      abluft-IsSafe ini m p h _ w Abluft.updates (update_low-Keeps ini h.abluft w.agreed.valid)
  call-IsSafe e Rooms.hwr_on h l w =
      fan-IsSafe ini m p true (hwr_an (fan ini h)) h w (unfold hwr_an in refl)
  call-IsSafe e Rooms.hwr_off h l w =
      fan-IsSafe ini m p false (hwr_aus (fan ini h)) h w (unfold hwr_aus in refl)
  call-IsSafe e Rooms.temp_control h l w = record {
    jal = w.jal;
    agreed = w.agreed;
    lit = w.lit;
    terrasse = w.terrasse;
  }
  call-IsSafe e (Rooms.set_steckdose state) h l w = record {
    jal = w.jal;
    agreed = w.agreed;
    lit = w.lit;
    terrasse = Terrasse.next w.terrasse (Terrasse.sets_steckdose state (ground (arith, l)));
  }

  pub calls-IsSafe :
      (e : Env ini) (list : List Call) (h : House ini)
      → all_legal list ≡ true
      → IsSafe ini m p h
      → IsSafe ini m p (calls ini e list h)
  unfolding calls
  calls-IsSafe e [] h l w = w
  calls-IsSafe e (c ∷ cs) h l w =
      calls-IsSafe e cs (call ini e c h) (ground (arith, l))
        (call-IsSafe e c h (ground (arith, l)) w)
