-- ===== src/House/Invariant.antt =====
-- What holds in the house of src/haussteuerung.cpp in every state that it can come to.
use haussteuerung.Prelude.{
  ℕ, ◌≡◌, refl, ◌++◌, map, Option, none, some, ◌>>=◌, arith, Option-cases, inl, inr,
}
use haussteuerung.Prelude.Int.{ℤ}
use haussteuerung.Prelude.Text.{Text, codes, after}
use haussteuerung.Config.Cmd
use haussteuerung.Ini.{Ini}
use haussteuerung.Pcf8574.{Pcf8574}
use haussteuerung.Max7311.{Max7311}
use haussteuerung.Jalousie.State.{Jalousie}
use haussteuerung.Jalousie.State
use haussteuerung.Terrasse
use haussteuerung.Dispatch.{dispatch_jal, dispatch_water}
use haussteuerung.Rooms.{dispatch_rooms}
use haussteuerung.Requests.{dispatch_set_config}
use haussteuerung.House.{House, Env, calls, init_e6_tcp_client}
use haussteuerung.House.Messages.{
  Branch, files, shutters, rooms, water, reset_timer, scene, dimming, weather, brightness, hsinfo,
  config, send_info, setting, reconnect, no_branch, branch_of, take_branch, dispatch,
}
use haussteuerung.House.Messages
use haussteuerung.House.Safe.{IsSafe}
use haussteuerung.House.Calls.{dispatch_rooms-legal, calls-IsSafe}
use haussteuerung.House.Returns.{others-IsSafe, init_e6_tcp_client-IsSafe}
use haussteuerung.House.Branches.{dispatch_jal-Reach, dispatch_water-Reach}

module _ (ini : Ini) (atof : Text → ℤ) (m : Max7311) (p : Pcf8574) where
  setting-IsSafe :
      (h : House ini) (conf : Ini.Dict ini)
      → IsSafe ini m p h
      → IsSafe ini m p (record h { abluft = record h.abluft { conf = conf } })
  setting-IsSafe h conf w = record {
    jal = w.jal;
    agreed = let a = w.agreed in ground (arith, a);
    lit = w.lit;
    terrasse = w.terrasse;
  }

  -- The four objects are the same.
  abbrev Alike : House ini → House ini → Type 0
  Alike k h =
      (k.jal ≡ h.jal) × (k.abluft ≡ h.abluft) × (k.orient ≡ h.orient) × (k.terrasse ≡ h.terrasse)

  done-IsSafe :
      (l h k : House ini) → IsSafe ini m p h → some l ≡ some k → Alike l h → IsSafe ini m p k
  done-IsSafe l h k w r (jal, abluft, orient, terrasse) =
      let same : (k ≡ l) = ground (arith, r) in
      rw same (others-IsSafe ini m p h l w jal abluft orient terrasse)

  -- A branch that changes another object, if it has a result.
  result-IsSafe :
      {A : Type 0} (o : Option A) (f : A → House ini) (h k : House ini)
      → IsSafe ini m p h
      → ((a : A) → Alike (f a) h)
      → (o >>= λ a. some (f a)) ≡ some k
      → IsSafe ini m p k
  result-IsSafe none f h k w alike r = ground (arith, r)
  result-IsSafe (some a) f h k w alike r = done-IsSafe (f a) h k w r (alike a)

  pub take_branch-IsSafe :
      (b : Branch) (e : Env ini) (mtyp : ℕ) (mtext : Text) (h k : House ini)
      → IsSafe ini m p h
      → take_branch ini atof b e mtyp mtext h ≡ some k
      → IsSafe ini m p k
  unfolding take_branch
  take_branch-IsSafe files e mtyp mtext h k w r = done-IsSafe _ h k w r (refl, refl, refl, refl)
  take_branch-IsSafe shutters e mtyp mtext h k w r =
      elim (Option-cases (dispatch_jal e.created mtext h.jal)) [
        | inl n ↦ ground (arith, r, n)
        | inr (done, y) ↦
            let same : (k
                ≡ record h { jal = done.0; queued = h.queued ++ map (λ t. (Cmd.jal, t)) done.1 }) =
              ground (arith, r, y) in
            rw same (record {
              jal = dispatch_jal-Reach e.created mtext (State.create m) h.jal done.0 done.1 w.jal y;
              agreed = w.agreed;
              lit = w.lit;
              terrasse = w.terrasse;
            })
      ]
  take_branch-IsSafe rooms e mtyp mtext h k w r = elim (Option-cases (dispatch_rooms mtyp mtext)) [
    | inl n ↦ ground (arith, r, n)
    | inr (list, y) ↦
        let same : (k ≡ calls ini e list h) = ground (arith, r, y) in
        rw same (calls-IsSafe ini m p e list h (dispatch_rooms-legal mtyp mtext list y) w)
  ]
  take_branch-IsSafe water e mtyp mtext h k w r =
      elim (Option-cases (dispatch_water ini h.abluft.conf e.created e.dauer mtext h.terrasse)) [
        | inl n ↦ ground (arith, r, n)
        | inr (t, y) ↦
            let same : (k ≡ record h { terrasse = t }) = ground (arith, r, y) in
            rw same (record {
              jal = w.jal;
              agreed = w.agreed;
              lit = w.lit;
              terrasse =
                  dispatch_water-Reach ini h.abluft.conf e.created e.dauer mtext (Terrasse.create p)
                    h.terrasse t w.terrasse y;
            })
      ]
  take_branch-IsSafe Messages.lamp e mtyp mtext h k w r =
      result-IsSafe _ _ h k w (λ a. (refl, refl, refl, refl)) r
  take_branch-IsSafe reset_timer e mtyp mtext h k w r =
      result-IsSafe _ _ h k w (λ a. (refl, refl, refl, refl)) r
  take_branch-IsSafe scene e mtyp mtext h k w r =
      result-IsSafe _ _ h k w (λ a. (refl, refl, refl, refl)) r
  take_branch-IsSafe dimming e mtyp mtext h k w r =
      result-IsSafe _ _ h k w (λ a. (refl, refl, refl, refl)) r
  take_branch-IsSafe weather e mtyp mtext h k w r =
      result-IsSafe _ _ h k w (λ a. (refl, refl, refl, refl)) r
  take_branch-IsSafe brightness e mtyp mtext h k w r =
      result-IsSafe _ _ h k w (λ a. (refl, refl, refl, refl)) r
  take_branch-IsSafe config e mtyp mtext h k w r =
      result-IsSafe _ _ h k w (λ a. (refl, refl, refl, refl)) r
  take_branch-IsSafe hsinfo e mtyp mtext h k w r = done-IsSafe _ h k w r (refl, refl, refl, refl)
  take_branch-IsSafe send_info e mtyp mtext h k w r = done-IsSafe _ h k w r (refl, refl, refl, refl)
  take_branch-IsSafe no_branch e mtyp mtext h k w r = done-IsSafe _ h k w r (refl, refl, refl, refl)
  take_branch-IsSafe setting e mtyp mtext h k w r =
      elim (Option-cases (dispatch_set_config ini mtext h.abluft.conf)) [
        | inl n ↦ ground (arith, r, n)
        | inr (conf, y) ↦
            let same : (k ≡ record h { abluft = record h.abluft { conf = conf } }) =
              ground (arith, r, y) in
            rw same (setting-IsSafe h conf w)
      ]
  take_branch-IsSafe reconnect e mtyp mtext h k w r =
      elim (Option-cases (after (codes "value=") mtext)) [
        | inl n ↦ ground (arith, r, n)
        | inr (tmp, y) ↦
            let same : (k ≡ init_e6_tcp_client ini atof e e.device h) = ground (arith, r, y) in
            rw same (init_e6_tcp_client-IsSafe ini m p atof e e.device h w)
      ]
