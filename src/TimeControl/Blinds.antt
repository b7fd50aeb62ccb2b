-- ===== src/TimeControl/Blinds.antt =====
-- The shutters at the times of the configuration, src/haussteuerung.cpp: from `timeControl` over
-- the messages of `msgsndAllJal` to the drives.
use haussteuerung.Prelude.{
  ℕ, suc, ◌+◌, ◌<◌, ◌≡◌, refl, sym, ap, ◌∙◌, Bool, true, false, List, [], ◌∷◌, ◌++◌, some, arith,
  if◌then◌else◌, ◌==◌, map, ltb, ◌&&◌, length, Bool-cases, inl, inr,
}
use mathlib.Core.List.{append-nil}
use haussteuerung.Prelude.Text.{Text, codes, contains, after, strip_prefix, until}
use haussteuerung.Config.Cmd
use haussteuerung.Ini.{Ini}
use haussteuerung.Jalousie.State.{Jalousie}
use haussteuerung.Jalousie.Timer.{Command, auf_all, ab_all, sonne, run, drive_each, shutters}
use haussteuerung.Dispatch.{all_messages, dispatch_jal, jal_call, jal_nr}
use haussteuerung.Dispatch.Shutters.{take_all, take_all-step}
use haussteuerung.TimeControl.{
  Sun, Tm, Action, send, reset_gui, reboot, send_text, is_time, blinds, blinds_down, blinds_up,
}

-- The texts of the messages for the shutters, in their order.
abbrev pub jal_texts : List Action → List Text
jal_texts [] = []
jal_texts (send m ∷ acts) =
    let rest = jal_texts acts in if m.mtyp == Cmd.jal then m.mtext ∷ rest else rest
jal_texts (reset_gui ∷ acts) = jal_texts acts
jal_texts (reboot i ∷ acts) = jal_texts acts

-- The numbers of shutters.
abbrev all_numbers : List ℕ → Bool
all_numbers [] = true
all_numbers (j ∷ js) = ltb j 4 && all_numbers js

data Timed : Type 0 where
  abw sonnenstand aufw : Timed

abbrev timed_text : Timed → Text
timed_text abw = codes "value=ABW_"
timed_text sonnenstand = codes "value=SUN_"
timed_text aufw = codes "value=AUF_"

abbrev timed_call : Timed → ℕ → Command
timed_call abw = ab_all
timed_call sonnenstand = sonne
timed_call aufw = auf_all

timed_dispatch :
    (created : Bool) (w : Timed) (j : ℕ) (s : Jalousie)
    → j < 4
    → dispatch_jal created (timed_text w ++ (b'0' + j) ∷ []) s
      ≡ some (run created (timed_call w j) s, [])
unfolding dispatch_jal jal_call jal_nr contains after strip_prefix
timed_dispatch created abw j s h = ground arith
timed_dispatch created sonnenstand j s h = ground arith
timed_dispatch created aufw j s h = ground arith

abbrev timed_messages : Timed → List ℕ → List Text
timed_messages w [] = []
timed_messages w (j ∷ js) = (timed_text w ++ (b'0' + j) ∷ []) ∷ timed_messages w js

take_timed :
    (w : Timed) (js : List ℕ) (ms : List Text) (rounds : ℕ) (created : Bool) (s : Jalousie)
    → all_numbers js ≡ true
    → take_all (length js + rounds) created (timed_messages w js ++ ms) s
      ≡ take_all rounds created ms (drive_each created (timed_call w) js s)
take_timed w [] ms rounds created s h = ground arith
take_timed w (j ∷ js) ms rounds created s h =
    let s' = run created (timed_call w j) s in
    let behind = timed_messages w js ++ ms in
    let one_more : suc (length js) + rounds ≡ suc (length js + rounds) = omega arith in
    ap (λ n. take_all n created (timed_messages w (j ∷ js) ++ ms) s) one_more
    ∙ take_all-step (length js + rounds) created (timed_text w ++ (b'0' + j) ∷ []) behind [] s s'
        (timed_dispatch created w j s (ground arith))
    ∙ ap (λ l. take_all (length js + rounds) created l s') (append-nil behind)
    ∙ take_timed w js ms rounds created s' (ground arith)

texts_lem :
    (w : Timed) (open_2 : Bool) (acts : List Action)
    → jal_texts (map (send_text Cmd.jal) (all_messages open_2 (timed_text w)) ++ acts)
      ≡ timed_messages w (shutters open_2) ++ jal_texts acts
unfolding all_messages until send_text
texts_lem abw true acts = refl
texts_lem abw false acts = refl
texts_lem sonnenstand true acts = refl
texts_lem sonnenstand false acts = refl
texts_lem aufw true acts = refl
texts_lem aufw false acts = refl

take_parts :
    (w : Timed) (created open_2 : Bool) (acts : List Action) (total rounds : ℕ) (s : Jalousie)
    → length (shutters open_2) + rounds ≡ total
    → take_all total created
        (jal_texts (map (send_text Cmd.jal) (all_messages open_2 (timed_text w)) ++ acts))
        s
      ≡ take_all rounds created
          (jal_texts acts)
          (drive_each created (timed_call w) (shutters open_2) s)
take_parts w created true acts total rounds s h =
    rw (texts_lem w true acts, sym h)
      (take_timed w (shutters true) (jal_texts acts) rounds created s refl)
take_parts w created false acts total rounds s h =
    rw (texts_lem w false acts, sym h)
      (take_timed w (shutters false) (jal_texts acts) rounds created s refl)

module _ (ini : Ini) (conf : Ini.Dict ini) (sun : Sun) (t : Tm) where
  open ini use {get_boolean}

  -- What the time for closing means: to follow the sun or to close, without the terrace door,
  -- where it is to stay open.
  abbrev pub closing : Bool → Jalousie → Jalousie
  closing created =
      drive_each created
        (if get_boolean conf (codes "blinds:close_to_sun") false then sonne else ab_all)
        (shutters (get_boolean conf (codes "blinds:jal_2_open") false))

  abbrev pub opening : Bool → Jalousie → Jalousie
  opening created = drive_each created auf_all (shutters false)

  take_up :
      (created up : Bool) (spare : ℕ) (s : Jalousie)
      → take_all (4 + spare) created (jal_texts (if up then blinds_up ini conf sun t else [])) s
        ≡ some (if up then opening created s else s)
  unfolding blinds_up take_all
  take_up created true spare s =
      rw (sym (append-nil (map (send_text Cmd.jal) (all_messages false (codes "value=AUF_")))))
        (take_parts aufw created false [] (4 + spare) spare s refl)
  take_up created false spare s = ground arith

  take_both :
      (w : Timed) (created open_2 up : Bool) (s : Jalousie)
      → take_all 8 created
          (jal_texts (
            map (send_text Cmd.jal) (all_messages open_2 (timed_text w))
            ++ (if up then blinds_up ini conf sun t else [])))
          s
        ≡ some (
            let s' = drive_each created (timed_call w) (shutters open_2) s in
            if up then opening created s' else s')
  take_both w created true up s =
      take_parts w created true (if up then blinds_up ini conf sun t else []) 8 5 s refl
      ∙ take_up created up 1 (drive_each created (timed_call w) (shutters true) s)
  take_both w created false up s =
      take_parts w created false (if up then blinds_up ini conf sun t else []) 8 4 s refl
      ∙ take_up created up 0 (drive_each created (timed_call w) (shutters false) s)

  take_down :
      (created down up : Bool) (s : Jalousie)
      → take_all 8 created
          (jal_texts (
            (if down then blinds_down ini conf sun t else [])
            ++ (if up then blinds_up ini conf sun t else [])))
          s
        ≡ some (
            let s' = if down then closing created s else s in if up then opening created s' else s')
  unfolding blinds_down
  take_down created true up s =
      let open_2 = get_boolean conf (codes "blinds:jal_2_open") false in
      elim (Bool-cases (get_boolean conf (codes "blinds:close_to_sun") false)) [
        | inl y ↦ rw y (take_both sonnenstand created open_2 up s)
        | inr n ↦ rw n (take_both abw created open_2 up s)
      ]
  take_down created false up s = take_up created up 4 s

  -- Where the shutters follow the clock, they are closed at the time for closing and opened at the
  -- time for opening, first the one and then the other, if both match: this is what the main loop
  -- has done with the messages after eight rounds.
  pub blinds_lem :
      (created down up : Bool) (s : Jalousie)
      → get_boolean conf (codes "blinds:auto_time") false ≡ true
      → is_time ini conf sun t (codes "blinds:down_time") ≡ some down
      → is_time ini conf sun t (codes "blinds:up_time") ≡ some up
      → (acts : List Action) × (blinds ini conf sun t ≡ some acts)
        × (take_all 8 created (jal_texts acts) s
            ≡ some (
                let s' = if down then closing created s else s in
                if up then opening created s' else s'))
  unfolding blinds
  blinds_lem created down up s auto d u =
      let acts =
        (if down then blinds_down ini conf sun t else [])
        ++ (if up then blinds_up ini conf sun t else []) in
      (acts, ground (arith, auto, d, u), take_down created down up s)
