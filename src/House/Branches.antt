-- ===== src/House/Branches.antt =====
-- Each branch of the main loop keeps what holds in the house of src/haussteuerung.cpp.
use haussteuerung.Prelude.{
  ℕ, ◌<◌, ◌≡◌, Bool, true, false, not, ◌&&◌, ltb, refl, List, [], ◌∷◌, if◌then◌else◌, ◌==◌, arith,
  Bool-cases, Option, none, some, Option-cases, inl, inr, ◌⊎◌,
}
use haussteuerung.Prelude.Int.{ℤ, pos, ltb_ℤ}
use haussteuerung.Prelude.Text.{Text, codes, contains, after}
use haussteuerung.Config.{auf, ab, stop, an, aus, ventil_1, ventil_2}
use haussteuerung.Ini.{Ini}
use haussteuerung.Jalousie.State.{Jalousie}
use haussteuerung.Jalousie.Timer.{
  Command, number, run, Reach, next, command, drive_each, shutters, auf_all,
}
use haussteuerung.Wetter.{
  Wetter, wetter_steuerung, close_command, at_position, standing, must_open, may_close,
}
use haussteuerung.Terrasse.{Terrasse}
use haussteuerung.Terrasse
use haussteuerung.Dispatch.{jal_call, jal_nr, dispatch_jal, valve_of, read_dauer, dispatch_water}

abbrev all_four : List ℕ → Bool
all_four [] = true
all_four (j ∷ js) = ltb j 4 && all_four js

shutters-all_four : (b : Bool) → all_four (shutters b) ≡ true
shutters-all_four true = refl
shutters-all_four false = refl

-- The command, if there is one, is for shutter j.
abbrev is_for : ℕ → Option (ℕ → Command) → Bool
is_for j none = true
is_for j (some call) = number (call j) == j

jal_call-is_for : (standing : Bool) (t : Text) (j : ℕ) → is_for j (jal_call standing t) ≡ true
unfolding jal_call number
jal_call-is_for standing t j = ground arith

jal_nr-lt : (t : Text) (j : ℕ) → jal_nr t ≡ some j → j < 4
unfolding jal_nr
jal_nr-lt [] j h = ground (arith, h)
jal_nr-lt (c ∷ t) j h = ground (arith, h)

valve_of-lt : (t : Text) (i : ℕ) → valve_of t ≡ some i → i < 2
unfolding valve_of
valve_of-lt t i h = ground (arith, h)

-- What the branch for shutters does to them is a command to one of the four, or nothing.
dispatch_jal-cases :
    (created : Bool) (mtext : Text) (s t : Jalousie) (sent : List Text)
    → dispatch_jal created mtext s ≡ some (t, sent)
    → (t ≡ s) ⊎ ((c : Command) × (number c < 4) × (t ≡ run created c s))
unfolding dispatch_jal
dispatch_jal-cases created mtext s t sent h = elim (Option-cases (after (codes "value=") mtext)) [
  | inl n ↦ ground (arith, h, n)
  | inr (tmp1, e) ↦ elim (Option-cases (after (codes "_") tmp1)) [
    | inl n ↦ ground (arith, h, e, n)
    | inr (rest, f) ↦ elim (Bool-cases (contains (b'_' ∷ rest) (codes "ALL"))) [
      | inl y ↦ inl (ground (arith, h, e, f, y))
      | inr n ↦ elim (Option-cases (jal_nr rest)) [
        | inl g ↦ elim (Option-cases (jal_call true tmp1)) [
          | inl q ↦ inl (ground (arith, h, e, f, n, g, q))
          | inr (call, q) ↦ ground (arith, h, e, f, n, g, q)
        ]
        | inr (j, g) ↦ elim (Option-cases (jal_call (s.drvstate j == stop) tmp1)) [
          | inl q ↦ inl (ground (arith, h, e, f, n, g, q))
          | inr (call, q) ↦
              let low = jal_nr-lt rest j g in
              let same = jal_call-is_for (s.drvstate j == stop) tmp1 j in
              inr (call j, ground (arith, q, same, low), ground (arith, h, e, f, n, g, q))
        ]
      ]
    ]
  ]
]

pub dispatch_jal-Reach :
    (created : Bool) (mtext : Text) (first s t : Jalousie) (sent : List Text)
    → Reach first s
    → dispatch_jal created mtext s ≡ some (t, sent)
    → Reach first t
dispatch_jal-Reach created mtext first s t sent r h =
    elim (dispatch_jal-cases created mtext s t sent h) [
      | inl e ↦ rw e r
      | inr (c, l, e) ↦ rw e (next r (command created c l))
    ]

-- Commands that are each for one of the four shutters.
drive_each-Reach :
    (created : Bool) (call : ℕ → Command) (js : List ℕ) (first s : Jalousie)
    → ((j : ℕ) → number (call j) ≡ j)
    → all_four js ≡ true
    → Reach first s
    → Reach first (drive_each created call js s)
drive_each-Reach created call [] first s same l r = r
drive_each-Reach created call (j ∷ js) first s same l r =
    drive_each-Reach created call js first (run created (call j) s) same (ground (arith, l))
      (next r (command created (call j) (ground (arith, l, same j))))

close_command-number :
    (ini : Ini) (conf : Ini.Dict ini) (j : ℕ) → number (close_command ini conf j) ≡ j
unfolding close_command number
close_command-number ini conf j =
    elim (Bool-cases (Ini.get_boolean ini conf (codes "blinds:close_to_sun") false)) [
      | inl y ↦ rw y refl
      | inr n ↦ rw n refl
    ]

-- What the weather does to the shutters is commands to them.
pub wetter_steuerung-Reach :
    (ini : Ini) (conf : Ini.Dict ini) (created : Bool) (now : ℕ) (w : Wetter) (first s : Jalousie)
    → Reach first s
    → Reach first (wetter_steuerung ini conf created now w s).1
unfolding wetter_steuerung number
wetter_steuerung-Reach ini conf created now w first s r =
    let open_2 = Ini.get_boolean ini conf (codes "blinds:jal_2_open") false in
    let marked = w.close_on_wetter && at_position ab (not open_2) s in
    let w' : Wetter = record w { close_on_wetter = marked } in
    let opens = drive_each-Reach created auf_all (shutters false) first s (λ j. refl) refl r in
    let closes =
      drive_each-Reach created (close_command ini conf) (shutters open_2) first s
        (close_command-number ini conf) (shutters-all_four open_2) r in
    elim (Bool-cases (standing s)) [
      | inr n ↦ rw n r
      | inl y ↦ elim (Bool-cases (at_position auf true s)) [
        | inr n ↦ elim (Bool-cases (must_open ini conf now marked w')) [
          | inl m ↦ rw (y, n, m) opens
          | inr m ↦ rw (y, n, m) r
        ]
        | inl a ↦ elim (Bool-cases (may_close ini conf now w')) [
          | inl m ↦ rw (y, a, m) closes
          | inr m ↦ rw (y, a, m) r
        ]
      ]
    ]

start_conf-Reach :
    (ini : Ini) (conf : Ini.Dict ini) (created : Bool) (index : ℕ) (first t : Terrasse)
    → Terrasse.Reach first t
    → index < 2
    → Terrasse.Reach first (Terrasse.start_ventil_timer_conf ini conf created index t)
unfolding Terrasse.start_ventil_timer_conf
start_conf-Reach ini conf created index first t r l =
    let first_time =
      if index == ventil_1
      then Ini.get_int ini conf (codes "irrigation:ventil_1_duration") (pos 0)
      else pos 0 in
    let dauer =
      if index == ventil_2
      then Ini.get_int ini conf (codes "irrigation:ventil_2_duration") (pos 0)
      else first_time in
    elim (Bool-cases (ltb_ℤ (pos 0) dauer)) [
      | inl y ↦ rw y (Terrasse.next r (Terrasse.starts created index dauer l))
      | inr n ↦ rw n r
    ]

pub dispatch_water-Reach :
    (ini : Ini) (conf : Ini.Dict ini) (created : Bool) (held : ℤ) (mtext : Text)
    (first t u : Terrasse)
    → Terrasse.Reach first t
    → dispatch_water ini conf created held mtext t ≡ some u
    → Terrasse.Reach first u
unfolding dispatch_water
dispatch_water-Reach ini conf created held mtext first t u r h =
    elim (Option-cases (after (codes "value=") mtext)) [
      | inl n ↦ ground (arith, h, n)
      | inr (tmp, e) ↦ elim (Option-cases (valve_of tmp)) [
        | inl n ↦ let same : (u ≡ t) = ground (arith, h, e, n) in rw same r
        | inr (i, f) ↦
            let low = valve_of-lt tmp i f in
            elim (Bool-cases (contains tmp (codes "START"))) [
              | inl y ↦
                  let same : (u ≡ Terrasse.set_ventil i an t) = ground (arith, h, e, f, y) in
                  rw same (Terrasse.next r (Terrasse.sets i an low (omega arith)))
              | inr m ↦ elim (Bool-cases (contains tmp (codes "STOP"))) [
                | inl y ↦
                    let same : (u ≡ Terrasse.set_ventil i aus t) = ground (arith, h, e, f, m, y) in
                    rw same (Terrasse.next r (Terrasse.sets i aus low (omega arith)))
                | inr k ↦ elim (Option-cases (after (codes "TIMER:") tmp)) [
                  | inr (tmp1, g) ↦
                      let dauer = read_dauer held tmp1 in
                      let same : (u ≡ Terrasse.start_ventil_timer created i dauer t) =
                        ground (arith, h, e, f, m, k, g) in
                      rw same (Terrasse.next r (Terrasse.starts created i dauer low))
                  | inl g ↦ elim (Bool-cases (contains tmp (codes "TIMER"))) [
                    | inl y ↦
                        let same : (u ≡ Terrasse.start_ventil_timer_conf ini conf created i t) =
                          ground (arith, h, e, f, m, k, g, y) in
                        rw same (start_conf-Reach ini conf created i first t r low)
                    | inr q ↦ let same : (u ≡ t) = ground (arith, h, e, f, m, k, g, q) in rw same r
                  ]
                ]
              ]
            ]
      ]
    ]
