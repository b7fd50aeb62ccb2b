-- ===== src/Dispatch.antt =====
-- The branches CMD_JAL and CMD_WATER of the dispatch in src/haussteuerung.cpp, and `msgsndAllJal`:
-- what the main loop does with the text of a message. `none` is the use of a null pointer, where
-- the text lacks "value=" or "_", and an index of a shutter that is none of the four.
pub mod Shutters
pub mod Water
use haussteuerung.Prelude.{
  ℕ, zero, suc, ◌+◌, ◌-◌, ◌≤◌, Bool, true, false, not, ◌&&◌, List, [], ◌∷◌, ◌++◌, Option, none,
  some, if◌then◌else◌, ◌==◌, leb, ltb,
}
use haussteuerung.Prelude.Int.{ℤ, to_int, to_long, pos, negsuc}
use haussteuerung.Prelude.Text.{
  has_number, strtol, Text, codes, contains, after, until, print_dec, scan, skip_space, digit_value,
  begins_with_decimal,
}
use haussteuerung.Config.{stop, an, aus, impulszeit, ventil_1, ventil_2}
use haussteuerung.Ini.{Ini}
use haussteuerung.Jalousie.State.{Jalousie}
use haussteuerung.Jalousie.Timer.{
  Command, auf_by, ab_by, auf_all, ab_all, toggle_auf, toggle_ab, sonne, halt, run,
}
use haussteuerung.Terrasse
use haussteuerung.Terrasse.{Terrasse}

-- The tests on the word of a message for a shutter, in their order; `standing` is whether the
-- drive of the shutter is at rest.
unfoldable pub jal_call : Bool → Text → Option (ℕ → Command)
jal_call standing tmp1 =
    if contains tmp1 (codes "STP")
    then some halt
    else if contains tmp1 (codes "IMPAB")
    then some (λ j. ab_by j impulszeit)
    else if contains tmp1 (codes "IMPAUF")
    then some (λ j. auf_by j impulszeit)
    else if contains tmp1 (codes "TAUF")
    then some toggle_auf
    else if contains tmp1 (codes "TAB")
    then some toggle_ab
    else if contains tmp1 (codes "TIMPAB")
    then (if standing then some (λ j. ab_by j impulszeit) else none)
    else if contains tmp1 (codes "TIMPAUF")
    then (if standing then some (λ j. auf_by j impulszeit) else none)
    else if contains tmp1 (codes "AUF")
    then some auf_all
    else if contains tmp1 (codes "AB")
    then some ab_all
    else if contains tmp1 (codes "SUN")
    then some sonne
    else none

-- `JalNr`, the byte behind the underline less 48, where it is the number of a shutter.
unfoldable pub jal_nr : Text → Option ℕ
jal_nr [] = none
jal_nr (c ∷ rest) = if leb b'0' c && leb c b'3' then some (c - b'0') else none

-- `msgsndAllJal`: the messages that it writes, the first one first.
unfoldable pub all_messages : Bool → Text → List Text
all_messages jal_2_open mtext =
    let strtmp = until b'_' mtext ++ b'_' ∷ [] in
    let behind = (strtmp ++ b'2' ∷ []) ∷ (strtmp ++ b'3' ∷ []) ∷ [] in
    (strtmp ++ b'0' ∷ []) ∷ (if jal_2_open then behind else (strtmp ++ b'1' ∷ []) ∷ behind)

-- The branch CMD_JAL; the second part are the messages that go into the queue.
unfoldable pub dispatch_jal : Bool → Text → Jalousie → Option (Jalousie × List Text)
dispatch_jal created mtext s = elim (after (codes "value=") mtext) [
  | none ↦ none
  | some tmp1 ↦ elim (after (codes "_") tmp1) [
    | none ↦ none
    | some rest ↦
        if contains (b'_' ∷ rest) (codes "ALL")
        then some (s, all_messages false mtext)
        else elim (jal_nr rest) [
          | none ↦ elim (jal_call true tmp1) [ none ↦ some (s, []) | some _ ↦ none ]
          | some j ↦ elim (jal_call (s.drvstate j == stop) tmp1) [
            | none ↦ some (s, [])
            | some call ↦ some (run created (call j) s, [])
          ]
        ]
  ]
]

-- The valve that a message for watering names.
unfoldable pub valve_of : Text → Option ℕ
valve_of tmp =
    if contains tmp (codes "VENTIL_1")
    then some ventil_1
    else if contains tmp (codes "VENTIL_2")
    then some ventil_2
    else none

-- `sscanf(tmp1, "%d", &Dauer)`: `Dauer` keeps its value, where there is no number. The number is
-- read as a `long` and becomes an `int`.
unfoldable pub read_dauer : ℤ → Text → ℤ
read_dauer held s = if has_number (skip_space s) then to_int (to_long (strtol s).0) else held

-- The branch CMD_WATER; `held` is what `Dauer` holds from an earlier message.
unfoldable pub dispatch_water :
    (ini : Ini) → Ini.Dict ini → Bool → ℤ → Text → Terrasse → Option Terrasse
dispatch_water ini conf created held mtext t = elim (after (codes "value=") mtext) [
  | none ↦ none
  | some tmp ↦ elim (valve_of tmp) [
    | none ↦ some t
    | some index ↦
        if contains tmp (codes "START")
        then some (Terrasse.set_ventil index an t)
        else if contains tmp (codes "STOP")
        then some (Terrasse.set_ventil index aus t)
        else elim (after (codes "TIMER:") tmp) [
          | some tmp1 ↦ some (Terrasse.start_ventil_timer created index (read_dauer held tmp1) t)
          | none ↦
              if contains tmp (codes "TIMER")
              then some (Terrasse.start_ventil_timer_conf ini conf created index t)
              else some t
        ]
  ]
]
