-- ===== src/Dispatch/Shutters.antt =====
-- What each message for the shutters does, src/haussteuerung.cpp.
use haussteuerung.Prelude.{
  ℕ, zero, suc, ◌+◌, ◌<◌, ◌≡◌, refl, ap, ◌∙◌, Bool, List, [], ◌∷◌, ◌++◌, Option, none, some, arith,
}
use mathlib.Core.List.{append-nil}
use haussteuerung.Prelude.Text.{Text, codes, contains, after, strip_prefix, until}
use haussteuerung.Config.{impulszeit}
use haussteuerung.Jalousie.State.{Jalousie}
use haussteuerung.Jalousie.Timer.{
  Command, auf_by, ab_by, auf_all, ab_all, toggle_auf, toggle_ab, sonne, halt, run,
}
use haussteuerung.Dispatch.{jal_call, jal_nr, all_messages, dispatch_jal}

-- The words of the web interface, of the remote control and of the program itself.
pub data Word : Type 0 where
  stp impab impauf tauf tab timpab timpauf auf ab sun : Word

abbrev pub word_text : Word → Text
word_text stp = codes "STP"
word_text impab = codes "IMPAB"
word_text impauf = codes "IMPAUF"
word_text tauf = codes "TAUF"
word_text tab = codes "TAB"
word_text timpab = codes "TIMPAB"
word_text timpauf = codes "TIMPAUF"
word_text auf = codes "AUF"
word_text ab = codes "AB"
word_text sun = codes "SUN"

-- TIMPAB and TIMPAUF move a shutter for an impulse whether it stands or not, as IMPAB and IMPAUF.
abbrev pub meaning : Word → ℕ → Command
meaning stp = halt
meaning impab = λ j. ab_by j impulszeit
meaning impauf = λ j. auf_by j impulszeit
meaning tauf = toggle_auf
meaning tab = toggle_ab
meaning timpab = λ j. ab_by j impulszeit
meaning timpauf = λ j. auf_by j impulszeit
meaning auf = auf_all
meaning ab = ab_all
meaning sun = sonne

abbrev pub message_of : Word → Text → Text
message_of w target = codes "value=" ++ word_text w ++ b'_' ∷ target

-- A message with one of the ten words and the number of a shutter is the command of that word to
-- that shutter; TIMPAB and TIMPAUF mean what IMPAB and IMPAUF do, also for a shutter that moves.
pub word_lem :
    (created : Bool) (w : Word) (j : ℕ) (s : Jalousie)
    → j < 4
    → dispatch_jal created (message_of w ((b'0' + j) ∷ [])) s
      ≡ some (run created (meaning w j) s, [])
unfolding dispatch_jal jal_call jal_nr contains after strip_prefix
word_lem created stp j s h = ground arith
word_lem created impab j s h = ground arith
word_lem created impauf j s h = ground arith
word_lem created tauf j s h = ground arith
word_lem created tab j s h = ground arith
word_lem created timpab j s h = ground arith
word_lem created timpauf j s h = ground arith
word_lem created auf j s h = ground arith
word_lem created ab j s h = ground arith
word_lem created sun j s h = ground arith

all_messages_lem :
    (created : Bool) (w : Word) (s : Jalousie)
    → dispatch_jal created (message_of w (codes "ALL")) s
      ≡ some (
        s,
        message_of w (b'0' ∷ [])
            ∷ message_of w (b'1' ∷ [])
            ∷ message_of w (b'2' ∷ [])
            ∷ message_of w (b'3' ∷ [])
            ∷ [],
      )
unfolding dispatch_jal all_messages until contains after strip_prefix
all_messages_lem created stp s = refl
all_messages_lem created impab s = refl
all_messages_lem created impauf s = refl
all_messages_lem created tauf s = refl
all_messages_lem created tab s = refl
all_messages_lem created timpab s = refl
all_messages_lem created timpauf s = refl
all_messages_lem created auf s = refl
all_messages_lem created ab s = refl
all_messages_lem created sun s = refl

-- The main loop takes the messages of a queue in their order; what one writes goes to the end.
unfoldable pub take_all : ℕ → Bool → List Text → Jalousie → Option Jalousie
take_all rounds created [] s = some s
take_all zero created (m ∷ ms) s = none
take_all (suc rounds) created (m ∷ ms) s = elim (dispatch_jal created m s) [
  | none ↦ none
  | some (s', more) ↦ take_all rounds created (ms ++ more) s'
]

pub take_all-step :
    (rounds : ℕ) (created : Bool) (m : Text) (ms more : List Text) (s s' : Jalousie)
    → dispatch_jal created m s ≡ some (s', more)
    → take_all (suc rounds) created (m ∷ ms) s ≡ take_all rounds created (ms ++ more) s'
unfolding take_all
take_all-step rounds created m ms more s s' e = ground (arith, e)

take_word :
    (rounds : ℕ) (created : Bool) (w : Word) (j : ℕ) (ms : List Text) (s : Jalousie)
    → j < 4
    → take_all (suc rounds) created (message_of w ((b'0' + j) ∷ []) ∷ ms) s
      ≡ take_all rounds created ms (run created (meaning w j) s)
take_word rounds created w j ms s h =
    take_all-step rounds created _ ms [] s _ (word_lem created w j s h)
    ∙ ap (λ l. take_all rounds created l (run created (meaning w j) s)) (append-nil ms)

-- A message for ALL drives the four shutters, one after the other, by the command of its word: the
-- loop has taken the message and the four that come of it after five rounds.
pub all_lem :
    (created : Bool) (w : Word) (s : Jalousie)
    → take_all 5 created (message_of w (codes "ALL") ∷ []) s
      ≡ some (
          run created
            (meaning w 3)
            (run created (meaning w 2) (run created (meaning w 1) (run created (meaning w 0) s))))
unfolding take_all
all_lem created w s =
    let s0 = run created (meaning w 0) s in
    let s1 = run created (meaning w 1) s0 in
    let s2 = run created (meaning w 2) s1 in
    let three = message_of w (b'3' ∷ []) ∷ [] in
    let two = message_of w (b'2' ∷ []) ∷ three in
    let one = message_of w (b'1' ∷ []) ∷ two in
    take_all-step 4 created _ [] _ s s (all_messages_lem created w s)
    ∙ take_word 3 created w 0 one s (omega arith)
    ∙ take_word 2 created w 1 two s0 (omega arith)
    ∙ take_word 1 created w 2 three s1 (omega arith)
    ∙ take_word 0 created w 3 [] s2 (omega arith)
