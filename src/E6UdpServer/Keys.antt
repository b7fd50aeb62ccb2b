-- ===== src/E6UdpServer/Keys.antt =====
-- From a key of the remote control, src/e6udpserver.cpp, to the shutter that it moves,
-- src/haussteuerung.cpp.
use haussteuerung.Prelude.{ℕ, zero, suc, ◌+◌, ◌-◌, ◌<◌, ◌≡◌, refl, Bool, [], ◌∷◌, some, arith}
use haussteuerung.Prelude.Text.{codes, print_dec, emit}
use haussteuerung.Config.{
  adr_jal_all, adr_jal_0, fs20_left, fs20_right, fs20_left_cont, fs20_right_cont,
}
use haussteuerung.Config.Cmd
use haussteuerung.E6UdpServer.{Message, fs20_message, jal_text}
use haussteuerung.Jalousie.State.{Jalousie}
use haussteuerung.Jalousie.Timer.{run}
use haussteuerung.Dispatch.{dispatch_jal}
use haussteuerung.Dispatch.Shutters.{
  Word, tab, tauf, timpab, timpauf, message_of, meaning, word_lem, take_all, all_lem,
}

-- The four keys of a shutter: both buttons, pressed shortly or long.
pub data Key : Type 0 where
  left right left_cont right_cont : Key

abbrev pub befehl_of : Key → ℕ
befehl_of left = fs20_left
befehl_of right = fs20_right
befehl_of left_cont = fs20_left_cont
befehl_of right_cont = fs20_right_cont

abbrev pub word_of : Key → Word
word_of left = tab
word_of right = tauf
word_of left_cont = timpab
word_of right_cont = timpauf

digit_text : (j : ℕ) → j < 4 → print_dec (adr_jal_0 + j - adr_jal_0) [] ≡ (b'0' + j) ∷ []
unfolding print_dec emit
digit_text zero h = refl
digit_text (suc zero) h = refl
digit_text (suc (suc zero)) h = refl
digit_text (suc (suc (suc zero))) h = refl
digit_text (suc (suc (suc (suc j)))) h = absurd (omega arith)

one_text :
    (k : Key) (j : ℕ) (m : Message)
    → j < 4
    → fs20_message (adr_jal_0 + j) (befehl_of k) m
      ≡ record { mtyp = Cmd.jal; mtext = message_of (word_of k) ((b'0' + j) ∷ []) }
unfolding fs20_message jal_text
one_text left j m h = ground (arith, digit_text j)
one_text right j m h = ground (arith, digit_text j)
one_text left_cont j m h = ground (arith, digit_text j)
one_text right_cont j m h = ground (arith, digit_text j)

all_text :
    (k : Key) (m : Message)
    → fs20_message adr_jal_all (befehl_of k) m
      ≡ record { mtyp = Cmd.jal; mtext = message_of (word_of k) (codes "ALL") }
unfolding fs20_message jal_text
all_text left m = refl
all_text right m = refl
all_text left_cont m = refl
all_text right_cont m = refl

-- A key sent to the address of one shutter becomes a message for shutters, whatever message was
-- there before, that the main loop takes for the command of the key to that shutter; sent to the
-- address of all it moves the four, one after the other.
pub key_lem :
    (created : Bool) (k : Key) (j : ℕ) (m : Message) (s : Jalousie)
    → j < 4
    → let one = fs20_message (adr_jal_0 + j) (befehl_of k) m in
      let all = fs20_message adr_jal_all (befehl_of k) m in
      let move = meaning (word_of k) in
      (one.mtyp ≡ Cmd.jal)
      × (dispatch_jal created one.mtext s ≡ some (run created (move j) s, []))
      × (all.mtyp ≡ Cmd.jal)
      × (take_all 5 created (all.mtext ∷ []) s
          ≡ some (
              run created
                (move 3)
                (run created (move 2) (run created (move 1) (run created (move 0) s)))))
key_lem created k j m s h =
    rw (one_text k j m h, all_text k m)
      (refl, word_lem created (word_of k) j s h, refl, all_lem created (word_of k) s)
