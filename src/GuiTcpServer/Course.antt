-- ===== src/GuiTcpServer/Course.antt =====
-- From a line of the user interface to the drive of a shutter: src/guitcpserver.cpp,
-- src/sharedMem.cpp and src/haussteuerung.cpp together.
use haussteuerung.Prelude.{
  ℕ, zero, suc, ◌+◌, ◌<◌, ◌/◌, ◌%◌, ◌≤◌, ◌≡◌, refl, ap, ◌∙◌, Bool, true, not, ◌&&◌, [], ◌∷◌, ◌++◌,
  none, some, leb, drop, length, arith,
}
use mathlib.Core.List.{append-nil}
use haussteuerung.Prelude.Text.{
  Text, codes, skip_space, digit_value, contains, after, strip_prefix, until, print_dec, emit, scan,
  digit_char, contains_prefix,
}
use haussteuerung.Config.Cmd
use haussteuerung.E6UdpServer.{Message}
use haussteuerung.Jalousie.State.{Jalousie}
use haussteuerung.Jalousie.Timer.{run}
use haussteuerung.Dispatch.{dispatch_jal, jal_call, jal_nr}
use haussteuerung.Dispatch.Shutters.{
  Word, stp, impab, impauf, tauf, tab, timpab, timpauf, auf, ab, sun, word_text, meaning,
  message_of,
}
use haussteuerung.MsgQueue.{write_to_queue, read_from_queue, strtol_0, digits_0, long_of}
use haussteuerung.MsgQueue.RoundTrip.{has_no_0, emit-no_0, read_from_queue-write_to_queue}
use haussteuerung.GuiTcpServer.{line_message, take_lines, lines_from, lines}

-- No byte is a capital letter.
abbrev no_capital : Text → Bool
no_capital [] = true
no_capital (c ∷ s) = not (leb b'A' c && leb c b'Z') && no_capital s

after-no_capital :
    (p : ℕ) (ps s : Text) → b'A' ≤ p → p ≤ b'Z' → no_capital s ≡ true → after (p ∷ ps) s ≡ none
unfolding after strip_prefix
after-no_capital p ps [] l h n = refl
after-no_capital p ps (c ∷ s) l h n = ground (arith, after-no_capital p ps s)

-- Nor then is there a word that the branch for the shutters tests.
quiet :
    (s : Text)
    → no_capital s ≡ true
    → (after (codes "ALL") s ≡ none)
      × (after (codes "STP") s ≡ none)
      × (after (codes "IMPAB") s ≡ none)
      × (after (codes "IMPAUF") s ≡ none)
      × (after (codes "TAUF") s ≡ none)
      × (after (codes "TAB") s ≡ none)
      × (after (codes "TIMPAB") s ≡ none)
      × (after (codes "TIMPAUF") s ≡ none)
      × (after (codes "AUF") s ≡ none)
      × (after (codes "AB") s ≡ none)
quiet s n = (
  after-no_capital b'A' (codes "LL") s (omega arith) (omega arith) n,
  after-no_capital b'S' (codes "TP") s (omega arith) (omega arith) n,
  after-no_capital b'I' (codes "MPAB") s (omega arith) (omega arith) n,
  after-no_capital b'I' (codes "MPAUF") s (omega arith) (omega arith) n,
  after-no_capital b'T' (codes "AUF") s (omega arith) (omega arith) n,
  after-no_capital b'T' (codes "AB") s (omega arith) (omega arith) n,
  after-no_capital b'T' (codes "IMPAB") s (omega arith) (omega arith) n,
  after-no_capital b'T' (codes "IMPAUF") s (omega arith) (omega arith) n,
  after-no_capital b'A' (codes "UF") s (omega arith) (omega arith) n,
  after-no_capital b'A' (codes "B") s (omega arith) (omega arith) n,
)

word_tail :
    (created : Bool) (w : Word) (j : ℕ) (v : Text) (s : Jalousie)
    → jal_nr v ≡ some j
    → no_capital v ≡ true
    → dispatch_jal created (32 ∷ message_of w v) s ≡ some (run created (meaning w j) s, [])
unfolding dispatch_jal jal_call contains after strip_prefix
word_tail created stp j v s h n = ground (arith, h, quiet v n)
word_tail created impab j v s h n = ground (arith, h, quiet v n)
word_tail created impauf j v s h n = ground (arith, h, quiet v n)
word_tail created tauf j v s h n = ground (arith, h, quiet v n)
word_tail created tab j v s h n = ground (arith, h, quiet v n)
word_tail created timpab j v s h n = ground (arith, h, quiet v n)
word_tail created timpauf j v s h n = ground (arith, h, quiet v n)
word_tail created auf j v s h n = ground (arith, h, quiet v n)
word_tail created ab j v s h n = ground (arith, h, quiet v n)
word_tail created sun j v s h n = ground (arith, h, quiet v n)

-- The line of the user interface for a word and a shutter, and what stands behind the number in
-- the message that comes of it.
abbrev pub gui_line : Word → ℕ → Text
gui_line w j = codes "cmd=1 " ++ message_of w ((b'0' + j) ∷ [])

abbrev pub gui_tail : ℕ → Text
gui_tail client = codes " client=" ++ print_dec client (10 ∷ [])

abbrev pub gui_command : ℕ → Word → ℕ → Message
gui_command client w j = record {
  mtyp = Cmd.jal;
  mtext = message_of w ((b'0' + j) ∷ gui_tail client);
}

gui_message :
    (client j : ℕ) (w : Word) → line_message client (gui_line w j) ≡ some (gui_command client w j)
unfolding line_message after strip_prefix digits_0 long_of strtol_0 skip_space digit_value scan
gui_message client j stp = refl
gui_message client j impab = refl
gui_message client j impauf = refl
gui_message client j tauf = refl
gui_message client j tab = refl
gui_message client j timpab = refl
gui_message client j timpauf = refl
gui_message client j auf = refl
gui_message client j ab = refl
gui_message client j sun = refl

emit-no_capital : (f n : ℕ) (s : Text) → no_capital s ≡ true → no_capital (emit f 10 n s) ≡ true
unfolding emit
emit-no_capital zero n s h = ground arith
emit-no_capital (suc f) n s h = ground (arith, emit-no_capital f (n / 10) (digit_char (n % 10) ∷ s))

tail-no_capital : (client j : ℕ) → j < 4 → no_capital ((b'0' + j) ∷ gui_tail client) ≡ true
unfolding print_dec
tail-no_capital client j h = ground (arith, emit-no_capital client client (10 ∷ []) refl)

tail-no_0 : (client : ℕ) → has_no_0 (gui_tail client) ≡ true
unfolding print_dec
tail-no_0 client = emit-no_0 client client (10 ∷ []) refl

message-no_0 :
    (w : Word) (j : ℕ) (tail : Text)
    → has_no_0 tail ≡ true
    → has_no_0 (message_of w ((b'0' + j) ∷ tail)) ≡ true
message-no_0 stp j tail h = ground (arith, h)
message-no_0 impab j tail h = ground (arith, h)
message-no_0 impauf j tail h = ground (arith, h)
message-no_0 tauf j tail h = ground (arith, h)
message-no_0 tab j tail h = ground (arith, h)
message-no_0 timpab j tail h = ground (arith, h)
message-no_0 timpauf j tail h = ground (arith, h)
message-no_0 auf j tail h = ground (arith, h)
message-no_0 ab j tail h = ground (arith, h)
message-no_0 sun j tail h = ground (arith, h)

message-value : (w : Word) (v : Text) → contains (message_of w v) (codes "value=") ≡ true
message-value w v = contains_prefix (codes "value=") (word_text w ++ b'_' ∷ v)

gui_lines : (w : Word) (j : ℕ) → j < 4 → lines (gui_line w j ++ 10 ∷ []) ≡ gui_line w j ∷ []
unfolding lines lines_from
gui_lines stp j h = ground (arith, h)
gui_lines impab j h = ground (arith, h)
gui_lines impauf j h = ground (arith, h)
gui_lines tauf j h = ground (arith, h)
gui_lines tab j h = ground (arith, h)
gui_lines timpab j h = ground (arith, h)
gui_lines timpauf j h = ground (arith, h)
gui_lines auf j h = ground (arith, h)
gui_lines ab j h = ground (arith, h)
gui_lines sun j h = ground (arith, h)

-- A client sends a line with one of the ten words and the number of a shutter. It becomes one
-- message; the main loop reads it from the queue, where nothing of an earlier message stands
-- behind it in the buffer of the reader, and gives the command of that word to that shutter.
pub gui_lem :
    (client : ℕ) (w : Word) (j : ℕ) (own buffer : Text) (created : Bool) (s : Jalousie)
    → j < 4
    → until 0 (drop (length (write_to_queue (gui_command client w j) own).1) buffer) ≡ []
    → (take_lines 1 client (lines (gui_line w j ++ 10 ∷ [])) []
        ≡ some (gui_command client w j ∷ []))
      × (m : Message) × (read_from_queue (write_to_queue (gui_command client w j) own).1 buffer
          ≡ some m)
      × (m.mtyp ≡ Cmd.jal)
      × (dispatch_jal created m.mtext s ≡ some (run created (meaning w j) s, []))
unfolding take_lines
gui_lem client w j own buffer created s h clean =
    let sent = gui_command client w j in
    let text = sent.mtext in
    let back =
      read_from_queue-write_to_queue sent own buffer (omega arith)
        (message-value w ((b'0' + j) ∷ gui_tail client))
        (message-no_0 w j (gui_tail client) (tail-no_0 client)) in
    let digit : jal_nr ((b'0' + j) ∷ gui_tail client) ≡ some j =
      unfold jal_nr in ground (arith, h) in
    (
      ground (arith, gui_lines w j h, gui_message client j w),
      record { mtyp = Cmd.jal; mtext = 32 ∷ text },
      back
          ∙ ap (λ left. some (record { mtyp = Cmd.jal; mtext = 32 ∷ (text ++ left) })) clean
          ∙ ap (λ x. some (record { mtyp = Cmd.jal; mtext = 32 ∷ x })) (append-nil text),
      refl,
      word_tail created w j ((b'0' + j) ∷ gui_tail client) s digit (tail-no_capital client j h),
    )
