-- ===== src/ConfigFile/Answers.antt =====
-- What a client gets for CMD_GET_CONFIG, src/haussteuerung.cpp.
use haussteuerung.Prelude.{
  ℕ, zero, suc, ◌+◌, ◌-◌, ◌≡◌, refl, Bool, true, false, not, ◌&&◌, List, [], ◌∷◌, ◌++◌, Option,
  none, some, if◌then◌else◌, ◌==◌, ltb, length, length-append, take, drop, take-drop, length-drop,
  arith, Bool-cases, inl, inr,
}
use mathlib.Core.List.{append_assoc, append-nil}
use haussteuerung.Prelude.Int.{pos}
use haussteuerung.Prelude.Text.{Text, codes, after, atoi}
use haussteuerung.GuiTcpServer.{GuiTcpServer, send_config}
use haussteuerung.Requests.{asking_client}
use haussteuerung.Replace.Tokens.{substitute, spaced, replace_lem}
use haussteuerung.ConfigFile.{
  Tag, hs_conf, hslight, logfile, log_inv, Files, opened, lines_to_send, read_file, xml_tail,
  filebuffer, answer, dispatch_get_config,
}
use haussteuerung.ConfigFile.Reads.{
  ends_line, all_lines, joined, all_lines-append, joined-append, count_lines-joined, zeilen-joined,
}
use haussteuerung.ConfigFile.Backwards.{upwards, length-upwards, read_invers_lem}

-- No two `&` stand beside each other; the flag says that one is in front of the text.
abbrev pub apart : Bool → Text → Bool
apart front [] = true
apart front (c ∷ s) = if c == b'&' then not front && apart true s else apart false s

abbrev pub all_apart : List Text → Bool
all_apart [] = true
all_apart (l ∷ more) = apart false l && all_apart more

spaced-apart :
    (front : Bool) (s v : Text)
    → apart front s ≡ true
    → spaced b'&' front (s ++ (b'<' ∷ v)) ≡ spaced b'&' false v
spaced-apart front [] v h = refl
spaced-apart front (c ∷ s) v h = elim (Bool-cases (c == b'&')) [
  | inl y ↦ ground (arith, y, h, spaced-apart true s v)
  | inr n ↦ ground (arith, n, h, spaced-apart false s v)
]

spaced-line :
    (front : Bool) (l u : Text)
    → ends_line l ≡ true
    → spaced b'&' front (l ++ u) ≡ (apart front l && spaced b'&' false u)
spaced-line front [] u h = ground (arith, h)
spaced-line front (c ∷ []) u h = ground (arith, h)
spaced-line front (c ∷ d ∷ s) u h = elim (Bool-cases (c == b'&')) [
  | inl y ↦ ground (arith, y, h, spaced-line true (d ∷ s) u)
  | inr n ↦ ground (arith, n, h, spaced-line false (d ∷ s) u)
]

spaced-upwards :
    (ls : List Text) (u : Text)
    → all_lines ls ≡ true
    → all_apart ls ≡ true
    → spaced b'&' false u ≡ true
    → spaced b'&' false (upwards ls ++ u) ≡ true
spaced-upwards [] u h a e = e
spaced-upwards (l ∷ ls) u h a e = ground (
  arith,
  h,
  a,
  append_assoc (upwards ls) l u,
  spaced-upwards ls (l ++ u) (ground (arith, h)) (ground (arith, a))
      (ground (arith, h, a, e, spaced-line false l u)),
)

-- The head and the tail leave the condition to the body.
spaced-filebuffer :
    (tag : Tag) (body : Text)
    → spaced b'&' false (body ++ xml_tail tag) ≡ true
    → spaced b'&' true (filebuffer tag body) ≡ true
unfolding filebuffer
spaced-filebuffer hs_conf body h = h
spaced-filebuffer hslight body h = h
spaced-filebuffer logfile body h = h
spaced-filebuffer log_inv body h = h

-- What the client gets for a text that was read in full.
abbrev pub sent_for : Tag → Text → Text
sent_for tag body = substitute b'&' (codes "&amp;") (filebuffer tag body)

answer_lem :
    (log_on : Bool) (tag : Tag) (s body : Text)
    → read_file log_on tag s ≡ some (length body, body)
    → spaced b'&' false (body ++ xml_tail tag) ≡ true
    → answer log_on tag s ≡ some (some (sent_for tag body))
unfolding answer
answer_lem log_on tag s body r h =
    let replaced =
      replace_lem b'&' (codes "&amp;") (filebuffer tag body) (spaced-filebuffer tag body h) in
    ground (arith, r, replaced)

-- The lines of a log that are sent backwards, 50 at most.
abbrev pub last_lines : List Text → List Text
last_lines ls = drop (length ls - 50) ls

-- The lines in front of those that are sent, and those.
read_file-split :
    (ps ks : List Text)
    → all_lines (ps ++ ks) ≡ true
    → length ks ≡ lines_to_send (length (ps ++ ks))
    → read_file true log_inv (joined (ps ++ ks)) ≡ some (length (joined ks), upwards ks)
unfolding read_file
read_file-split ps ks h r =
    let s = joined (ps ++ ks) in
    let lines : ((all_lines ps && all_lines ks) ≡ true) =
      ground (arith, h, all_lines-append ps ks) in
    let count = count_lines-joined (ps ++ ks) h in
    let sum = length-append ps ks in
    let place : (length (ps ++ ks) - lines_to_send (length (ps ++ ks)) ≡ length ps) =
      omega (arith, sum, r) in
    let start = zeilen-joined ps ks (ground (arith, lines)) in
    let whole : (length s ≡ length (joined ps) + length (joined ks)) =
      ground (arith, joined-append ps ks, length-append (joined ps) (joined ks)) in
    let n = length (joined ks) in
    let size : (length s - length (joined ps) ≡ n) = omega (arith, whole) in
    let text : (s ≡ joined (ps ++ (ks ++ []))) = ground (arith, append-nil ks) in
    let read =
      read_invers_lem (length ks) 0 ps ks [] s (length (ps ++ ks)) n [] text lines refl
        (omega (arith, sum)) (omega arith) in
    ground (arith, count, place, r, start, size, read)

read_file-upwards :
    (ls : List Text)
    → all_lines ls ≡ true
    → let body = upwards (last_lines ls) in
      read_file true log_inv (joined ls) ≡ some (length body, body)
read_file-upwards ls h =
    let k = length ls - 50 in
    let whole = take-drop k ls in
    let sent : (length (drop k ls) ≡ lines_to_send (length ls)) =
      ground (arith, length-drop k ls) in
    ground (
      arith,
      whole,
      length-upwards (drop k ls),
      read_file-split (take k ls) (drop k ls) (ground (arith, whole, h))
          (ground (arith, whole, sent)),
    )

all_lines-drop : (k : ℕ) (ls : List Text) → all_lines ls ≡ true → all_lines (drop k ls) ≡ true
all_lines-drop zero ls h = h
all_lines-drop (suc k) [] h = h
all_lines-drop (suc k) (l ∷ ls) h = ground (arith, h, all_lines-drop k ls)

all_apart-drop : (k : ℕ) (ls : List Text) → all_apart ls ≡ true → all_apart (drop k ls) ≡ true
all_apart-drop zero ls h = h
all_apart-drop (suc k) [] h = h
all_apart-drop (suc k) (l ∷ ls) h = ground (arith, h, all_apart-drop k ls)

-- A client that asks for the log backwards (value 4) gets the last 50 lines of the log, or all of
-- a shorter log, from the last line to the first one, inside the head and the element `log_inv`,
-- with `&` written as `&amp;`. The program writes its log to that file, each line of the file
-- ends with a newline and has 255 bytes at most, and no two `&` stand beside each other in one.
pub invers_lem :
    (client : ℕ) (mtext tmp : Text) (f : Files) (ls : List Text) (s : GuiTcpServer)
    → after (codes "value=") mtext ≡ some tmp
    → atoi tmp ≡ pos 4
    → f.log ≡ some (joined ls)
    → all_lines ls ≡ true
    → all_apart ls ≡ true
    → dispatch_get_config true client mtext f s
      ≡ some
          (send_config (asking_client client mtext) (sent_for log_inv (upwards (last_lines ls))) s)
unfolding dispatch_get_config opened
invers_lem client mtext tmp f ls s t v file h a =
    let k = length ls - 50 in
    let body = upwards (last_lines ls) in
    let apart =
      spaced-upwards (drop k ls) (xml_tail log_inv) (all_lines-drop k ls h) (all_apart-drop k ls a)
        refl in
    let sent = answer_lem true log_inv (joined ls) body (read_file-upwards ls h) apart in
    ground (arith, t, v, file, sent)

-- What is shown of the other files: all of a configuration, the last 10,000 bytes of the log.
abbrev pub shown : Tag → Text → Option Text
shown hs_conf file = some file
shown hslight file = some file
shown logfile file = some (drop (length file - 10000) file)
shown log_inv file = none

read_file-shown :
    (log_on : Bool) (tag : Tag) (file body : Text)
    → shown tag file ≡ some body
    → read_file log_on tag file ≡ some (length body, body)
unfolding read_file
read_file-shown log_on hs_conf file body h = ground (arith, h)
read_file-shown log_on hslight file body h = ground (arith, h)
read_file-shown log_on logfile file body h = elim (Bool-cases (ltb 10000 (length file))) [
  | inl y ↦ ground (arith, y, h, length-drop (length file - 10000) file)
  | inr n ↦ let all : (length file - 10000 ≡ 0) = ground (arith, n) in ground (arith, n, h, all)
]
read_file-shown log_on log_inv file body h = ground (arith, h)

spaced-tail :
    (tag : Tag) (body : Text)
    → apart false body ≡ true
    → spaced b'&' false (body ++ xml_tail tag) ≡ true
spaced-tail hs_conf body h = spaced-apart false body (codes "/hs_conf>\n") h
spaced-tail hslight body h = spaced-apart false body (codes "/hslight>\n") h
spaced-tail logfile body h = spaced-apart false body (codes "/logfile>\n") h
spaced-tail log_inv body h = spaced-apart false body (codes "/log_inv>\n") h

-- A client that asks for a file that can be opened, other than for the log backwards, gets it
-- inside the head and the element of its name, with `&` written as `&amp;`: all bytes of a
-- configuration, the last 10,000 bytes of the log. No two `&` stand beside each other in what is
-- shown.
pub file_lem :
    (log_on : Bool) (client : ℕ) (mtext tmp : Text) (f : Files) (tag : Tag) (file body : Text)
    (s : GuiTcpServer)
    → after (codes "value=") mtext ≡ some tmp
    → opened (atoi tmp) f ≡ some (tag, file)
    → shown tag file ≡ some body
    → apart false body ≡ true
    → dispatch_get_config log_on client mtext f s
      ≡ some (send_config (asking_client client mtext) (sent_for tag body) s)
unfolding dispatch_get_config
file_lem log_on client mtext tmp f tag file body s t o h a =
    let sent =
      answer_lem log_on tag file body (read_file-shown log_on tag file body h)
        (spaced-tail tag body a) in
    ground (arith, t, o, sent)
