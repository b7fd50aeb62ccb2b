-- ===== src/ConfigFile.antt =====
-- The branch CMD_GET_CONFIG of the dispatch in src/haussteuerung.cpp: a file is sent to a client,
-- with `countLines` of src/log.cpp. A file is the list of its bytes, none of them 0. The outer
-- `none` of a result is the use of a null pointer, or of a pointer that was never set.
pub mod Reads
pub mod Backwards
pub mod Answers
pub mod Buffer
pub mod Tests
use haussteuerung.Prelude.{
  ℕ, zero, suc, ◌+◌, ◌-◌, Bool, true, false, [], ◌∷◌, ◌++◌, Option, none, some, if◌then◌else◌, ◌==◌,
  ltb, ◌>>=◌, length, drop,
}
use haussteuerung.Prelude.Int.{ℤ, pos, same_ℤ}
use haussteuerung.Prelude.Text.{Text, codes, after, atoi}
use haussteuerung.Config.Request
use haussteuerung.GuiTcpServer.{GuiTcpServer, send_config}
use haussteuerung.Requests.{asking_client}
use haussteuerung.Replace.{string_replace}

-- What `fgets` reads with a buffer for one byte more than `limit`.
unfoldable pub fgets : ℕ → Text → Text
fgets zero s = []
fgets (suc limit) [] = []
fgets (suc limit) (c ∷ s) = let more = fgets limit s in if c == b'\n' then c ∷ [] else c ∷ more

-- `feof` after that read.
unfoldable pub meets_end : ℕ → Text → Bool
meets_end zero s = false
meets_end (suc limit) [] = true
meets_end (suc limit) (c ∷ s) = let more = meets_end limit s in if c == b'\n' then false else more

-- The first loop of `countLines`. A read takes a byte or meets the end of the file.
unfoldable pub count_reads : ℕ → Text → ℕ
count_reads zero s = 0
count_reads (suc fuel) s =
    let more = count_reads fuel (drop (length (fgets 255 s)) s) in
    if meets_end 255 s then 1 else suc more

-- `countLines` where the log is written to its file: the number, and `zeilen[i]`.
unfoldable pub count_lines : Text → ℕ
count_lines s = count_reads (suc (length s)) s - 1

unfoldable pub zeilen : Text → ℕ → ℕ
zeilen s zero = 0
zeilen s (suc i) = let read = length (fgets 255 s) in read + zeilen (drop read s) i

pub data Tag : Type 0 where
  hs_conf hslight logfile log_inv : Tag

abbrev pub tag_name : Tag → Text
tag_name hs_conf = codes "hs_conf"
tag_name hslight = codes "hslight"
tag_name logfile = codes "logfile"
tag_name log_inv = codes "log_inv"

-- The three files, `none` where `fopen` fails.
pub record Files : Type 0 where
  pub conf : Option Text
  pub light : Option Text
  pub log : Option Text

-- `startTag` and `configfile` for a value.
unfoldable pub opened : ℤ → Files → Option (Tag × Text)
opened value f =
    if same_ℤ value (pos Request.config_hs)
    then (f.conf >>= λ s. some (hs_conf, s))
    else if same_ℤ value (pos Request.config_light)
    then (f.light >>= λ s. some (hslight, s))
    else if same_ℤ value (pos Request.logfile)
    then (f.log >>= λ s. some (logfile, s))
    else if same_ℤ value (pos Request.logfile_invers)
    then (f.log >>= λ s. some (log_inv, s))
    else none

-- `zeilenAnzahlAuszugeben`
abbrev pub lines_to_send : ℕ → ℕ
lines_to_send anzahl = if ltb anzahl 50 then anzahl else 50

-- The loop over the lines from the last one on. `out` is what stands behind the head, and a read
-- that finds nothing gives a null pointer, unless there is room for the closing 0 only.
unfoldable pub read_invers : ℕ → ℕ → Text → ℕ → ℕ → Text → Option Text
read_invers zero i s anzahl filesize out = some out
read_invers (suc rounds) i s anzahl filesize out =
    let limit = filesize - length out in
    let line = fgets limit (drop (zeilen s (anzahl - i - 1)) s) in
    let rest = read_invers rounds (i + 1) s anzahl filesize (out ++ line) in
    if length line == 0 then if limit == 0 then rest else none else rest

-- `filesize` and what is read behind the head; its length is `filesizeChk`.
unfoldable pub read_file : Bool → Tag → Text → Option (ℕ × Text)
read_file log_on hs_conf s = some (length s, s)
read_file log_on hslight s = some (length s, s)
read_file log_on logfile s =
    if ltb 10000 (length s) then some (10000, drop (length s - 10000) s) else some (length s, s)
read_file log_on log_inv s =
    let anzahl = count_lines s in
    let rounds = lines_to_send anzahl in
    let filesize = length s - zeilen s (anzahl - rounds) in
    if log_on
    then (read_invers rounds 0 s anzahl filesize [] >>= λ out. some (filesize, out))
    else none

-- What `malloc` is asked for.
abbrev pub buffer_size : ℕ → ℕ
buffer_size filesize = filesize + 59

abbrev pub xml_head : Tag → Text
xml_head tag = codes "<?xml version=\"1.0\" encoding=\"UTF-8\"?><" ++ (tag_name tag ++ codes ">")

abbrev pub xml_tail : Tag → Text
xml_tail tag = codes "</" ++ (tag_name tag ++ codes ">\n")

-- `filebuffer` in front of `stringReplace`.
unfoldable pub filebuffer : Tag → Text → Text
filebuffer tag body = xml_head tag ++ (body ++ xml_tail tag)

-- What is sent; the inner `none` is a file of which not all was read.
unfoldable pub answer : Bool → Tag → Text → Option (Option Text)
answer log_on tag s = read_file log_on tag s >>= λ (filesize, body). some (
    if length body == filesize
    then some (string_replace (codes "&") (codes "&amp;") (filebuffer tag body))
    else none)

unfoldable pub dispatch_get_config : Bool → ℕ → Text → Files → GuiTcpServer → Option GuiTcpServer
dispatch_get_config log_on client mtext f s = after (codes "value=") mtext >>= λ tmp.
    elim (opened (atoi tmp) f) [
      | none ↦ some s
      | some (tag, file) ↦
          (answer log_on tag file >>= λ sent.
          some (elim sent [ none ↦ s | some buf ↦ send_config (asking_client client mtext) buf s ]))
    ]
