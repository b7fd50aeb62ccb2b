-- ===== src/ConfigFile/Buffer.antt =====
-- The buffer of CMD_GET_CONFIG, src/haussteuerung.cpp.
use haussteuerung.Prelude.{
  ℕ, zero, suc, ◌+◌, ◌-◌, ◌≤◌, ◌≡◌, Bool, true, false, [], ◌∷◌, ◌++◌, some, length, length-append,
  drop, length-drop, arith, Option-cases, inl, inr,
}
use haussteuerung.Prelude.Text.{Text}
use haussteuerung.ConfigFile.{
  fgets, count_lines, zeilen, Tag, hs_conf, hslight, logfile, log_inv, lines_to_send, read_invers,
  read_file, buffer_size, xml_tail, filebuffer,
}

fgets-length : (limit : ℕ) (s : Text) → length (fgets limit s) ≤ limit
unfolding fgets
fgets-length zero s = omega arith
fgets-length (suc limit) [] = omega arith
fgets-length (suc limit) (c ∷ s) = ground (arith, fgets-length limit s)

read_invers-length :
    (rounds i : ℕ) (s : Text) (anzahl filesize : ℕ) (out body : Text)
    → length out ≤ filesize
    → read_invers rounds i s anzahl filesize out ≡ some body
    → length body ≤ filesize
unfolding read_invers
read_invers-length zero i s anzahl filesize out body h e = ground (arith, h, e)
read_invers-length (suc rounds) i s anzahl filesize out body h e =
    let line = fgets (filesize - length out) (drop (zeilen s (anzahl - i - 1)) s) in
    let fits = fgets-length (filesize - length out) (drop (zeilen s (anzahl - i - 1)) s) in
    let sum = length-append out line in
    let more =
      read_invers-length rounds (i + 1) s anzahl filesize (out ++ line) body
        (omega (arith, h, fits, sum)) in
    ground (arith, e, more)

-- What is read is never more than what was asked for.
read_file-length :
    (log_on : Bool) (tag : Tag) (s : Text) (filesize : ℕ) (body : Text)
    → read_file log_on tag s ≡ some (filesize, body)
    → length body ≤ filesize
unfolding read_file
read_file-length log_on hs_conf s filesize body e = ground (arith, e)
read_file-length log_on hslight s filesize body e = ground (arith, e)
read_file-length log_on logfile s filesize body e =
    ground (arith, e, length-drop (length s - 10000) s)
read_file-length false log_inv s filesize body e = ground (arith, e)
read_file-length true log_inv s filesize body e =
    let anzahl = count_lines s in
    let rounds = lines_to_send anzahl in
    let size = length s - zeilen s (anzahl - rounds) in
    elim (Option-cases (read_invers rounds 0 s anzahl size [])) [
      | inl n ↦ ground (arith, e, n)
      | inr (out, r) ↦
          ground (arith, e, r, read_invers-length rounds 0 s anzahl size [] out (omega arith) r)
    ]

filebuffer-length : (tag : Tag) (body : Text) → length (filebuffer tag body) ≡ length body + 58
unfolding filebuffer
filebuffer-length hs_conf body = omega (arith, length-append body (xml_tail hs_conf))
filebuffer-length hslight body = omega (arith, length-append body (xml_tail hslight))
filebuffer-length logfile body = omega (arith, length-append body (xml_tail logfile))
filebuffer-length log_inv body = omega (arith, length-append body (xml_tail log_inv))

-- Whatever file is read, of however long lines: its head, what is read of it, its tail and the
-- closing 0 fit into the buffer that was asked for.
pub buffer_lem :
    (log_on : Bool) (tag : Tag) (s : Text) (filesize : ℕ) (body : Text)
    → read_file log_on tag s ≡ some (filesize, body)
    → length (filebuffer tag body) + 1 ≤ buffer_size filesize
buffer_lem log_on tag s filesize body e =
    omega (arith, read_file-length log_on tag s filesize body e, filebuffer-length tag body)
