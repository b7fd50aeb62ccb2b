-- ===== src/ConfigFile/Backwards.antt =====
-- The loop of LOGFILE_INVERS, which reads the lines from the last one on, src/haussteuerung.cpp.
use haussteuerung.Prelude.{
  ℕ, zero, suc, ◌+◌, ◌-◌, ◌≤◌, ◌≡◌, refl, ap, sym, true, ◌&&◌, List, [], ◌∷◌, ◌++◌, some, length,
  length-append, drop, arith,
}
use mathlib.Core.List.{append_assoc, append-nil}
use haussteuerung.Prelude.Text.{Text}
use haussteuerung.ConfigFile.{fgets, zeilen, read_invers}
use haussteuerung.ConfigFile.Reads.{
  ends_line, all_lines, joined, fgets-line, joined-append, all_lines-append, line-length,
  zeilen-joined, drop-joined,
}

-- Lines from the last one to the first one.
abbrev pub upwards : List Text → Text
upwards [] = []
upwards (l ∷ more) = upwards more ++ l

upwards-append : (ls ms : List Text) → upwards (ls ++ ms) ≡ upwards ms ++ upwards ls
upwards-append [] ms = sym (append-nil (upwards ms))
upwards-append (l ∷ ls) ms =
    ground (arith, upwards-append ls ms, append_assoc (upwards ms) (upwards ls) l)

pub length-upwards : (ls : List Text) → length (upwards ls) ≡ length (joined ls)
length-upwards [] = refl
length-upwards (l ∷ ls) =
    omega (arith, length-upwards ls, length-append (upwards ls) l, length-append l (joined ls))

last_line :
    (n : ℕ) (ls : List Text)
    → length ls ≡ suc n
    → (ks : List Text) × (l : Text) × (ls ≡ ks ++ (l ∷ [])) × (length ks ≡ n)
last_line n [] h = ground (arith, h)
last_line zero (l ∷ []) h = ([], l, refl, refl)
last_line zero (l ∷ m ∷ ls) h = ground (arith, h)
last_line (suc n) (l ∷ []) h = ground (arith, h)
last_line (suc n) (l ∷ m ∷ ls) h =
    let (ks, k, e, c) = last_line n (m ∷ ls) (omega (arith, h)) in
    (l ∷ ks, k, ap (λ t. l ∷ t) e, omega (arith, c))

-- One read of the loop: the line behind those in front of it.
read_line :
    (limit : ℕ) (ps : List Text) (l : Text) (ms : List Text)
    → all_lines ps ≡ true
    → ends_line l ≡ true
    → length l ≤ limit
    → let s = joined (ps ++ (l ∷ ms)) in fgets limit (drop (zeilen s (length ps)) s) ≡ l
read_line limit ps l ms h line small =
    let (read, _) = fgets-line limit l (joined ms) line small in
    ground (arith, read, zeilen-joined ps (l ∷ ms) h, drop-joined ps (l ∷ ms))

regroup :
    (ps ks : List Text) (l : Text) (bs : List Text)
    → ps ++ ((ks ++ (l ∷ [])) ++ bs) ≡ (ps ++ ks) ++ (l ∷ bs)
regroup ps ks l bs = ground (arith, append_assoc ks (l ∷ []) bs, append_assoc ps ks (l ∷ bs))

-- The lines `ls` that are still to be read, between `ps` and those that were read.
pub read_invers_lem :
    (r i : ℕ) (ps ls bs : List Text) (s : Text) (anzahl filesize : ℕ) (out : Text)
    → s ≡ joined (ps ++ (ls ++ bs))
    → (all_lines ps && all_lines ls) ≡ true
    → length ls ≡ r
    → anzahl ≡ length ps + r + i
    → filesize ≡ length out + length (joined ls)
    → read_invers r i s anzahl filesize out ≡ some (out ++ upwards ls)
unfolding read_invers
read_invers_lem zero i ps [] bs s anzahl filesize out es h r a f = ground (arith, append-nil out)
read_invers_lem zero i ps (l ∷ ls) bs s anzahl filesize out es h r a f = ground (arith, r)
read_invers_lem (suc r) i ps ls bs s anzahl filesize out es h ra a f =
    let (ks, l, e, c) = last_line r ls ra in
    let split = all_lines-append ks (l ∷ []) in
    let front = all_lines-append ps ks in
    let sum = length-append ps ks in
    let whole = joined-append ks (l ∷ []) in
    let long = length-append (joined ks) (l ++ []) in
    let nil = append-nil l in
    let line : (ends_line l ≡ true) = ground (arith, h, e, split) in
    let lines : (all_lines (ps ++ ks) ≡ true) = ground (arith, h, e, split, front) in
    let size : (length (joined ls) ≡ length (joined ks) + length l) =
      ground (arith, e, whole, long, nil) in
    let text : (s ≡ joined ((ps ++ ks) ++ (l ∷ bs))) = ground (arith, es, e, regroup ps ks l bs) in
    let place : (anzahl - i - 1 ≡ length (ps ++ ks)) = omega (arith, a, sum, c) in
    let read =
      read_line (filesize - length out) (ps ++ ks) l bs lines line (omega (arith, f, size)) in
    let next : (fgets (filesize - length out) (drop (zeilen s (anzahl - i - 1)) s) ≡ l) =
      ground (arith, text, place, read) in
    let nonempty = line-length l line in
    let more =
      read_invers_lem r (i + 1) ps ks (l ∷ bs) s anzahl filesize (out ++ l)
        (ground (arith, text, append_assoc ps ks (l ∷ bs))) (ground (arith, h, e, split)) c
        (omega (arith, a)) (omega (arith, f, size, length-append out l)) in
    ground
      (arith, next, nonempty, more, e, upwards-append ks (l ∷ []), append_assoc out l (upwards ks))
