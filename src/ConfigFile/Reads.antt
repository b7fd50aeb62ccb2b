-- ===== src/ConfigFile/Reads.antt =====
-- What `fgets` and `countLines` do on a file of lines, src/haussteuerung.cpp and src/log.cpp.
use haussteuerung.Prelude.{
  ℕ, zero, suc, ◌≤◌, ◌<◌, ◌≡◌, refl, Bool, true, false, ◌&&◌, List, [], ◌∷◌, ◌++◌, if◌then◌else◌,
  ◌==◌, leb, length, length-append, drop, arith,
}
use mathlib.Core.List.{append_assoc}
use haussteuerung.Prelude.Text.{Text}
use haussteuerung.ConfigFile.{fgets, meets_end, count_reads, count_lines, zeilen}

abbrev is_empty : Text → Bool
is_empty [] = true
is_empty (c ∷ s) = false

-- A newline, and no other one in front of it.
abbrev pub ends_line : Text → Bool
ends_line [] = false
ends_line (c ∷ s) = if c == b'\n' then is_empty s else ends_line s

-- Lines that `fgets` reads with a buffer of 256 bytes.
abbrev pub all_lines : List Text → Bool
all_lines [] = true
all_lines (l ∷ more) = ends_line l && leb (length l) 255 && all_lines more

-- The file with these lines.
abbrev pub joined : List Text → Text
joined [] = []
joined (l ∷ more) = l ++ joined more

pub fgets-line :
    (limit : ℕ) (l u : Text)
    → ends_line l ≡ true
    → length l ≤ limit
    → (fgets limit (l ++ u) ≡ l) × (meets_end limit (l ++ u) ≡ false)
unfolding fgets meets_end
fgets-line limit [] u h small = ground arith
fgets-line zero (c ∷ s) u h small = ground arith
fgets-line (suc limit) (c ∷ []) u h small = (ground (arith, h), ground (arith, h))
fgets-line (suc limit) (c ∷ d ∷ s) u h small =
    let (read, end) = fgets-line limit (d ∷ s) u (ground (arith, h)) (omega (arith, small)) in
    (ground (arith, h, read), ground (arith, h, end))

pub drop-append : (l u : Text) → drop (length l) (l ++ u) ≡ u
drop-append [] u = refl
drop-append (c ∷ l) u = drop-append l u

pub joined-append : (ls ms : List Text) → joined (ls ++ ms) ≡ joined ls ++ joined ms
joined-append [] ms = refl
joined-append (l ∷ ls) ms =
    ground (arith, joined-append ls ms, append_assoc l (joined ls) (joined ms))

pub all_lines-append : (ls ms : List Text) → all_lines (ls ++ ms) ≡ (all_lines ls && all_lines ms)
all_lines-append [] ms = refl
all_lines-append (l ∷ ls) ms = ground (arith, all_lines-append ls ms)

pub line-length : (l : Text) → ends_line l ≡ true → 1 ≤ length l
line-length [] h = ground (arith, h)
line-length (c ∷ s) h = omega arith

count_reads-joined :
    (fuel : ℕ) (ls : List Text)
    → all_lines ls ≡ true
    → length (joined ls) < fuel
    → count_reads fuel (joined ls) ≡ suc (length ls)
unfolding count_reads
count_reads-joined zero ls h f = ground (arith, f)
count_reads-joined (suc fuel) [] h f = unfold meets_end in refl
count_reads-joined (suc fuel) (l ∷ ls) h f =
    let line : (ends_line l ≡ true) = ground (arith, h) in
    let (read, end) = fgets-line 255 l (joined ls) line (ground (arith, h)) in
    let sum = length-append l (joined ls) in
    let less : (length (joined ls) < fuel) = omega (arith, f, sum, line-length l line) in
    ground (
      arith,
      read,
      end,
      drop-append l (joined ls),
      count_reads-joined fuel ls (ground (arith, h)) less,
    )

-- `countLines` counts the lines of a file.
pub count_lines-joined :
    (ls : List Text) → all_lines ls ≡ true → count_lines (joined ls) ≡ length ls
unfolding count_lines
count_lines-joined ls h =
    ground (arith, count_reads-joined (suc (length (joined ls))) ls h (omega arith))

-- A line begins behind those in front of it.
pub zeilen-joined :
    (ls ms : List Text)
    → all_lines ls ≡ true
    → zeilen (joined (ls ++ ms)) (length ls) ≡ length (joined ls)
unfolding zeilen
zeilen-joined [] ms h = refl
zeilen-joined (l ∷ ls) ms h =
    let rest = joined (ls ++ ms) in
    let (read, _) = fgets-line 255 l rest (ground (arith, h)) (ground (arith, h)) in
    ground (
      arith,
      read,
      drop-append l rest,
      zeilen-joined ls ms (ground (arith, h)),
      length-append l (joined ls),
    )

pub drop-joined : (ls ms : List Text) → drop (length (joined ls)) (joined (ls ++ ms)) ≡ joined ms
drop-joined ls ms = ground (arith, joined-append ls ms, drop-append (joined ls) (joined ms))
