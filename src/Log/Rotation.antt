-- ===== src/Log/Rotation.antt =====
-- What a rotation keeps, src/log.cpp.
use haussteuerung.Prelude.{
  ℕ, zero, suc, ◌+◌, ◌-◌, ◌*◌, ◌≤◌, ◌<◌, ◌≡◌, refl, ap, Bool, true, false, ◌&&◌, [], ◌∷◌, ◌++◌,
  Option, none, some, if◌then◌else◌, ◌==◌, ltb, leb, length, take, drop, take-drop, length-drop,
  update, arith, Option-cases, inl, inr,
}
use haussteuerung.Prelude.Text.{Text}
use haussteuerung.Log.{
  Files, Lines, is_full, counted, bytes, begins_at, rename, shift, copy_below, copy_rest,
  zeilen_zu_kopieren, rotate, limit_file_size,
}

-- What `fgets` with a buffer of 256 bytes reads: pieces of 1 to 255 bytes.
abbrev pub all_pieces : Lines → Bool
all_pieces [] = true
all_pieces (line ∷ more) = leb 1 (length line) && leb (length line) 255 && all_pieces more

bytes-length : (lines : Lines) → all_pieces lines ≡ true → bytes lines ≤ 255 * length lines
bytes-length [] h = omega arith
bytes-length (line ∷ more) h = ground (arith, h, bytes-length more)

-- A file that is rotated has more pieces than are left in it, so the index of the first of them
-- is a place of the array.
pub index_lem :
    (lines : Lines)
    → all_pieces lines ≡ true
    → 200000 < bytes lines
    → zeilen_zu_kopieren < length lines
index_lem lines h l = omega (arith, bytes-length lines h, l)

rename-moves :
    (i j : ℕ) (files : ℕ → Option Lines)
    → files (suc i) ≡ none
    → rename i (suc i) files j ≡ (if j == suc i then files i else if j == i then none else files j)
unfolding rename
rename-moves i j files h = elim (Option-cases (files i)) [
  | inl n ↦ ground (arith, h, n)
  | inr (l, e) ↦ ground (arith, h, e)
]

-- The archives with their numbers one higher, up to a number.
abbrev shifted : ℕ → (ℕ → Option Lines) → ℕ → Option Lines
shifted i files j =
    if j == 0
    then files 0
    else if ltb (suc i) j
    then files j
    else if j == 1
    then none
    else files (j - 1)

shift_lem :
    (i j : ℕ) (files : ℕ → Option Lines)
    → files (suc i) ≡ none
    → shift i files j ≡ shifted i files j
unfolding shift
shift_lem zero j files h = ground (arith, h)
shift_lem (suc i) j files h =
    let g = rename (suc i) (suc (suc i)) files in
    let moved = rename-moves (suc i) (suc i) files h in
    ground (
      arith,
      h,
      shift_lem i j g (ground (arith, moved)),
      rename-moves (suc i) j files h,
      rename-moves (suc i) (j - 1) files h,
      rename-moves (suc i) 0 files h,
    )

copy_lem :
    (k target position : ℕ) (held : Text) (lines : Lines)
    → all_pieces lines ≡ true
    → target ≡ position + begins_at k lines
    → (last : Text) × (copy_below target position held lines ≡ (take k lines, last, drop k lines))
unfolding copy_below begins_at
copy_lem zero target position held [] h t = (held, refl)
copy_lem zero target position held (line ∷ more) h t = (held, ground (arith, t))
copy_lem (suc k) target position held [] h t = (held, refl)
copy_lem (suc k) target position held (line ∷ more) h t =
    let (last, e) =
      copy_lem k target (position + length line) line more (ground (arith, h)) (omega (arith, t)) in
    (last, ground (arith, h, t, e))

-- The last piece, behind a piece that was read before.
abbrev pub last_of : Text → Lines → Text
last_of held [] = held
last_of held (line ∷ more) = last_of line more

-- The last piece of a file ends with a newline, or fills the buffer of the read.
abbrev pub complete : Lines → Bool
complete [] = true
complete (line ∷ []) = is_full line
complete (line ∷ next ∷ more) = complete (next ∷ more)

copy_rest_lem :
    (held : Text) (lines : Lines)
    → complete lines ≡ true
    → copy_rest held lines ≡ lines ++ last_of held lines ∷ []
unfolding copy_rest
copy_rest_lem held [] c = refl
copy_rest_lem held (line ∷ []) c = ground (arith, c)
copy_rest_lem held (line ∷ next ∷ more) c = ap (λ l. line ∷ l) (copy_rest_lem line (next ∷ more) c)

counted_lem : (lines : Lines) → complete lines ≡ true → counted lines ≡ length lines
unfolding counted
counted_lem [] c = refl
counted_lem (line ∷ []) c = ground (arith, c)
counted_lem (line ∷ next ∷ more) c = ap suc (counted_lem (next ∷ more) c)

complete-drop : (k : ℕ) (lines : Lines) → complete lines ≡ true → complete (drop k lines) ≡ true
complete-drop zero lines c = c
complete-drop (suc k) [] c = refl
complete-drop (suc zero) (line ∷ []) c = refl
complete-drop (suc (suc k)) (line ∷ []) c = refl
complete-drop (suc k) (line ∷ next ∷ more) c = complete-drop k (next ∷ more) c

-- Where the program writes its log to a file, as with the option -l, and that file has more than
-- 200,000 bytes and ends with a newline: all but its last 101 pieces, which `fgets` reads with a
-- buffer of 256 bytes, are the first archive, those are left in the file, followed by the last one
-- of them a second time, and each archive from 1 to 9 has the next number afterwards. Without the
-- option nothing changes.
pub rotate_lem :
    (lines : Lines) (archive : ℕ → Option Lines) (i : ℕ)
    → all_pieces lines ≡ true
    → complete lines ≡ true
    → 200000 < bytes lines
    → i < 9
    → let before : Files = record { log = some lines; archive = archive } in
      let f = limit_file_size true before in
      (copied : Lines) × (rest : Lines) × (held : Text) × (copied ++ rest ≡ lines)
      × (length rest ≡ 101)
      × (f.archive 1 ≡ some copied)
      × (f.log ≡ some (rest ++ last_of held rest ∷ []))
      × (f.archive (i + 2) ≡ archive (i + 1))
      × (limit_file_size false before ≡ before)
unfolding limit_file_size rotate
rotate_lem lines archive i h c l small =
    let k = length lines - 101 in
    let (last, e) = copy_lem k (begins_at k lines) 0 [] lines h (omega arith) in
    let more = index_lem lines h l in
    let n = counted_lem lines c in
    (
      take k lines,
      drop k lines,
      last,
      take-drop k lines,
      omega (arith, length-drop k lines, more),
      ground (arith, l, e, n),
      ground (arith, l, e, n, copy_rest_lem last (drop k lines) (complete-drop k lines c)),
      ground (arith, l, e, n, shift_lem 9 (i + 2) (update archive 10 none)),
      ground arith,
    )
