-- ===== src/SharedMem.antt =====
-- Class sharedMem of src/sharedMem.cpp: the text in the shared memory, where each device class
-- keeps its state between a start tag and an end tag. A `size_t` is a number under 2 ^ 64; `none`
-- is the exception of `replace` for a position behind the end.
pub mod Elements
pub mod Pieces
pub mod Template
pub mod Splits
pub mod Table
pub mod Writers
pub mod Tests
use haussteuerung.Prelude.{
  ℕ, suc, ◌+◌, ◌-◌, ◌%◌, ◌^◌, Bool, List, [], ◌∷◌, ◌++◌, Option, none, some, if◌then◌else◌, ltb,
  length, take, drop,
}
use haussteuerung.Prelude.Text.{Text, strip_prefix}

abbrev pub npos : ℕ
npos = 2 ^ 64 - 1

-- `string::find`: the place of the first occurrence, or `npos`.
unfoldable pub place_of : Text → Text → Option ℕ
place_of pat [] = elim (strip_prefix pat []) [ none ↦ none | some _ ↦ some 0 ]
place_of pat (c ∷ s) =
    let later = place_of pat s in
    elim (strip_prefix pat (c ∷ s)) [
      | some _ ↦ some 0
      | none ↦ elim later [ none ↦ none | some n ↦ some (suc n) ]
    ]

unfoldable pub find : Text → Text → ℕ
find pat s = elim (place_of pat s) [ none ↦ npos | some n ↦ n ]

-- `string::replace`
unfoldable pub replace : ℕ → ℕ → Text → Text → Option Text
replace at count new s =
    let rest = length s - at in
    let gone = if ltb count rest then count else rest in
    if ltb (length s) at then none else some (take at s ++ (new ++ drop (at + gone) s))

-- `strEndTag.insert(1, "/")`
unfoldable pub end_tag : Text → Text
end_tag [] = []
end_tag (c ∷ s) = c ∷ b'/' ∷ s

abbrev pub mem_max_size : ℕ
mem_max_size = 1024

unfoldable pub update_helper : Text → Text → Text → Option Text
update_helper start_tag value shm =
    let pos_start = (find start_tag shm + length start_tag) % 2 ^ 64 in
    let pos_end = find (end_tag start_tag) shm in
    elim (replace pos_start ((pos_end + 2 ^ 64 - pos_start) % 2 ^ 64) value shm) [
      | none ↦ none
      | some new ↦ some (take mem_max_size new)
    ]
