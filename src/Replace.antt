-- ===== src/Replace.antt =====
-- `stringReplace` of src/haussteuerung.cpp with what it uses of string.h: `strstr` to count and
-- `strtok` to take the text apart. The pattern is not empty, and so is not its replacement.
pub mod Tokens
pub mod Room
pub mod Tests
use haussteuerung.Prelude.{
  ℕ, zero, suc, ◌+◌, ◌-◌, ◌*◌, Bool, true, false, ◌||◌, [], ◌∷◌, ◌++◌, Option, none, some,
  if◌then◌else◌, ◌==◌, length,
}
use haussteuerung.Prelude.Text.{Text, strip_prefix}

-- The first loop: the places at which the pattern stands, a byte further each time.
unfoldable pub anzahl : Text → Text → ℕ
anzahl charakter [] = 0
anzahl charakter (c ∷ s) =
    let more = anzahl charakter s in
    elim (strip_prefix charakter (c ∷ s)) [ some _ ↦ suc more | none ↦ more ]

-- `stringLen`, the size of the new buffer.
unfoldable pub string_len : Text → Text → Text → ℕ
string_len charakter str_replace s = length s + anzahl charakter s * (length str_replace - 1) + 1

-- A delimiter is any byte of the pattern.
abbrev pub is_delim : Text → ℕ → Bool
is_delim [] c = false
is_delim (d ∷ ds) c = (c == d) || is_delim ds c

unfoldable pub skip_delims : Text → Text → Text
skip_delims ds [] = []
skip_delims ds (c ∷ s) = let rest = skip_delims ds s in if is_delim ds c then rest else c ∷ s

-- A token up to the delimiter that closes it, and what stands behind that.
unfoldable pub token : Text → Text → Text × Text
token ds [] = ([], [])
token ds (c ∷ s) = let (t, rest) = token ds s in if is_delim ds c then ([], s) else (c ∷ t, rest)

-- `strtok`: the token and the place at which the next call goes on.
unfoldable pub strtok : Text → Text → Option (Text × Text)
strtok ds s = elim (skip_delims ds s) [ [] ↦ none | c ∷ t ↦ some (token ds (c ∷ t)) ]

-- The second loop with its token `temp_string`. A round takes a byte at least.
unfoldable pub join_tokens : ℕ → Text → Text → Text → Text → Text → Text
join_tokens zero ds rep new_string temp_string s = new_string ++ temp_string
join_tokens (suc fuel) ds rep new_string temp_string s = elim (strtok ds s) [
  | none ↦ new_string ++ temp_string
  | some (next, rest) ↦ join_tokens fuel ds rep ((new_string ++ temp_string) ++ rep) next rest
]

unfoldable pub string_replace : Text → Text → Text → Text
string_replace charakter str_replace s =
    let joined : Text = elim (strtok charakter s) [
      | none ↦ []
      | some (first, rest) ↦ join_tokens (length s) charakter str_replace [] first rest
    ] in
    if anzahl charakter s == 0 then s else joined
