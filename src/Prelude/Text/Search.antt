-- ===== src/Prelude/Text/Search.antt =====
-- strstr, strchr and prefixes on C strings.
use Prim.Native.Nat.{ℕ}
use Prim.Native.Char.{code}
use Prim.Native.String.{String}
use mathlib.Core.Path.{◌≡◌, refl}
use mathlib.Core.Bool.{Bool, true, false}
use mathlib.Core.List.{List, [], ◌∷◌, ◌++◌}
use mathlib.Core.Option.{Option, none, some}
use mathlib.Core.Logic.{inl, inr}
use native.Mathlib.Omega.{arith}
use haussteuerung.Prelude.Tests.{◌==◌, if◌then◌else◌, Bool-cases, Option-cases}

abbrev pub Text : Type 0
Text = List ℕ

abbrev pub codes : String → Text
codes String.[] = []
codes (String.◌∷◌ c s) = code c ∷ codes s

-- The rest of the second text behind the first, where the second begins with it.
unfoldable pub strip_prefix : Text → Text → Option Text
strip_prefix [] s = some s
strip_prefix (p ∷ ps) [] = none
strip_prefix (p ∷ ps) (c ∷ s) = if p == c then strip_prefix ps s else none

-- What stands behind the first occurrence of the pattern: `strstr(s, pat) + strlen(pat)`.
unfoldable pub after : Text → Text → Option Text
unfolding strip_prefix
after pat [] = strip_prefix pat []
after pat (c ∷ s) =
    let rest = after pat s in elim (strip_prefix pat (c ∷ s)) [ some r ↦ some r | none ↦ rest ]

-- `strstr(s, pat) != NULL`
unfoldable pub contains : Text → Text → Bool
unfolding after
contains s pat = elim (after pat s) [ some _ ↦ true | none ↦ false ]

-- What stands before the first byte of that value; all, if there is none.
unfoldable pub until : ℕ → Text → Text
until b [] = []
until b (c ∷ s) = if c == b then [] else c ∷ until b s

pub strip_prefix-append : (p s : Text) → strip_prefix p (p ++ s) ≡ some s
unfolding strip_prefix
strip_prefix-append [] s = refl
strip_prefix-append (c ∷ p) s = ground (arith, strip_prefix-append p s)

-- A text contains its own prefix, and a part of a part.
pub contains_prefix : (p s : Text) → contains (p ++ s) p ≡ true
unfolding contains after
contains_prefix [] [] = refl
contains_prefix [] (c ∷ s) = refl
contains_prefix (p ∷ ps) s = ground (arith, strip_prefix-append (p ∷ ps) s)

pub contains_cons : (c : ℕ) (s p : Text) → contains s p ≡ true → contains (c ∷ s) p ≡ true
unfolding contains after
contains_cons c s p h = ground arith

pub contains_middle : (pre p s : Text) → contains (pre ++ (p ++ s)) p ≡ true
contains_middle [] p s = contains_prefix p s
contains_middle (c ∷ pre) p s = contains_cons c (pre ++ (p ++ s)) p (contains_middle pre p s)

strip_prefix-extend :
    (p s u r : Text) → strip_prefix p s ≡ some r → strip_prefix p (s ++ u) ≡ some (r ++ u)
unfolding strip_prefix
strip_prefix-extend [] s u r h = ground arith
strip_prefix-extend (c ∷ p) [] u r h = ground arith
strip_prefix-extend (c ∷ p) (d ∷ s) u r h = ground (arith, strip_prefix-extend p s u r)

-- A pattern stays where more text follows.
pub contains_append : (s u p : Text) → contains s p ≡ true → contains (s ++ u) p ≡ true
unfolding contains after
contains_append [] u [] h = contains_prefix [] u
contains_append [] u (q ∷ p) h = ground (arith, h)
contains_append (c ∷ s) u p h = elim (Option-cases (strip_prefix p (c ∷ s))) [
  | inl n ↦ contains_cons c (s ++ u) p (contains_append s u p (ground arith))
  | inr (r, e) ↦ ground (arith, strip_prefix-extend p (c ∷ s) u r e)
]

-- Nor does a text get a pattern by losing its end.
pub contains_shorter : (s u p : Text) → contains (s ++ u) p ≡ false → contains s p ≡ false
contains_shorter s u p h = elim (Bool-cases (contains s p)) [
  | inl y ↦ ground (arith, contains_append s u p y)
  | inr n ↦ n
]

pub until-append : (b : ℕ) (s u : Text) → (v : Text) × (until b (s ++ u) ≡ until b s ++ v)
unfolding until
until-append b [] u = (until b u, refl)
until-append b (c ∷ s) u =
    let (v, e) = until-append b s u in
    elim (Bool-cases (c == b)) [ inl y ↦ ([], ground arith) | inr n ↦ (v, ground (arith, e)) ]
