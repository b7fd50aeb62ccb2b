-- ===== src/SharedMem/Pieces.antt =====
-- A text of marks `<m>` and of plain text between them, as src/sharedMem.cpp searches it.
use haussteuerung.Prelude.{
  ℕ, ◌+◌, ◌≡◌, refl, Bool, true, false, not, ◌&&◌, List, [], ◌∷◌, ◌++◌, Option, none, some,
  if◌then◌else◌, ◌==◌, length, length-append, arith, Bool-cases, Option-cases, inl, inr,
}
use mathlib.Core.List.{append_assoc}
use haussteuerung.Prelude.Text.{Text, strip_prefix}
use haussteuerung.SharedMem.{place_of, find}

pub data Piece : Type 0 where
  mark plain : Text → Piece

abbrev pub tag : Text → Text
tag m = b'<' ∷ (m ++ b'>' ∷ [])

abbrev pub render : List Piece → Text
render [] = []
render (mark m ∷ ps) = tag m ++ render ps
render (plain t ∷ ps) = t ++ render ps

abbrev pub lacks : ℕ → Text → Bool
lacks b [] = true
lacks b (c ∷ s) = not (c == b) && lacks b s

-- A mark holds neither bracket, and plain text does not open one.
abbrev pub is_valid : Piece → Bool
is_valid (mark m) = lacks b'<' m && lacks b'>' m
is_valid (plain t) = lacks b'<' t

abbrev pub all_valid : List Piece → Bool
all_valid [] = true
all_valid (p ∷ ps) = is_valid p && all_valid ps

abbrev pub same_text : Text → Text → Bool
same_text [] [] = true
same_text [] (d ∷ t) = false
same_text (c ∷ s) [] = false
same_text (c ∷ s) (d ∷ t) = (c == d) && same_text s t

abbrev pub is_mark : Text → Piece → Bool
is_mark m (mark n) = same_text m n
is_mark m (plain t) = false

abbrev pub no_mark : Text → List Piece → Bool
no_mark m [] = true
no_mark m (p ∷ ps) = not (is_mark m p) && no_mark m ps

abbrev shift : ℕ → Option ℕ → Option ℕ
shift n none = none
shift n (some k) = some (n + k)

-- Where the first mark m begins.
abbrev first_of : Text → List Piece → Option ℕ
first_of m [] = none
first_of m (mark n ∷ ps) =
    let rest = shift (length n + 2) (first_of m ps) in if same_text m n then some 0 else rest
first_of m (plain t ∷ ps) = shift (length t) (first_of m ps)

shift-shift : (a b c : ℕ) (o : Option ℕ) → c ≡ a + b → shift a (shift b o) ≡ shift c o
shift-shift a b c none e = refl
shift-shift a b c (some k) e = ground (arith, e)

-- A text without an opening bracket is passed over.
place_of-plain :
    (p t s : Text)
    → lacks b'<' t ≡ true
    → place_of (b'<' ∷ p) (t ++ s) ≡ shift (length t) (place_of (b'<' ∷ p) s)
unfolding place_of strip_prefix
place_of-plain p [] s h = elim (Option-cases (place_of (b'<' ∷ p) s)) [
  | inl n ↦ ground (arith, n)
  | inr (k, e) ↦ ground (arith, e)
]
place_of-plain p (c ∷ t) s h =
    let rest = place_of-plain p t s (ground (arith, h)) in
    elim (Option-cases (place_of (b'<' ∷ p) s)) [
      | inl n ↦ ground (arith, h, n, rest)
      | inr (k, e) ↦ ground (arith, h, e, rest)
    ]

-- At a mark, its name decides.
strip_prefix-mark :
    (m n s : Text)
    → lacks b'>' m ≡ true
    → lacks b'>' n ≡ true
    → strip_prefix (m ++ b'>' ∷ []) (n ++ b'>' ∷ s) ≡ (if same_text m n then some s else none)
unfolding strip_prefix
strip_prefix-mark [] [] s h k = refl
strip_prefix-mark [] (d ∷ n) s h k = ground (arith, k)
strip_prefix-mark (c ∷ m) [] s h k = ground (arith, h)
strip_prefix-mark (c ∷ m) (d ∷ n) s h k =
    ground (arith, h, k, strip_prefix-mark m n s (ground (arith, h)) (ground (arith, k)))

no_bracket : (n : Text) → lacks b'<' n ≡ true → lacks b'<' (n ++ b'>' ∷ []) ≡ true
no_bracket [] h = refl
no_bracket (c ∷ n) h = ground (arith, h, no_bracket n (ground (arith, h)))

place_of-mark :
    (m n s : Text)
    → lacks b'>' m ≡ true
    → is_valid (mark n) ≡ true
    → place_of (tag m) (tag n ++ s)
      ≡ (if same_text m n then some 0 else shift (length n + 2) (place_of (tag m) s))
unfolding place_of strip_prefix
place_of-mark m n s h k =
    let here = strip_prefix-mark m n s h (ground (arith, k)) in
    let behind =
      place_of-plain (m ++ b'>' ∷ []) (n ++ b'>' ∷ []) s (no_bracket n (ground (arith, k))) in
    let size = length-append n (b'>' ∷ []) in
    let text = append_assoc n (b'>' ∷ []) s in
    elim (Bool-cases (same_text m n)) [
      | inl y ↦ ground (arith, y, here, text)
      | inr d ↦ elim (Option-cases (place_of (tag m) s)) [
        | inl e ↦ ground (arith, d, here, text, behind, size, e)
        | inr (i, e) ↦ ground (arith, d, here, text, behind, size, e)
      ]
    ]

place_of-render :
    (m : Text) (ps : List Piece)
    → lacks b'>' m ≡ true
    → all_valid ps ≡ true
    → place_of (tag m) (render ps) ≡ first_of m ps
place_of-render m [] h k = unfold place_of strip_prefix in refl
place_of-render m (mark n ∷ ps) h k = ground (
  arith,
  place_of-mark m n (render ps) h (ground (arith, k)),
  place_of-render m ps h (ground (arith, k)),
)
place_of-render m (plain t ∷ ps) h k = ground (
  arith,
  place_of-plain (m ++ b'>' ∷ []) t (render ps) (ground (arith, k)),
  place_of-render m ps h (ground (arith, k)),
)

same_text_self : (m : Text) → same_text m m ≡ true
same_text_self [] = refl
same_text_self (c ∷ m) = ground (arith, same_text_self m)

first_of-append :
    (m : Text) (ps qs : List Piece)
    → no_mark m ps ≡ true
    → first_of m (ps ++ (mark m ∷ qs)) ≡ some (length (render ps))
first_of-append m [] qs h = ground (arith, same_text_self m)
first_of-append m (mark n ∷ ps) qs h = ground (
  arith,
  h,
  first_of-append m ps qs (ground (arith, h)),
  length-append (tag n) (render ps),
  length-append n (b'>' ∷ []),
)
first_of-append m (plain t ∷ ps) qs h =
    ground (arith, h, first_of-append m ps qs (ground (arith, h)), length-append t (render ps))

-- The first mark m is found where it begins.
pub find-render :
    (m : Text) (ps qs : List Piece)
    → lacks b'>' m ≡ true
    → all_valid (ps ++ (mark m ∷ qs)) ≡ true
    → no_mark m ps ≡ true
    → find (tag m) (render (ps ++ (mark m ∷ qs))) ≡ length (render ps)
unfolding find
find-render m ps qs h k n =
    ground (arith, place_of-render m (ps ++ (mark m ∷ qs)) h k, first_of-append m ps qs n)

pub render-append : (ps qs : List Piece) → render (ps ++ qs) ≡ render ps ++ render qs
render-append [] qs = refl
render-append (mark m ∷ ps) qs =
    ground (arith, render-append ps qs, append_assoc (tag m) (render ps) (render qs))
render-append (plain t ∷ ps) qs =
    ground (arith, render-append ps qs, append_assoc t (render ps) (render qs))
