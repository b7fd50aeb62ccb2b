-- ===== src/SharedMem/Splits.antt =====
-- The text of the shared memory, src/sharedMem.cpp, in front of an element and behind it.
use haussteuerung.Prelude.{
  ℕ, zero, suc, ◌+◌, ◌≤◌, ◌<◌, ◌≡◌, refl, ap, ◌∙◌, Bool, true, ◌&&◌, List, [], ◌∷◌, ◌++◌, length,
  update, arith,
}
use haussteuerung.Prelude.Text.{Text, codes}
use haussteuerung.SharedMem.Pieces.{Piece, mark, plain, lacks, is_valid, all_valid, no_mark}
use haussteuerung.SharedMem.Template.{xml_mark, hsinfo, names, gap, elements, page}

abbrev pub nth : ℕ → List Text → Text
nth i [] = []
nth zero (n ∷ rest) = n
nth (suc i) (n ∷ rest) = nth i rest

-- What stands in front of element i, and behind its end tag.
abbrev pub before : ℕ → ℕ → List Text → (ℕ → Text) → List Piece
before zero k ns values = []
before (suc i) k [] values = []
before (suc i) k (n ∷ rest) values =
    mark n ∷ plain (values k) ∷ mark (b'/' ∷ n) ∷ plain (gap rest) ∷ before i (suc k) rest values

abbrev pub behind : ℕ → ℕ → List Text → (ℕ → Text) → List Piece
behind i k [] values = []
behind zero k (n ∷ rest) values = plain (gap rest) ∷ elements (suc k) rest values
behind (suc i) k (n ∷ rest) values = behind i (suc k) rest values

abbrev pub element : Text → Text → List Piece → List Piece
element n value ps = mark n ∷ plain value ∷ mark (b'/' ∷ n) ∷ ps

elements-split :
    (i k : ℕ) (ns : List Text) (values : ℕ → Text)
    → i < length ns
    → elements k ns values
      ≡ before i k ns values ++ element (nth i ns) (values (k + i)) (behind i k ns values)
elements-split i k [] values h = ground (arith, h)
elements-split zero k (n ∷ rest) values h = ground arith
elements-split (suc i) k (n ∷ rest) values h =
    ground (arith, elements-split i (suc k) rest values (omega (arith, h)))

before-update :
    (i k j : ℕ) (ns : List Text) (values : ℕ → Text) (v : Text)
    → k + i ≤ j
    → before i k ns (update values j v) ≡ before i k ns values
before-update zero k j ns values v h = refl
before-update (suc i) k j [] values v h = refl
before-update (suc i) k j (n ∷ rest) values v h =
    ground (arith, h, before-update i (suc k) j rest values v (omega (arith, h)))

elements-update :
    (k j : ℕ) (ns : List Text) (values : ℕ → Text) (v : Text)
    → j < k
    → elements k ns (update values j v) ≡ elements k ns values
elements-update k j [] values v h = refl
elements-update k j (n ∷ rest) values v h =
    ground (arith, h, elements-update (suc k) j rest values v (omega (arith, h)))

behind-update :
    (i k j : ℕ) (ns : List Text) (values : ℕ → Text) (v : Text)
    → j ≤ k + i
    → behind i k ns (update values j v) ≡ behind i k ns values
behind-update i k j [] values v h = refl
behind-update zero k j (n ∷ rest) values v h =
    ground (arith, elements-update (suc k) j rest values v (omega (arith, h)))
behind-update (suc i) k j (n ∷ rest) values v h =
    ground (arith, behind-update i (suc k) j rest values v (omega (arith, h)))

pub no_mark-values :
    (m : Text) (i k : ℕ) (ns : List Text) (values others : ℕ → Text)
    → no_mark m (before i k ns values) ≡ no_mark m (before i k ns others)
no_mark-values m zero k ns values others = refl
no_mark-values m (suc i) k [] values others = refl
no_mark-values m (suc i) k (n ∷ rest) values others =
    ground (arith, no_mark-values m i (suc k) rest values others)

abbrev names_valid : List Text → Bool
names_valid [] = true
names_valid (n ∷ rest) = is_valid (mark n) && lacks b'<' (gap rest) && names_valid rest

elements-valid :
    (k : ℕ) (ns : List Text) (values : ℕ → Text)
    → names_valid ns ≡ true
    → ((j : ℕ) → lacks b'<' (values j) ≡ true)
    → all_valid (elements k ns values) ≡ true
elements-valid k [] values h w = refl
elements-valid k (n ∷ rest) values h w =
    ground (arith, h, w k, elements-valid (suc k) rest values (ground (arith, h)) w)

pub page-valid :
    (values : ℕ → Text) → ((j : ℕ) → lacks b'<' (values j) ≡ true) → all_valid (page values) ≡ true
page-valid values w = elements-valid 0 names values refl w

-- All that stands in front of element i.
abbrev pub front : ℕ → (ℕ → Text) → List Piece
front i values = mark xml_mark ∷ mark hsinfo ∷ plain (codes " ") ∷ before i 0 names values

pub page-split :
    (i : ℕ) (values : ℕ → Text)
    → i < 28
    → page values ≡ front i values ++ element (nth i names) (values i) (behind i 0 names values)
page-split i values h =
    let same : (0 + i ≡ i) = omega arith in
    let split : (elements 0 names values
        ≡ before i 0 names values ++ element (nth i names) (values i) (behind i 0 names values)) =
      elements-split i 0 names values h
      ∙ ap
          (λ j.
            before i 0 names values ++ element (nth i names) (values j) (behind i 0 names values))
          same in
    ap (λ ps. mark xml_mark ∷ mark hsinfo ∷ plain (codes " ") ∷ ps) split

pub page-update :
    (i : ℕ) (values : ℕ → Text) (v : Text)
    → i < 28
    → page (update values i v) ≡ front i values ++ element (nth i names) v (behind i 0 names values)
page-update i values v h =
    let split = page-split i (update values i v) h in
    let same : (update values i v i ≡ v) = ground arith in
    let ps = before-update i 0 i names values v (omega arith) in
    let qs = behind-update i 0 i names values v (omega arith) in cc (split, same, ps, qs)
