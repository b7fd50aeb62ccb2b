-- ===== src/SharedMem/Table.antt =====
-- The shared memory of src/sharedMem.cpp with the elements of src/haussteuerung.cpp as a table of
-- values.
use haussteuerung.Prelude.{
  ℕ, ◌+◌, ◌^◌, ◌≤◌, ◌<◌, ◌≡◌, refl, ap, sym, ◌∙◌, Bool, true, false, not, ◌&&◌, List, [], ◌∷◌, ◌++◌,
  some, length, length-append, update, arith, all_below, all_below_sound,
}
use mathlib.Core.List.{append_assoc}
use haussteuerung.Prelude.Text.{Text}
use haussteuerung.SharedMem.{end_tag, mem_max_size, update_helper}
use haussteuerung.SharedMem.Elements.{update_helper_lem}
use haussteuerung.SharedMem.Pieces.{
  Piece, mark, plain, tag, render, lacks, all_valid, same_text, no_mark, find-render, render-append,
}
use haussteuerung.SharedMem.Template.{names, page, shm_text}
use haussteuerung.SharedMem.Splits.{
  nth, behind, element, front, no_mark-values, page-split, page-update, page-valid,
}

-- Neither mark of element i stands in front of it.
abbrev is_fresh : ℕ → Bool
is_fresh i =
    let n = nth i names in
    let ps = front i (λ j. []) in
    no_mark n ps && no_mark (b'/' ∷ n) ps && not (same_text (b'/' ∷ n) n) && lacks b'>' n

all_fresh : all_below 28 is_fresh ≡ true
unfolding all_below
all_fresh = refl

names-fresh :
    (i : ℕ) (values : ℕ → Text)
    → i < 28
    → let n = nth i names in
      (no_mark n (front i values) ≡ true)
      × (no_mark (b'/' ∷ n) (front i values) ≡ true)
      × (same_text (b'/' ∷ n) n ≡ false)
      × (lacks b'>' n ≡ true)
names-fresh i values h =
    let n = nth i names in
    let fresh = all_below_sound 28 is_fresh i all_fresh h in
    let one = no_mark-values n i 0 names values (λ j. []) in
    let two = no_mark-values (b'/' ∷ n) i 0 names values (λ j. []) in
    (
      ground (arith, fresh, one),
      ground (arith, fresh, two),
      ground (arith, fresh),
      ground (arith, fresh),
    )

no_mark-append :
    (m : Text) (ps qs : List Piece) → no_mark m (ps ++ qs) ≡ (no_mark m ps && no_mark m qs)
no_mark-append m [] qs = refl
no_mark-append m (p ∷ ps) qs = ground (arith, no_mark-append m ps qs)

-- The text around a value.
pub text-split :
    (ps : List Piece) (n value : Text) (qs : List Piece)
    → render (ps ++ element n value qs)
      ≡ (render ps ++ tag n) ++ (value ++ render (mark (b'/' ∷ n) ∷ qs))
text-split ps n value qs =
    render-append ps (element n value qs) ∙ sym (append_assoc (render ps) (tag n) _)

inner-length :
    (ps : List Piece) (n value : Text)
    → length (render (ps ++ (mark n ∷ plain value ∷ [])))
      ≡ length (render ps ++ tag n) + length value
inner-length ps n value =
    let all = ap length (render-append ps (mark n ∷ plain value ∷ [])) in
    let l1 = length-append (render ps) (tag n ++ (value ++ [])) in
    let l2 = length-append (tag n) (value ++ []) in
    let l3 = length-append value [] in
    let l4 = length-append (render ps) (tag n) in omega (arith, all, l1, l2, l3, l4)

-- An update of an element between marks that do not stand in front of it.
update-element :
    (ps : List Piece) (n old new : Text) (qs : List Piece)
    → all_valid (ps ++ element n old qs) ≡ true
    → no_mark n ps ≡ true
    → no_mark (b'/' ∷ n) ps ≡ true
    → same_text (b'/' ∷ n) n ≡ false
    → lacks b'>' n ≡ true
    → length (render (ps ++ element n old qs)) < 2 ^ 64
    → length (render (ps ++ element n new qs)) ≤ mem_max_size
    → update_helper (tag n) new (render (ps ++ element n old qs))
      ≡ some (render (ps ++ element n new qs))
update-element ps n old new qs v f g d l small fits =
    let tail = render (mark (b'/' ∷ n) ∷ qs) in
    let inner = ps ++ (mark n ∷ plain old ∷ []) in
    let start = find-render n ps (plain old ∷ mark (b'/' ∷ n) ∷ qs) l v f in
    let same : inner ++ (mark (b'/' ∷ n) ∷ qs) ≡ ps ++ element n old qs =
      append_assoc ps (mark n ∷ plain old ∷ []) (mark (b'/' ∷ n) ∷ qs) in
    let none_there : no_mark (b'/' ∷ n) inner ≡ true =
      ground (arith, no_mark-append (b'/' ∷ n) ps (mark n ∷ plain old ∷ []), g, d) in
    let end =
      find-render (b'/' ∷ n) inner qs (ground (arith, l)) (ground (arith, same, v)) none_there in
    let split_old = text-split ps n old qs in
    let split_new = text-split ps n new qs in
    let long_old = ap length split_old in
    let long_new = ap length split_new in
    let closing : (end_tag (tag n) ≡ tag (b'/' ∷ n)) = unfold end_tag in refl in
    let at = inner-length ps n old in
    let done =
      update_helper_lem (tag n) (render ps) old new tail (cc (split_old, start))
        (cc (split_old, end, ap render same, at, closing)) (omega (arith, small, long_old))
        (omega (arith, fits, long_new)) in
    cc (done, split_old, split_new)

-- The shared memory is a table of the 28 elements that the start puts there: an update of an
-- element with a value, where no value holds `<` and the texts before and after fit into the
-- shared memory, gives the text of the same table with that one value changed. So each element is
-- found, and none disturbs another one.
pub table_lem :
    (i : ℕ) (values : ℕ → Text) (v : Text)
    → i < 28
    → ((j : ℕ) → lacks b'<' (values j) ≡ true)
    → length (shm_text values) ≤ mem_max_size
    → length (shm_text (update values i v)) ≤ mem_max_size
    → update_helper (tag (nth i names)) v (shm_text values) ≡ some (shm_text (update values i v))
unfolding shm_text
table_lem i values v h w small fits =
    let n = nth i names in
    let (f, g, d, l) = names-fresh i values h in
    let old = page-split i values h in
    let ps = front i values in
    let qs = behind i 0 names values in
    let new : (page (update values i v) ≡ ps ++ element n v qs) = page-update i values v h in
    let valid : (all_valid (ps ++ element n (values i) qs) ≡ true) =
      cc (old, page-valid values w) in
    let long_old = ap (λ t. length (render t)) old in
    let long_new = ap (λ t. length (render t)) new in
    let done =
      update-element ps n (values i) v qs valid f g d l (omega (arith, small, long_old))
        (omega (arith, fits, long_new)) in
    cc (done, ap render old, ap render new)
