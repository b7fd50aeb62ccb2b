-- ===== src/SharedMem/Elements.antt =====
-- An element of the shared text in src/sharedMem.cpp takes its new value, and nothing else changes.
use haussteuerung.Prelude.{
  ℕ, zero, suc, ◌+◌, ◌-◌, ◌%◌, ◌^◌, ◌≤◌, ◌<◌, ◌≡◌, refl, ap, ◌∙◌, sym, [], ◌∷◌, ◌++◌, some, length,
  take, drop, arith, length-append,
}
use mathlib.Core.List.{append_assoc}
use haussteuerung.Prelude.Text.{Text}
use haussteuerung.SharedMem.{find, replace, end_tag, update_helper, mem_max_size}

take_whole : (n : ℕ) (s : Text) → length s ≤ n → take n s ≡ s
take_whole zero [] h = refl
take_whole zero (c ∷ s) h = absurd (omega arith)
take_whole (suc n) [] h = refl
take_whole (suc n) (c ∷ s) h = ap (λ r. c ∷ r) (take_whole n s (omega arith))

take-length : (s u : Text) → take (length s) (s ++ u) ≡ s
take-length [] u = refl
take-length (c ∷ s) u = ap (λ r. c ∷ r) (take-length s u)

drop-length : (s u : Text) → drop (length s) (s ++ u) ≡ u
drop-length [] u = refl
drop-length (c ∷ s) u = drop-length s u

-- Replacing a middle part.
replace-middle :
    (a old new b : Text)
    → replace (length a) (length old) new (a ++ (old ++ b)) ≡ some (a ++ (new ++ b))
unfolding replace
replace-middle a old new b =
    let whole = a ++ (old ++ b) in
    let behind : drop (length a + length old) whole ≡ b =
      ap (λ n. drop n whole) (sym (length-append a old))
      ∙ ap (drop (length (a ++ old))) (sym (append_assoc a old b))
      ∙ drop-length (a ++ old) b in
    ground
      (arith, behind, take-length a (old ++ b), length-append a (old ++ b), length-append old b)

-- Where the first start tag of a text and its first end tag enclose the old value, the update puts
-- the new value between them and keeps all else, if the result fits the shared memory.
pub update_helper_lem :
    (tag before old new behind : Text)
    → let head = before ++ tag in
      let shm = head ++ (old ++ behind) in
      let shm' = head ++ (new ++ behind) in
      find tag shm ≡ length before
      → find (end_tag tag) shm ≡ length head + length old
      → length shm < 2 ^ 64
      → length shm' ≤ mem_max_size
      → update_helper tag new shm ≡ some shm'
unfolding update_helper
update_helper_lem tag before old new behind s e h k =
    let head = before ++ tag in
    let shm = head ++ (old ++ behind) in
    let l1 = length-append before tag in
    let l2 = length-append head (old ++ behind) in
    let l3 = length-append old behind in
    let at : (find tag shm + length tag) % 2 ^ 64 ≡ length head = omega arith in
    let gap : (find (end_tag tag) shm + 2 ^ 64 - (find tag shm + length tag) % 2 ^ 64) % 2 ^ 64
        ≡ length old =
      omega arith in
    rw (update_helper, gap, at, replace-middle head old new behind, take_whole mem_max_size _ k)
      refl
