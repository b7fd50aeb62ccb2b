-- ===== src/Boot/Answers.antt =====
-- What the program goes on with behind its start, src/haussteuerung.cpp.
use haussteuerung.Prelude.{
  ◌≡◌, refl, Bool, true, false, not, ◌&&◌, [], ◌∷◌, ◌++◌, some, ◌==◌, arith, inl, inr, Bool-cases,
  Option-cases,
}
use haussteuerung.Prelude.Int.{ℤ, negsuc}
use haussteuerung.Prelude.Text.{Text}
use haussteuerung.Boot.{
  ends_with_slash, conf_path, SemAnswers, is_negative, einval, init_semaphore, ShmAnswers, eexist,
  attach, init_shared_memory,
}

ends_with_slash-append : (s : Text) → ends_with_slash (s ++ b'/' ∷ []) ≡ some true
unfolding ends_with_slash
ends_with_slash-append [] = refl
ends_with_slash-append (c ∷ []) = refl
ends_with_slash-append (c ∷ d ∷ s) = ends_with_slash-append (d ∷ s)

-- A path that the program takes ends with a slash, and taken again it is the same path.
pub conf_path_twice :
    (arg path : Text)
    → conf_path (some arg) ≡ some path
    → (ends_with_slash path ≡ some true) × (conf_path (some path) ≡ some path)
unfolding conf_path
conf_path_twice arg path h =
    let closed : (ends_with_slash path ≡ some true) = elim (Option-cases (ends_with_slash arg)) [
      | inl n ↦ ground (arith, h, n)
      | inr (b, e) ↦ elim (Bool-cases b) [
        | inl y ↦ ground (arith, h, e, y)
        | inr n ↦ ground (arith, h, e, n, ends_with_slash-append arg)
      ]
    ] in
    (closed, ground (arith, closed))

-- The program goes on with an id below 0 for a set of semaphores exactly if the first call fails
-- for another reason than EINVAL.
pub semaphore_lem :
    (a : SemAnswers) (id : ℤ)
    → init_semaphore a ≡ some id
    → is_negative id ≡ (is_negative a.first && not (a.errno == einval))
unfolding init_semaphore
semaphore_lem a id h = ground (arith, h)

attach_lem :
    (attached : ℤ → Bool) (i id : ℤ) → attach attached i ≡ some id → (id ≡ i) × (attached id ≡ true)
unfolding attach
attach_lem attached i id h = elim (Bool-cases (attached i)) [
  | inl y ↦ ground (arith, h, y)
  | inr n ↦ ground (arith, h, n)
]

minus_one-is_negative : is_negative (negsuc 0) ≡ true
unfolding is_negative
minus_one-is_negative = refl

-- It goes on with a shared memory only if that is attached, and with an id below 0 only if that is
-- the first answer, with another `errno` than EEXIST.
pub memory_lem :
    (a : ShmAnswers) (id : ℤ)
    → init_shared_memory a ≡ some id
    → (a.attached id ≡ true)
      × (is_negative id && not (is_negative a.first && not (a.errno == eexist)) ≡ false)
unfolding init_shared_memory
memory_lem a id h = elim (Bool-cases (is_negative a.first && (a.errno == eexist))) [
  | inl y ↦
      let (path, above) : (attach a.attached a.second ≡ some id) × (is_negative a.second ≡ false) =
        ground (arith, h, y, minus_one-is_negative) in
      let (same, closed) = attach_lem a.attached a.second id path in
      (closed, ground (arith, above, same))
  | inr n ↦
      let path : attach a.attached a.first ≡ some id = ground (arith, h, n) in
      let (same, closed) = attach_lem a.attached a.first id path in
      (closed, ground (arith, n, same))
]
