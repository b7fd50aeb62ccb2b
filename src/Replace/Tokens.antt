-- ===== src/Replace/Tokens.antt =====
-- What `stringReplace` makes of a text, src/haussteuerung.cpp.
use haussteuerung.Prelude.{
  ℕ, zero, suc, ◌+◌, ◌≤◌, ◌<◌, ◌≡◌, refl, Bool, true, false, not, ◌&&◌, [], ◌∷◌, ◌++◌, none, some,
  if◌then◌else◌, ◌==◌, length, arith, ◌⊎◌, inl, inr, Bool-cases,
}
use mathlib.Core.List.{append_assoc}
use haussteuerung.Prelude.Text.{Text, strip_prefix}
use haussteuerung.Replace.{anzahl, skip_delims, token, strtok, join_tokens, string_replace}

-- Each byte of this value replaced by a text, the others kept.
abbrev pub substitute : ℕ → Text → Text → Text
substitute b rep [] = []
substitute b rep (c ∷ s) = if c == b then rep ++ substitute b rep s else c ∷ substitute b rep s

-- Each byte of this value stands between two others; the flag says that such a byte, or the
-- beginning, is in front of the text.
abbrev pub spaced : ℕ → Bool → Text → Bool
spaced b front [] = not front
spaced b front (c ∷ s) = if c == b then not front && spaced b true s else spaced b false s

token-spaced :
    (b : ℕ) (rep s : Text)
    → spaced b false s ≡ true
    → let (t, r) = token (b ∷ []) s in
      ((substitute b rep s ≡ t) × (r ≡ []))
      ⊎ ((substitute b rep s ≡ t ++ (rep ++ substitute b rep r))
          × (spaced b true r ≡ true)
          × (length r < length s))
unfolding token
token-spaced b rep [] h = inl (refl, refl)
token-spaced b rep (c ∷ s) h = elim (Bool-cases (c == b)) [
  | inl y ↦ inr (ground (arith, h, y), ground (arith, h, y), ground (arith, h, y))
  | inr n ↦ elim (token-spaced b rep s (ground (arith, h, n))) [
    | inl (e, r) ↦ inl (ground (arith, n, e), ground (arith, n, r))
    | inr (e, p, l) ↦ inr (ground (arith, n, e), ground (arith, n, p), ground (arith, n, l))
  ]
]

strtok-spaced :
    (b : ℕ) (s : Text)
    → spaced b true s ≡ true
    → (strtok (b ∷ []) s ≡ some (token (b ∷ []) s)) × (spaced b false s ≡ true)
unfolding strtok skip_delims
strtok-spaced b [] h = ground (arith, h)
strtok-spaced b (c ∷ s) h = elim (Bool-cases (c == b)) [
  | inl y ↦ ground (arith, h, y)
  | inr n ↦ (ground (arith, h, n), ground (arith, h, n))
]

pub strtok_end : (b : ℕ) → strtok (b ∷ []) [] ≡ none
unfolding strtok skip_delims
strtok_end b = refl

join_tokens-spaced :
    (fuel b : ℕ) (rep out s : Text)
    → spaced b false s ≡ true
    → length s ≤ fuel
    → let (t, r) = token (b ∷ []) s in
      join_tokens fuel (b ∷ []) rep out t r ≡ out ++ substitute b rep s
unfolding join_tokens
join_tokens-spaced zero b rep out [] h l = unfold token in refl
join_tokens-spaced zero b rep out (c ∷ s) h l = ground (arith, l)
join_tokens-spaced (suc fuel) b rep out s h l =
    let (t, r) = token (b ∷ []) s in
    elim (token-spaced b rep s h) [
      | inl (e, n) ↦ ground (arith, e, n, strtok_end b)
      | inr (e, p, less) ↦
          let (next, q) = strtok-spaced b r p in
          let rest =
            join_tokens-spaced fuel b rep ((out ++ t) ++ rep) r q (omega (arith, less, l)) in
          ground (
            arith,
            e,
            next,
            rest,
            append_assoc out t (rep ++ substitute b rep r),
            append_assoc (out ++ t) rep (substitute b rep r),
          )
    ]

-- The places of a single byte.
pub anzahl-cons :
    (b c : ℕ) (s : Text) → anzahl (b ∷ []) (c ∷ s) ≡ (if c == b then 1 else 0) + anzahl (b ∷ []) s
unfolding anzahl strip_prefix
anzahl-cons b c s = elim (Bool-cases (b == c)) [
  | inl y ↦ ground (arith, y)
  | inr n ↦ ground (arith, n)
]

anzahl-none : (b : ℕ) (rep s : Text) → anzahl (b ∷ []) s ≡ 0 → substitute b rep s ≡ s
anzahl-none b rep [] h = refl
anzahl-none b rep (c ∷ s) h = ground (arith, h, anzahl-cons b c s, anzahl-none b rep s)

-- A byte that stands between two others wherever it occurs is replaced at each of its places,
-- and nothing else changes.
pub replace_lem :
    (b : ℕ) (rep s : Text)
    → spaced b true s ≡ true
    → string_replace (b ∷ []) rep s ≡ substitute b rep s
unfolding string_replace
replace_lem b rep s h =
    let (first, q) = strtok-spaced b s h in
    elim (Bool-cases (anzahl (b ∷ []) s == 0)) [
      | inl y ↦ ground (arith, y, first, anzahl-none b rep s)
      | inr n ↦ ground (arith, n, first, join_tokens-spaced (length s) b rep [] s q (omega arith))
    ]
