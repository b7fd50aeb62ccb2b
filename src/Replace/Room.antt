-- ===== src/Replace/Room.antt =====
-- The buffer of `stringReplace`, src/haussteuerung.cpp.
use haussteuerung.Prelude.{
  ℕ, zero, suc, ◌+◌, ◌-◌, ◌*◌, ◌≤◌, ◌≡◌, refl, [], ◌∷◌, ◌++◌, none, some, if◌then◌else◌, ◌==◌,
  length, length-append, arith, ◌⊎◌, inl, inr, Bool-cases, List-cases,
}
use haussteuerung.Prelude.Text.{Text}
use haussteuerung.Replace.Tokens.{anzahl-cons, strtok_end}
use haussteuerung.Replace.{
  anzahl, string_len, skip_delims, token, strtok, join_tokens, string_replace,
}

-- The bytes that a text takes, where a replacement takes `l` for each byte of this value.
abbrev cost : ℕ → ℕ → Text → ℕ
cost b l [] = 0
cost b l (c ∷ s) = (if c == b then l else 1) + cost b l s

cost_lem : (b l : ℕ) (s : Text) → 1 ≤ l → cost b l s ≡ length s + anzahl (b ∷ []) s * (l - 1)
cost_lem b l [] h = unfold anzahl in omega arith
cost_lem b l (c ∷ s) h =
    let n = anzahl (b ∷ []) s in
    let more : (suc n * (l - 1) ≡ n * (l - 1) + (l - 1)) = omega arith in
    ground (arith, anzahl-cons b c s, cost_lem b l s h, more)

skip_delims-cost : (b l : ℕ) (s : Text) → cost b l (skip_delims (b ∷ []) s) ≤ cost b l s
unfolding skip_delims
skip_delims-cost b l [] = omega arith
skip_delims-cost b l (c ∷ s) = ground (arith, skip_delims-cost b l s)

-- A token, and a replacement if a delimiter closes it.
token-cost :
    (b l : ℕ) (s : Text)
    → let (t, r) = token (b ∷ []) s in
      ((r ≡ []) × (length t ≤ cost b l s)) ⊎ (length t + l + cost b l r ≤ cost b l s)
unfolding token
token-cost b l [] = inl (refl, omega arith)
token-cost b l (c ∷ s) = elim (Bool-cases (c == b)) [
  | inl y ↦ inr (ground (arith, y))
  | inr n ↦ elim (token-cost b l s) [
    | inl (r, e) ↦ inl (ground (arith, n, r), ground (arith, n, e))
    | inr e ↦ inr (ground (arith, n, e))
  ]
]

-- A further token is taken from a text that takes no more room.
strtok-cost :
    (b l : ℕ) (s : Text)
    → (strtok (b ∷ []) s ≡ none)
      ⊎ ((q : Text) × (strtok (b ∷ []) s ≡ some (token (b ∷ []) q)) × (cost b l q ≤ cost b l s))
unfolding strtok
strtok-cost b l s =
    let less = skip_delims-cost b l s in
    elim (List-cases (skip_delims (b ∷ []) s)) [
      | inl e ↦ inl (ground (arith, e))
      | inr (c, t, e) ↦ inr (c ∷ t, ground (arith, e), ground (arith, e, less))
    ]

join_tokens-cost :
    (fuel b : ℕ) (rep out s : Text)
    → let (t, r) = token (b ∷ []) s in
      length (join_tokens fuel (b ∷ []) rep out t r) ≤ length out + cost b (length rep) s
unfolding join_tokens
join_tokens-cost zero b rep out s = elim (token-cost b (length rep) s) [
  | inl (e, l) ↦ ground (arith, l, length-append out (token (b ∷ []) s).0)
  | inr l ↦ ground (arith, l, length-append out (token (b ∷ []) s).0)
]
join_tokens-cost (suc fuel) b rep out s =
    let (t, r) = token (b ∷ []) s in
    let sum = length-append out t in
    elim (strtok-cost b (length rep) r) [
      | inl n ↦ elim (token-cost b (length rep) s) [
        | inl (e, l) ↦ ground (arith, n, l, sum)
        | inr l ↦ ground (arith, n, l, sum)
      ]
      | inr (q, e, less) ↦
          let next = join_tokens-cost fuel b rep ((out ++ t) ++ rep) q in
          elim (token-cost b (length rep) s) [
            | inl (n, l) ↦ ground (arith, n, l, sum, e, strtok_end b)
            | inr l ↦ ground (arith, l, less, sum, e, next, length-append (out ++ t) rep)
          ]
    ]

-- The result of `stringReplace` with a single byte as its pattern and its closing 0 fit into the
-- buffer of `string_len` bytes, however often and wherever the byte stands, if the replacement is
-- not empty.
pub room_lem :
    (b : ℕ) (rep s : Text)
    → 1 ≤ length rep
    → length (string_replace (b ∷ []) rep s) + 1 ≤ string_len (b ∷ []) rep s
unfolding string_replace string_len
room_lem b rep s h =
    let size = cost_lem b (length rep) s h in
    elim (Bool-cases (anzahl (b ∷ []) s == 0)) [
      | inl y ↦ ground (arith, y)
      | inr n ↦ elim (strtok-cost b (length rep) s) [
        | inl e ↦ ground (arith, n, e)
        | inr (q, e, less) ↦
            ground (arith, n, e, less, size, join_tokens-cost (length s) b rep [] q)
      ]
    ]
