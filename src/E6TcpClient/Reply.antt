-- ===== src/E6TcpClient/Reply.antt =====
-- What the pieces are in which an answer arrives does not matter to `sendTo`.
use haussteuerung.Prelude.{
  ℕ, zero, suc, ◌≤◌, ◌≡◌, refl, ap, ◌∙◌, inl, inr, ◌≢◌, Bool, false, List, [], ◌∷◌, ◌++◌, Option,
  none, some, arith, length, length-append, take, Option-cases, ◌-◌,
}
use mathlib.Core.List.{append_assoc, append-nil}
use haussteuerung.Prelude.Text.{Text}
use haussteuerung.Config.{tcp_buffsize}
use haussteuerung.E6TcpClient.{Ret, ret_parser_error, Read, chunk, judge, Received, receive}
use haussteuerung.E6TcpClient.Receive.{Silent, judge-longer}

-- A piece of at least one byte, as its first byte and the others.
abbrev pub Piece : Type 0
Piece = ℕ × Text

abbrev pub whole : List Piece → Text
whole [] = []
whole ((c, s) ∷ ps) = c ∷ (s ++ whole ps)

abbrev pub reads : List Piece → List Read
reads [] = []
reads ((c, s) ∷ ps) = chunk (c ∷ s) ∷ reads ps

take-all : (n : ℕ) (t : Text) → length t ≤ n → take n t ≡ t
take-all zero [] h = refl
take-all (suc n) [] h = refl
take-all zero (c ∷ t) h = absurd (omega arith)
take-all (suc n) (c ∷ t) h = ap (◌∷◌ c) (take-all n t (omega arith))

after_chunk : Bool → Text → Option Ret → List Read → Received
after_chunk b t (some r) rs = record { ret = r; text = t; lost = false }
after_chunk b t none rs = receive b t rs

receive-chunk :
    (b : Bool) (t : Text) (c : ℕ) (s : Text) (rs : List Read)
    → length (t ++ c ∷ s) ≤ tcp_buffsize - 1
    → receive b t (chunk (c ∷ s) ∷ rs) ≡ after_chunk b (t ++ c ∷ s) (judge b (t ++ c ∷ s) none) rs
unfolding receive after_chunk
receive-chunk b t c s rs l =
    let e =
      take-all (tcp_buffsize - length t - 1) (c ∷ s) (omega (arith, length-append t (c ∷ s))) in
    elim (Option-cases (judge b (t ++ c ∷ s) none)) [
      | inl n ↦ ground (arith, e, n)
      | inr (v, f) ↦ ground (arith, e, f)
    ]

-- In whatever pieces an answer arrives that fits the buffer and that `sendTo` understands without
-- a parser error, the loop ends with what the whole answer means, and the connection stays.
pub receive-whole :
    (b : Bool) (w : Ret) (t : Text) (ps : List Piece)
    → Silent b t
    → w ≢ ret_parser_error
    → judge b (t ++ whole ps) none ≡ some w
    → length (t ++ whole ps) ≤ tcp_buffsize - 1
    → (s : Text) × (receive b t (reads ps) ≡ record { ret = w; text = s; lost = false })
unfolding after_chunk
receive-whole b w t [] q k h l = absurd (ground (arith, append-nil t))
receive-whole b w t ((c, s) ∷ ps) q k h l =
    let e = append_assoc t (c ∷ s) (whole ps) in
    let short : length (t ++ c ∷ s) ≤ tcp_buffsize - 1 =
      omega (arith, length-append (t ++ c ∷ s) (whole ps), ap length e) in
    let step = receive-chunk b t c s (reads ps) short in
    elim (Option-cases (judge b (t ++ c ∷ s) none)) [
      | inl n ↦
          let (r, f) =
            receive-whole b w (t ++ c ∷ s) ps n k (ap (λ x. judge b x none) e ∙ h)
              (omega (arith, ap length e)) in
          (r, step ∙ rw n f)
      | inr (v, f) ↦ (
        t ++ c ∷ s,
        step
            ∙ ground (
              arith,
              f,
              judge-longer b (t ++ c ∷ s) (whole ps) v w (ap (λ x. judge b x none) e ∙ h),
            ),
      )
    ]
