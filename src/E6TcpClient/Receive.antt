-- ===== src/E6TcpClient/Receive.antt =====
-- The receive loop of `E6TcpClient::sendTo`, src/e6tcpclient.cpp.
use haussteuerung.Prelude.{
  ◌≤◌, ◌≡◌, refl, inl, inr, ◌≢◌, Bool, true, false, List, [], ◌∷◌, ◌++◌, Option, none, some, arith,
  length, length-append, take, length-take-le, Option-cases, if◌then◌else◌, ◌-◌,
}
use haussteuerung.Prelude.Text.{
  Text, codes, until, contains, contains_shorter, contains_append, until-append,
}
use haussteuerung.Config.{tcp_buffsize}
use haussteuerung.E6TcpClient.{
  Ret, ret_ok, ret_dummy, ret_parser_error, ret_buffer, ret_error, Read, timeout, read_error,
  closed, chunk, judge, drop_last, Received, receive, ok_in, parser_error_in, is_empty, fail_with,
}

-- What a call may return: a line without `recOK`, an OK with it, never the dummy's result.
abbrev pub Fits : Bool → Ret → Type 0
Fits rec_ok ret_ok = rec_ok ≡ true
Fits rec_ok ret_buffer = rec_ok ≡ false
Fits rec_ok ret_dummy = ⊥
Fits rec_ok ret_parser_error = Unit
Fits rec_ok ret_error = Unit

judge-Fits : (b : Bool) (t : Text) (r : Ret) → judge b t none ≡ some r → Fits b r × (r ≢ ret_error)
unfolding judge
judge-Fits true t r h = ground arith
judge-Fits false t r h = ground arith

-- Where the tests find nothing, they leave the result as it was.
judge-none : (b : Bool) (t : Text) (r : Option Ret) → judge b t none ≡ none → judge b t r ≡ r
unfolding judge
judge-none true t r h = ground arith
judge-none false t r h = ground arith

ok_in-append : (s u : Text) → ok_in s ≡ true → ok_in (s ++ u) ≡ true
unfolding ok_in
ok_in-append s u h = ground (
  arith,
  contains_append s u (codes "OK" ++ 10 ∷ []),
  contains_append s u (codes "ok" ++ 10 ∷ []),
)

parser_error_in-append : (s u : Text) → parser_error_in s ≡ true → parser_error_in (s ++ u) ≡ true
unfolding parser_error_in
parser_error_in-append s u h = ground (
  arith,
  contains_append s u (codes "parser error" ++ 10 ∷ []),
  contains_append s u (codes "parse error" ++ 10 ∷ []),
)

abbrev pub Silent : Bool → Text → Type 0
Silent b t = judge b t none ≡ none

judge-shorter : (b : Bool) (t u : Text) → Silent b (t ++ u) → Silent b t
unfolding judge
judge-shorter b t u h =
    let (v, e) = until-append 0 t u in
    ground (
      arith,
      e,
      contains_shorter (until 0 t) v (10 ∷ []),
      ok_in-append (until 0 t) v,
      parser_error_in-append (until 0 t) v,
    )

-- What the tests find in a text without a parser error they find in each beginning of it that
-- they do not pass over.
pub judge-longer :
    (b : Bool) (t u : Text) (v w : Ret)
    → judge b (t ++ u) none ≡ some w
    → w ≢ ret_parser_error
    → judge b t none ≡ some v
    → v ≡ w
unfolding judge
judge-longer b t u v w h k g =
    let (z, e) = until-append 0 t u in
    ground (
      arith,
      e,
      contains_append (until 0 t) z (10 ∷ []),
      ok_in-append (until 0 t) z,
      parser_error_in-append (until 0 t) z,
    )

drop_last_lem : (t : Text) → (c : Text) × (t ≡ drop_last t ++ c)
unfolding drop_last
drop_last_lem [] = ([], refl)
drop_last_lem (c ∷ []) = (c ∷ [], refl)
drop_last_lem (c ∷ d ∷ t) = let (x, g) = drop_last_lem (d ∷ t) in (x, ground (arith, g))

-- What a finished loop is like: the result fits the call, the text fits the buffer, and the
-- connection counts as lost exactly if the result is `RET_ERROR`.
pub record IsGood (b : Bool) (r : Received) : Type 0 where
  pub fits : Fits b r.ret
  pub room : length r.text ≤ tcp_buffsize - 1
  pub lost_error : r.lost ≡ true → r.ret ≡ ret_error
  pub error_lost : r.ret ≡ ret_error → r.lost ≡ true

lost-IsGood :
    (b : Bool) (t : Text)
    → length t ≤ tcp_buffsize - 1
    → IsGood b (record { ret = ret_error; text = t; lost = true })
lost-IsGood b t h = record { fits = tt; room = h; lost_error = λ _. refl; error_lost = λ _. refl }

-- A round in which bytes arrive; the last argument is the rest of the loop.
receive_chunk :
    (b : Bool) (t : Text) (rs : List Read) (bytes : Text)
    → length t ≤ tcp_buffsize - 1
    → Silent b t
    → length bytes ≤ tcp_buffsize - length t - 1
    → ((s : Text) → length s ≤ tcp_buffsize - 1 → Silent b s → IsGood b (receive b s rs))
    → IsGood b (
        if is_empty bytes then fail_with b t else elim (judge b (t ++ bytes) none) [
          | some r ↦ record { ret = r; text = t ++ bytes; lost = false }
          | none ↦ receive b (t ++ bytes) rs
        ])
receive_chunk b t rs [] h q k more =
    ground (arith, lost-IsGood b t, judge-none b t (some ret_error))
receive_chunk b t rs (y ∷ ys) h q k more = elim (Option-cases (judge b (t ++ y ∷ ys) none)) [
  | inl n ↦ rw n (more (t ++ y ∷ ys) (omega (arith, length-append t (y ∷ ys))) n)
  | inr (v, f) ↦ ground (arith, f, length-append t (y ∷ ys), judge-Fits b (t ++ y ∷ ys) v)
]

pub receive-IsGood :
    (b : Bool) (t : Text) (rs : List Read)
    → length t ≤ tcp_buffsize - 1
    → Silent b t
    → IsGood b (receive b t rs)
unfolding receive
receive-IsGood b t [] h q = lost-IsGood b t h
receive-IsGood b t (timeout ∷ rs) h q = lost-IsGood b t h
receive-IsGood b t (closed ∷ rs) h q =
    ground (arith, lost-IsGood b t, judge-none b t (some ret_error))
receive-IsGood b t (read_error ∷ rs) h q =
    let (c, g) = drop_last_lem t in
    let s = drop_last t in
    ground (
      arith,
      lost-IsGood b s,
      g,
      length-append s c,
      judge-none b s (some ret_error),
      judge-shorter b s c,
    )
receive-IsGood b t (chunk [] ∷ rs) h q =
    ground (arith, lost-IsGood b t, judge-none b t (some ret_error))
receive-IsGood b t (chunk (x ∷ xs) ∷ rs) h q =
    receive_chunk b t rs (take (tcp_buffsize - length t - 1) (x ∷ xs)) h q
      (length-take-le (tcp_buffsize - length t - 1) (x ∷ xs))
      (λ s room silent. receive-IsGood b s rs room silent)

-- A first read that fails leaves the empty text and ends with `RET_ERROR`.
pub first_read_lem :
    (b : Bool) (rs : List Read)
    → receive b [] (read_error ∷ rs) ≡ record { ret = ret_error; text = []; lost = true }
unfolding receive drop_last judge ok_in parser_error_in contains until
first_read_lem true rs = refl
first_read_lem false rs = refl
