-- ===== src/Wetter/Readings.antt =====
-- The readings of ten minutes and their average, src/devices.cpp.
use haussteuerung.Prelude.{
  ℕ, zero, suc, ◌+◌, ◌≤◌, ◌≡◌, refl, ap, sym, ◌∙◌, Bool, List, [], ◌∷◌, length, take, arith, ltb,
  if◌then◌else◌, map, update,
}
use haussteuerung.Prelude.Int.{ℤ, pos, ◌+ℤ◌, ltb_ℤ, int_laws}
use haussteuerung.Wetter.{DataKs, Wetter, put_ks, put_as, sum_up_to, max_up_to, average}

-- What the two kinds of packets hold.
pub data Reading : Type 0 where
  ks : DataKs → Bool → Reading
  hell : ℤ → Reading

abbrev pub put : Reading → Wetter → Wetter
put (ks d rain) w = put_ks d rain w
put (hell h) w = put_as h w

-- The packets between two averages, in their order.
unfoldable pub put_all : List Reading → Wetter → Wetter
put_all [] w = w
put_all (r ∷ rs) w = put_all rs (put r w)

abbrev pub ks_of : List Reading → List DataKs
ks_of [] = []
ks_of (ks d rain ∷ rs) = d ∷ ks_of rs
ks_of (hell h ∷ rs) = ks_of rs

abbrev pub hell_of : List Reading → List ℤ
hell_of [] = []
hell_of (ks d rain ∷ rs) = hell_of rs
hell_of (hell h ∷ rs) = h ∷ hell_of rs

abbrev pub sum_list : List ℤ → ℤ
sum_list [] = pos 0
sum_list (x ∷ xs) = x +ℤ sum_list xs

-- The greatest of a number and those of a list.
abbrev pub max_list : ℤ → List ℤ → ℤ
max_list m [] = m
max_list m (x ∷ xs) = max_list (if ltb_ℤ m x then x else m) xs

add_zero : (a : ℤ) → a +ℤ pos 0 ≡ a
add_zero a = omega int_laws

zero_add : (a : ℤ) → pos 0 +ℤ a ≡ a
zero_add a = omega int_laws

add_assoc : (a b c : ℤ) → (a +ℤ b) +ℤ c ≡ a +ℤ (b +ℤ c)
add_assoc a b c = omega int_laws

-- A buffer with the number of its readings, as both `put_ks` and `put_as` write it.
module _ {A : Type 0} where
  store : A → (ℕ → A) × ℕ → (ℕ → A) × ℕ
  store v (place, count) =
      (update place count v, (let cnt = suc count in if ltb 5 cnt then 5 else cnt))

  fill : List A → (ℕ → A) × ℕ → (ℕ → A) × ℕ
  fill [] b = b
  fill (v ∷ vs) b = fill vs (store v b)

module _ {A : Type 0} (value : A → ℤ) where
  abbrev sum_of : (ℕ → A) × ℕ → ℤ
  sum_of (place, count) = sum_up_to count (λ i. value (place i))

  abbrev max_of : (ℕ → A) × ℕ → ℤ
  max_of (place, count) = max_up_to count (λ i. value (place i))

  sum-update : (n i : ℕ) (f : ℕ → A) (v : A) → n ≤ i → sum_of (update f i v, n) ≡ sum_of (f, n)
  unfolding sum_up_to
  sum-update zero i f v h = refl
  sum-update (suc n) i f v h = ground (arith, sum-update n i f v)

  max-update : (n i : ℕ) (f : ℕ → A) (v : A) → n ≤ i → max_of (update f i v, n) ≡ max_of (f, n)
  unfolding max_up_to
  max-update zero i f v h = refl
  max-update (suc n) i f v h = ground (arith, max-update n i f v)

  store_room :
      (v : A) (f : ℕ → A) (n room : ℕ) → n + suc room ≡ 5 → store v (f, n) ≡ (update f n v, suc n)
  unfolding store
  store_room v f n room h =
      let e : (if ltb 5 (suc n) then 5 else suc n) ≡ suc n = ground arith in
      ap (λ k. (update f n v, k)) e

  sum-room : (v : A) (f : ℕ → A) (n : ℕ) → sum_of (update f n v, suc n) ≡ sum_of (f, n) +ℤ value v
  unfolding sum_up_to
  sum-room v f n = ground (arith, sum-update n n f v (omega arith))

  max-room :
      (v : A) (f : ℕ → A) (n : ℕ)
      → max_of (update f n v, suc n)
        ≡ (if ltb_ℤ (max_of (f, n)) (value v) then value v else max_of (f, n))
  unfolding max_up_to
  max-room v f n = ground (arith, max-update n n f v (omega arith))

  fill_full :
      (vs : List A) (f : ℕ → A)
      → ((fill vs (f, 5)).1 ≡ 5)
        × (sum_of (fill vs (f, 5)) ≡ sum_of (f, 5))
        × (max_of (fill vs (f, 5)) ≡ max_of (f, 5))
  unfolding fill store
  fill_full [] f = (refl, refl, refl)
  fill_full (v ∷ vs) f =
      let (c, s, m) = fill_full vs (update f 5 v) in
      (c, s ∙ sum-update 5 5 f v (omega arith), m ∙ max-update 5 5 f v (omega arith))

  fill_lem :
      (vs : List A) (f : ℕ → A) (n room : ℕ)
      → n + room ≡ 5
      → ((fill vs (f, n)).1 ≡ n + length (take room vs))
        × (sum_of (fill vs (f, n)) ≡ sum_of (f, n) +ℤ sum_list (map value (take room vs)))
        × (max_of (fill vs (f, n)) ≡ max_list (max_of (f, n)) (map value (take room vs)))
  unfolding fill
  fill_lem [] f n zero h = ground (arith, add_zero (sum_of (f, n)))
  fill_lem [] f n (suc room) h = ground (arith, add_zero (sum_of (f, n)))
  fill_lem (v ∷ vs) f n zero h =
      let five : n ≡ 5 = omega arith in
      rw five (let (c, s, m) = fill_full (v ∷ vs) f in (c, s ∙ sym (add_zero (sum_of (f, 5))), m))
  fill_lem (v ∷ vs) f n (suc room) h =
      let (c, s, m) = fill_lem vs (update f n v) (suc n) room (omega arith) in
      let e : fill (v ∷ vs) (f, n) ≡ fill vs (update f n v, suc n) =
        ap (fill vs) (store_room v f n room h) in
      rw e (
        ground (arith, c),
        s
            ∙ ap (λ a. a +ℤ sum_list (map value (take room vs))) (sum-room v f n)
            ∙ add_assoc (sum_of (f, n)) (value v) (sum_list (map value (take room vs))),
        m ∙ ap (λ a. max_list a (map value (take room vs))) (max-room v f n),
      )

-- The readings of a kind that an average takes: the first five since the last one.
abbrev pub first_five : {A : Type 0} → List A → List A
first_five xs = take 5 xs

fill_empty :
    {A : Type 0} (value : A → ℤ) (vs : List A) (f : ℕ → A) (n : ℕ)
    → n ≡ 0
    → ((fill vs (f, n)).1 ≡ length (first_five vs))
      × (sum_of value (fill vs (f, n)) ≡ sum_list (map value (first_five vs)))
      × (max_of value (fill vs (f, n)) ≡ max_list (pos 0) (map value (first_five vs)))
unfolding sum_up_to max_up_to
fill_empty value vs f n z =
    let (c, s, m) = fill_lem value vs f 0 5 refl in
    rw z (ground (arith, c), s ∙ zero_add (sum_list (map value (first_five vs))), m)

ks_buffer :
    (rs : List Reading) (w : Wetter)
    → ((put_all rs w).buf_ks, (put_all rs w).cnt_ks_buf) ≡ fill (ks_of rs) (w.buf_ks, w.cnt_ks_buf)
unfolding put_all put_ks put_as fill store
ks_buffer [] w = refl
ks_buffer (ks d rain ∷ rs) w = ks_buffer rs (put_ks d rain w)
ks_buffer (hell h ∷ rs) w = ks_buffer rs (put_as h w)

hell_buffer :
    (rs : List Reading) (w : Wetter)
    → ((put_all rs w).buf_hell, (put_all rs w).cnt_as_buf)
      ≡ fill (hell_of rs) (w.buf_hell, w.cnt_as_buf)
unfolding put_all put_ks put_as fill store
hell_buffer [] w = refl
hell_buffer (ks d rain ∷ rs) w = hell_buffer rs (put_ks d rain w)
hell_buffer (hell h ∷ rs) w = hell_buffer rs (put_as h w)

-- The average is that of the first five readings of its kind since the last one, where none were
-- left over from then, in whatever order the packets of the two kinds came: their number, their
-- sums, and the greatest wind of them and zero; the count of the rain is the last one received.
-- Both buffers are empty afterwards.
pub average_lem :
    (rs : List Reading) (w : Wetter)
    → w.cnt_ks_buf ≡ 0
    → w.cnt_as_buf ≡ 0
    → let w' = average (put_all rs w) in
      let ks5 = first_five (ks_of rs) in
      let hell5 = first_five (hell_of rs) in
      (w'.avg.rec_ks ≡ length ks5)
      × (w'.avg.sum_temp ≡ sum_list (map (λ d. d.temp) ks5))
      × (w'.avg.sum_feuchte ≡ sum_list (map (λ d. d.feuchte) ks5))
      × (w'.avg.max_wind ≡ max_list (pos 0) (map (λ d. d.wind) ks5))
      × (w'.avg.rec_as ≡ length hell5)
      × (w'.avg.sum_hell ≡ sum_list (map (λ h. h) hell5))
      × (w'.avg.cnt_regen ≡ (put_all rs w).last_ks.cnt_regen)
      × (w'.cnt_ks_buf ≡ 0)
      × (w'.cnt_as_buf ≡ 0)
unfolding average
average_lem rs w z y =
    let ks = ks_buffer rs w in
    let hs = hell_buffer rs w in
    let (c, t, _) = fill_empty (λ d. d.temp) (ks_of rs) w.buf_ks w.cnt_ks_buf z in
    let (_, u, _) = fill_empty (λ d. d.feuchte) (ks_of rs) w.buf_ks w.cnt_ks_buf z in
    let (_, _, v) = fill_empty (λ d. d.wind) (ks_of rs) w.buf_ks w.cnt_ks_buf z in
    let (n, l, _) = fill_empty (λ h. h) (hell_of rs) w.buf_hell w.cnt_as_buf y in
    (
      ap (λ p. p.1) ks ∙ c,
      ap (sum_of (λ d. d.temp)) ks ∙ t,
      ap (sum_of (λ d. d.feuchte)) ks ∙ u,
      ap (max_of (λ d. d.wind)) ks ∙ v,
      ap (λ p. p.1) hs ∙ n,
      ap (sum_of (λ h. h)) hs ∙ l,
      refl,
      refl,
      refl,
    )
