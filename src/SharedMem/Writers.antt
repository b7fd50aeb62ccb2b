-- ===== src/SharedMem/Writers.antt =====
-- The methods that write several elements of the shared memory: `Wetter::updateSHM` of
-- src/devices.cpp and `Temp::updateSHM` of src/temp.cpp. The texts that `sprintf` and the methods
-- for the values make of floating point numbers and times are arguments.
use haussteuerung.Prelude.{
  ℕ, ◌+◌, ◌≤◌, ◌<◌, ◌≡◌, refl, Bool, true, ◌&&◌, List, [], ◌∷◌, ◌++◌, Option, some, ◌>>=◌, ltb,
  length, length-append, update, arith, ap,
}
use haussteuerung.Prelude.Text.{Text, codes}
use haussteuerung.SharedMem.{update_helper, mem_max_size}
use haussteuerung.SharedMem.Pieces.{Piece, mark, tag, lacks, render}
use haussteuerung.SharedMem.Template.{names, shm_text}
use haussteuerung.SharedMem.Splits.{nth, element, front, behind, page-split, page-update}
use haussteuerung.SharedMem.Table.{table_lem, text-split}

pub record WeatherTexts : Type 0 where
  pub stamp_wetter : Text
  pub stamp_hell : Text
  pub temp : Text
  pub feuchte : Text
  pub wind : Text
  pub regen_1h : Text
  pub regen_24h : Text
  pub regen_7d : Text
  pub symbol : Text

unfoldable pub update_weather : WeatherTexts → Text → Option Text
update_weather w shm = update_helper (codes "<EmpfangWetter>") w.stamp_wetter shm >>= λ s1.
    update_helper (codes "<EmpfangHell>") w.stamp_hell s1 >>= λ s2.
    update_helper (codes "<TempAussen>") w.temp s2 >>= λ s3.
    update_helper (codes "<Feuchte>") w.feuchte s3 >>= λ s4.
    update_helper (codes "<Wind>") w.wind s4 >>= λ s5.
    update_helper (codes "<Regen_1h>") w.regen_1h s5 >>= λ s6.
    update_helper (codes "<Regen_24h>") w.regen_24h s6 >>= λ s7.
    update_helper (codes "<Regen_7d>") w.regen_7d s7 >>= λ s8.
    update_helper (codes "<Symbol>") w.symbol s8 >>= λ s9. some s9

-- `strTag` is the name of the element.
unfoldable pub update_temp : Text → Text → Text → Option Text
update_temp str_tag new_value shm = update_helper (tag str_tag) new_value shm

-- Updates by number, one after the other.
abbrev pub write_all : List (ℕ × Text) → Text → Option Text
write_all [] shm = some shm
write_all ((i, v) ∷ more) shm = update_helper (tag (nth i names)) v shm >>= λ s. write_all more s

abbrev pub set_all : List (ℕ × Text) → (ℕ → Text) → ℕ → Text
set_all [] values = values
set_all ((i, v) ∷ more) values = set_all more (update values i v)

abbrev pub all_plain : List (ℕ × Text) → Bool
all_plain [] = true
all_plain ((i, v) ∷ more) = ltb i 28 && lacks b'<' v && all_plain more

abbrev pub total : List (ℕ × Text) → ℕ
total [] = 0
total ((i, v) ∷ more) = length v + total more

-- Two values of one element differ in the text by their lengths.
element-length :
    (ps : List Piece) (n old new : Text) (qs : List Piece)
    → length (render (ps ++ element n new qs)) + length old
      ≡ length (render (ps ++ element n old qs)) + length new
element-length ps n old new qs =
    let front_of = render ps ++ tag n in
    let tail = render (mark (b'/' ∷ n) ∷ qs) in
    let a = ap length (text-split ps n old qs) in
    let b = ap length (text-split ps n new qs) in
    let a1 = length-append front_of (old ++ tail) in
    let b1 = length-append front_of (new ++ tail) in
    omega (arith, a, b, a1, b1, length-append old tail, length-append new tail)

at_most : (a b c d x y : ℕ) → a ≡ c → b ≡ d → c + x ≡ d + y → a ≤ b + y
at_most a b c d x y e f s = omega (arith, e, f, s)

-- An update makes the text longer by the new value at most.
update-length :
    (i : ℕ) (values : ℕ → Text) (v : Text)
    → i < 28
    → length (shm_text (update values i v)) ≤ length (shm_text values) + length v
unfolding shm_text
update-length i values v h =
    at_most _ _ _ _ (length (values i)) (length v)
      (ap (λ t. length (render t)) (page-update i values v h))
      (ap (λ t. length (render t)) (page-split i values h))
      (element-length (front i values) (nth i names) (values i) v (behind i 0 names values))

-- Updates one after the other are those of the table, if all of the values fit in.
write_all_lem :
    (list : List (ℕ × Text)) (values : ℕ → Text)
    → all_plain list ≡ true
    → ((j : ℕ) → lacks b'<' (values j) ≡ true)
    → length (shm_text values) + total list ≤ mem_max_size
    → write_all list (shm_text values) ≡ some (shm_text (set_all list values))
write_all_lem [] values p w fits = refl
write_all_lem ((i, v) ∷ more) values p w fits =
    let low : (i < 28) = ground (arith, p) in
    let longer = update-length i values v low in
    let step = table_lem i values v low w (omega (arith, fits)) (omega (arith, fits, longer)) in
    let plain_still : ((j : ℕ) → lacks b'<' (update values i v j) ≡ true) =
      λ j. ground (arith, p, w j) in
    let rest =
      write_all_lem more (update values i v) (ground (arith, p)) plain_still
        (omega (arith, fits, longer)) in
    cc (step, rest)

-- The elements that the weather writes, in its order.
abbrev pub weather_list : WeatherTexts → List (ℕ × Text)
weather_list w =
    (20, w.stamp_wetter)
    ∷ (21, w.stamp_hell)
    ∷ (3, w.temp)
    ∷ (4, w.feuchte)
    ∷ (5, w.wind)
    ∷ (6, w.regen_1h)
    ∷ (7, w.regen_24h)
    ∷ (8, w.regen_7d)
    ∷ (9, w.symbol)
    ∷ []

as_list : (w : WeatherTexts) (shm : Text) → update_weather w shm ≡ write_all (weather_list w) shm
unfolding update_weather
as_list w shm = refl

-- The weather station writes its nine values into their elements of the table and changes no
-- other one, where no value holds `<` and the shared memory has room for all of the new values
-- besides the old text.
pub weather_lem :
    (w : WeatherTexts) (values : ℕ → Text)
    → all_plain (weather_list w) ≡ true
    → ((j : ℕ) → lacks b'<' (values j) ≡ true)
    → length (shm_text values) + total (weather_list w) ≤ mem_max_size
    → update_weather w (shm_text values) ≡ some (shm_text (set_all (weather_list w) values))
weather_lem w values p v fits =
    cc (as_list w (shm_text values), write_all_lem (weather_list w) values p v fits)
