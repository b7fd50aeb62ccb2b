-- ===== src/TimeControl/Compare.antt =====
-- What `compareTimeString` of src/haussteuerung.cpp compares with: the times of the configuration
-- as the web interface writes them.
use haussteuerung.Prelude.{
  ℕ, ◌+◌, ◌*◌, ◌/◌, ◌%◌, ◌<◌, ◌≡◌, refl, Bool, true, false, ◌&&◌, [], ◌∷◌, ◌++◌, none, some, arith,
  ◌==◌, if◌then◌else◌, Bool-cases,
}
use haussteuerung.Prelude.Int.{ℤ, pos, ◌+ℤ◌, ◌*ℤ◌, same_ℤ}
use haussteuerung.Prelude.Text.{
  Text, codes, contains, after, strip_prefix, print_dec, emit, digit_char, atoi, strtol-signed,
  contains_middle, digit_value, two_digits, strtol-two_digits, negate, after-digits, emit-digits,
  begins_with_decimal,
}
use haussteuerung.TimeControl.{Sun, Tm, minutes, clock_minutes, sun_minutes, compare_time_string}

abbrev pub clock_text : ℕ → ℕ → Text
clock_text h m = two_digits h (b':' ∷ two_digits m [])

clock_contains : (h m : ℕ) → contains (clock_text h m) (codes ":") ≡ true
clock_contains h m =
    contains_middle (digit_char (h / 10) ∷ digit_char (h % 10) ∷ []) (codes ":") (two_digits m [])

colon_begins : (s : Text) → begins_with_decimal (b':' ∷ s) ≡ false
unfolding digit_value
colon_begins s = refl

clock_minutes_lem :
    (h m : ℕ) → h < 100 → m < 100 → clock_minutes (clock_text h m) ≡ pos (h * 60 + m)
unfolding clock_minutes atoi ◌+ℤ◌ ◌*ℤ◌
clock_minutes_lem h m a b = ground (
  arith,
  strtol-two_digits h (b':' ∷ two_digits m []) a (colon_begins (two_digits m [])),
  strtol-two_digits m [] b refl,
)

clock_lem :
    (h m : ℕ) (sun : Sun) (t : Tm)
    → h < 24
    → m < 60
    → t.tm_hour < 24
    → t.tm_min < 60
    → compare_time_string (some (clock_text h m)) sun t ≡ some ((t.tm_hour == h) && (t.tm_min == m))
unfolding compare_time_string
clock_lem h m sun t a b c d = ground (
  arith,
  clock_contains h m,
  clock_minutes_lem h m,
  Bool-cases (t.tm_hour == h),
  Bool-cases (t.tm_min == m),
)

-- The bytes of an offset: a sign and decimal digits.
abbrev pub offset_text : Bool → ℕ → Text
offset_text later n = (if later then b'+' else b'-') ∷ print_dec n []

abbrev pub offset_of : Bool → ℕ → ℤ
offset_of later n = if later then pos n else negate n

abbrev pub sun_text : Bool → Text → Text
sun_text sunrise s = (if sunrise then codes "SA" else codes "SU") ++ s

abbrev pub sun_at : Sun → Bool → ℤ
sun_at sun sunrise =
    if sunrise then sun.sa_hour *ℤ pos 60 +ℤ sun.sa_min else sun.su_hour *ℤ pos 60 +ℤ sun.su_min

no_colon :
    (sunrise later : Bool) (n : ℕ)
    → contains (sun_text sunrise (offset_text later n)) (codes ":") ≡ false
unfolding contains after strip_prefix print_dec
no_colon true true n = ground (arith, after-digits b':' [] (emit n 10 n []), emit-digits n n [])
no_colon true false n = ground (arith, after-digits b':' [] (emit n 10 n []), emit-digits n n [])
no_colon false true n = ground (arith, after-digits b':' [] (emit n 10 n []), emit-digits n n [])
no_colon false false n = ground (arith, after-digits b':' [] (emit n 10 n []), emit-digits n n [])

after_name :
    (later : Bool) (n : ℕ)
    → (after (codes "SA") (codes "SA" ++ offset_text later n) ≡ some (offset_text later n))
      × (after (codes "SA") (codes "SU" ++ offset_text later n) ≡ none)
      × (after (codes "SU") (codes "SU" ++ offset_text later n) ≡ some (offset_text later n))
unfolding after strip_prefix print_dec
after_name true n =
    ground (arith, after-digits b'S' (codes "A") (emit n 10 n []), emit-digits n n [])
after_name false n =
    ground (arith, after-digits b'S' (codes "A") (emit n 10 n []), emit-digits n n [])

offset_lem : (later : Bool) (n : ℕ) → atoi (offset_text later n) ≡ offset_of later n
unfolding atoi
offset_lem true n = ground (arith, strtol-signed n)
offset_lem false n = ground (arith, strtol-signed n)

sun_lem :
    (sunrise later : Bool) (n : ℕ) (sun : Sun) (t : Tm)
    → compare_time_string (some (sun_text sunrise (offset_text later n))) sun t
      ≡ some (same_ℤ (minutes t) (sun_at sun sunrise +ℤ offset_of later n))
unfolding compare_time_string sun_minutes
sun_lem true later n sun t =
    ground (arith, no_colon true later n, after_name later n, offset_lem later n)
sun_lem false later n sun t =
    ground (arith, no_colon false later n, after_name later n, offset_lem later n)

-- A time of day with two digits for the hour and two for the minute is matched in exactly that
-- minute of the day, wherever the sun stands; a time relative to the sun, with a sign and a number
-- of minutes, in exactly the minute that many minutes after or before sunrise or sunset.
pub times_lem :
    (h m n : ℕ) (sunrise later : Bool) (sun : Sun) (t : Tm)
    → h < 24
    → m < 60
    → t.tm_hour < 24
    → t.tm_min < 60
    → (compare_time_string (some (clock_text h m)) sun t
        ≡ some ((t.tm_hour == h) && (t.tm_min == m)))
      × (compare_time_string (some (sun_text sunrise (offset_text later n))) sun t
          ≡ some (same_ℤ (minutes t) (sun_at sun sunrise +ℤ offset_of later n)))
times_lem h m n sunrise later sun t a b c d =
    (clock_lem h m sun t a b c d, sun_lem sunrise later n sun t)
