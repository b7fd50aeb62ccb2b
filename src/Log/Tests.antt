-- ===== src/Log/Tests.antt =====
-- The rotation of src/log.cpp for a log of 2000 lines.
use haussteuerung.Prelude.{
  ℕ, zero, suc, ◌*◌, ◌≡◌, refl, true, false, [], ◌∷◌, ◌++◌, Option, some, length, arith,
}
use haussteuerung.Prelude.Text.{Text}
use haussteuerung.Log.{Files, ends_with_newline, Lines, bytes, limit_file_size}
use haussteuerung.Log.Rotation.{all_pieces, complete, last_of, rotate_lem}

abbrev dots : ℕ → Text
dots zero = 10 ∷ []
dots (suc n) = b'.' ∷ dots n

abbrev log_of : ℕ → Lines
log_of zero = []
log_of (suc n) = dots 199 ∷ log_of n

length-dots : (n : ℕ) → length (dots n) ≡ suc n
length-dots zero = refl
length-dots (suc n) = omega (arith, length-dots n)

bytes-log_of : (n : ℕ) → bytes (log_of n) ≡ 200 * n
bytes-log_of zero = omega arith
bytes-log_of (suc n) = omega (arith, bytes-log_of n, length-dots 199)

pieces-log_of : (n : ℕ) → all_pieces (log_of n) ≡ true
pieces-log_of zero = refl
pieces-log_of (suc n) = ground (arith, pieces-log_of n, length-dots 199)

newline-dots : (n : ℕ) → ends_with_newline (dots n) ≡ true
newline-dots zero = refl
newline-dots (suc zero) = refl
newline-dots (suc (suc n)) = newline-dots (suc n)

complete-log_of : (n : ℕ) → complete (log_of n) ≡ true
complete-log_of zero = refl
complete-log_of (suc zero) = ground (arith, newline-dots 199)
complete-log_of (suc (suc n)) = complete-log_of (suc n)

abbrev old : ℕ → Option Lines
old j = some ((j ∷ 10 ∷ []) ∷ [])

rotate_lem_example :
    let before : Files = record { log = some (log_of 2000); archive = old } in
    let f = limit_file_size true before in
    (copied : Lines) × (rest : Lines) × (held : Text) × (copied ++ rest ≡ log_of 2000)
    × (length rest ≡ 101)
    × (f.archive 1 ≡ some copied)
    × (f.log ≡ some (rest ++ last_of held rest ∷ []))
    × (f.archive 5 ≡ some ((4 ∷ 10 ∷ []) ∷ []))
    × (limit_file_size false before ≡ before)
rotate_lem_example =
    rotate_lem (log_of 2000) old 3 (pieces-log_of 2000) (complete-log_of 2000)
      (omega (arith, bytes-log_of 2000)) (omega arith)
