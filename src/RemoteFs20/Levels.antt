-- ===== src/RemoteFs20/Levels.antt =====
-- The levels of brightness of `setLampeWert`, src/devices.cpp.
use haussteuerung.Prelude.{
  ℕ, zero, suc, ◌+◌, ◌*◌, ◌/◌, ◌≤◌, ◌<◌, ◌≡◌, refl, Bool, true, false, Option, none, some, ◌==◌,
  arith, all_below, all_below_sound, List,
}
use haussteuerung.Prelude.Int.{pos, negsuc, to_int, ◌*ℤ◌}
use haussteuerung.Prelude.Text.{Text}
use haussteuerung.Ini.{Ini}
use haussteuerung.RemoteFs20
use haussteuerung.RemoteFs20.{Order}

-- The least of the 16 levels that is not darker than that many percent.
abbrev pub stufe_of : ℕ → ℕ
stufe_of wert = (wert * 16 + 99) / 100

hundred_lem : (w : ℕ) → w ≤ 21474836 → to_int (pos w *ℤ pos 100) ≡ pos (w * 100)
unfolding to_int ◌*ℤ◌
hundred_lem w m = ground arith

module _ (ini : Ini) (light : Ini.Dict ini) where
  abbrev is_some_of : Option ℕ → ℕ → Bool
  is_some_of none n = false
  is_some_of (some m) n = m == n

  level_table :
      all_below 100
        (λ w. is_some_of (RemoteFs20.stufe_for ini light 16 625 0 (pos (suc w))) (stufe_of (suc w)))
      ≡ true
  unfolding all_below RemoteFs20.stufe_for to_int ◌*ℤ◌
  level_table = refl

  stufe_for-in_range :
      (w : ℕ)
      → w < 100
      → RemoteFs20.stufe_for ini light 16 625 0 (pos (suc w)) ≡ some (stufe_of (suc w))
  stufe_for-in_range w h = ground (arith, all_below_sound 100 _ w level_table h)

  stufe_for-too_bright :
      (rounds i stufe w : ℕ)
      → w ≤ 21474836
      → i + 625 * rounds ≤ w * 100 + 624
      → RemoteFs20.stufe_for ini light rounds i stufe (pos w) ≡ none
  unfolding RemoteFs20.stufe_for
  stufe_for-too_bright zero i stufe w m h = refl
  stufe_for-too_bright (suc rounds) i stufe w m h =
      ground (arith, hundred_lem w m, stufe_for-too_bright rounds (i + 625) (stufe + 1) w)

  stufe_for-negative :
      (w : ℕ) → w < 21474836 → RemoteFs20.stufe_for ini light 16 625 0 (negsuc w) ≡ some 1
  unfolding RemoteFs20.stufe_for to_int ◌*ℤ◌
  stufe_for-negative w m = ground arith

  -- For a brightness between -21474836 and 21474836 percent, whose hundredfold an `int` holds: a
  -- brightness of 0 to 100 percent is sent as the least of the 16 levels that is not darker, one above
  -- 100 is not sent at all, and one below 0 is sent as level 1.
  pub set_lampe_wert_lem :
      (held : Text → ℕ) (hc : ℕ) (lampe : Text) (w : ℕ) (sent : List Order)
      → w < 21474836
      → (w ≤ 100
          → RemoteFs20.set_lampe_wert ini light held hc lampe (pos w) sent
            ≡ RemoteFs20.set_lampe_stufe ini light held hc lampe (pos (stufe_of w)) sent)
        × (100 < w → RemoteFs20.set_lampe_wert ini light held hc lampe (pos w) sent ≡ some sent)
        × (RemoteFs20.set_lampe_wert ini light held hc lampe (negsuc w) sent
            ≡ RemoteFs20.set_lampe_stufe ini light held hc lampe (pos 1) sent)
  unfolding RemoteFs20.set_lampe_wert RemoteFs20.set_lampe_stufe
  set_lampe_wert_lem held hc lampe zero sent m =
      (λ _. refl, λ h. absurd (omega arith), rw (stufe_for-negative 0 m) refl)
  set_lampe_wert_lem held hc lampe (suc w) sent m = (
    λ h. ground (arith, stufe_for-in_range w (omega arith)),
    λ h. ground (arith, stufe_for-too_bright 16 625 0 (suc w) (omega arith) (omega arith)),
    rw (stufe_for-negative (suc w) m) refl,
  )
