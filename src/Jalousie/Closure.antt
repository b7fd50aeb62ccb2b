-- ===== src/Jalousie/Closure.antt =====
-- What `pstop`, `offset` and `drv` keep, every method and every thread of src/jalousie.cpp keeps.
use haussteuerung.Prelude.{ℕ, ◌≤◌, ◌≡◌, refl, ◌⊎◌, Bool, true, false, arith, inl, inr, ◌+◌}
use haussteuerung.Config.{stop, auf, ab, fahrzeit, sonnenzeit}
use haussteuerung.Jalousie.State.{
  Jalousie, relays, update_shm, pstop, drv, offset, pdrv_aufwaerts, pdrv_abwaerts, drv_aufwaerts,
  drv_abwaerts, toggle_aufwaerts, toggle_abwaerts, sonne_from, drv_sonne,
}
use haussteuerung.Jalousie.Timer.{
  Command, auf_by, ab_by, auf_all, ab_all, toggle_auf, toggle_ab, sonne, halt, run,
}

pub pstop-stop : (k : ℕ) (s : Jalousie) → s.drvstate k ≤ ab → (pstop k s).drvstate k ≡ stop
unfolding pstop relays update_shm
pstop-stop k s h = ground arith

module _ (P : Jalousie → Type 0) (legal : (k : ℕ) (s : Jalousie) → P s → s.drvstate k ≤ ab)
    (keep_stop : (k : ℕ) (s : Jalousie) → P s → P (pstop k s))
    (keep_offset : (s : Jalousie) → P s → P (offset s).0)
    (keep_drv : (created : Bool) (k d time : ℕ) (sun : Bool) (s : Jalousie)
      → (d ≡ auf) ⊎ (d ≡ ab)
      → s.drvstate k ≡ stop
      → P s
      → P (drv created k d time sun s).0) where
  pdrv_aufwaerts-P :
      (created : Bool) (k time : ℕ) (s : Jalousie) → P s → P (pdrv_aufwaerts created k time s).0
  unfolding pdrv_aufwaerts
  pdrv_aufwaerts-P created k time s h = ground (
    arith,
    legal k s h,
    pstop-stop k s,
    keep_stop k s h,
    keep_drv created k auf time false s (inl refl),
    keep_drv created k auf time false (pstop k s) (inl refl),
  )

  pdrv_abwaerts-P :
      (created : Bool) (k time : ℕ) (s : Jalousie) → P s → P (pdrv_abwaerts created k time s).0
  unfolding pdrv_abwaerts
  pdrv_abwaerts-P created k time s h = ground (
    arith,
    legal k s h,
    pstop-stop k s,
    keep_stop k s h,
    keep_drv created k ab time false s (inr refl),
    keep_drv created k ab time false (pstop k s) (inr refl),
  )

  drv_aufwaerts-P : (created : Bool) (k : ℕ) (s : Jalousie) → P s → P (drv_aufwaerts created k s).0
  unfolding drv_aufwaerts
  drv_aufwaerts-P created k s h = pdrv_aufwaerts-P created k _ _ (keep_offset s h)

  drv_abwaerts-P : (created : Bool) (k : ℕ) (s : Jalousie) → P s → P (drv_abwaerts created k s).0
  unfolding drv_abwaerts
  drv_abwaerts-P created k s h = pdrv_abwaerts-P created k _ _ (keep_offset s h)

  sonne_from-P :
      (created : Bool) (k : ℕ) (s : Jalousie)
      → s.drvstate k ≡ stop
      → P s
      → P (sonne_from created k s).0
  unfolding sonne_from offset
  sonne_from-P created k s q h = ground (
    arith,
    keep_drv created k auf sonnenzeit false s (inl refl) q h,
    keep_drv created k ab (fahrzeit + (offset s).1) true (offset s).0 (inr refl) q
        (keep_offset s h),
  )

  pub drv_sonne-P : (created : Bool) (k : ℕ) (s : Jalousie) → P s → P (drv_sonne created k s).0
  unfolding drv_sonne
  drv_sonne-P created k s h = ground (
    arith,
    legal k s h,
    pstop-stop k s,
    keep_stop k s h,
    sonne_from-P created k s,
    sonne_from-P created k (pstop k s),
  )

  pub run-P : (created : Bool) (c : Command) (s : Jalousie) → P s → P (run created c s)
  unfolding run toggle_aufwaerts toggle_abwaerts
  run-P created (auf_by j time) s h = pdrv_aufwaerts-P created j time s h
  run-P created (ab_by j time) s h = pdrv_abwaerts-P created j time s h
  run-P created (auf_all j) s h = drv_aufwaerts-P created j s h
  run-P created (ab_all j) s h = drv_abwaerts-P created j s h
  run-P created (toggle_auf j) s h = ground (arith, keep_stop j s h, drv_aufwaerts-P created j s h)
  run-P created (toggle_ab j) s h = ground (arith, keep_stop j s h, drv_abwaerts-P created j s h)
  run-P created (sonne j) s h = drv_sonne-P created j s h
  run-P created (halt j) s h = keep_stop j s h
