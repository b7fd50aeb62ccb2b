-- ===== src/RemoteFs20/Scenes.antt =====
-- The lists of lamps of src/devices.cpp: names between commas and blanks, and what is sent for all.
use haussteuerung.Prelude.{
  ℕ, ◌<◌, ◌≡◌, refl, Bool, true, false, not, ◌&&◌, ◌||◌, List, [], ◌∷◌, ◌++◌, none, some, ◌==◌,
  arith, Option-cases, inl, inr,
}
use haussteuerung.Prelude.Int.{ℤ, pos, negsuc}
use haussteuerung.Prelude.Text.{Text, codes}
use haussteuerung.Ini.{Ini}
use haussteuerung.RemoteFs20
use haussteuerung.RemoteFs20.Levels.{set_lampe_wert_lem}
use haussteuerung.RemoteFs20.{Order, tokens, pieces}

abbrev has_no_separator : Text → Bool
has_no_separator [] = true
has_no_separator (c ∷ s) = not (c == b' ' || (c == b',')) && has_no_separator s

abbrev is_name : Text → Bool
is_name [] = false
is_name (c ∷ s) = has_no_separator (c ∷ s)

abbrev pub are_names : List Text → Bool
are_names [] = true
are_names (w ∷ ws) = is_name w && are_names ws

-- Names as the file of lights lists them.
abbrev pub listed : List Text → Text
listed [] = []
listed (w ∷ ws) = w ++ b',' ∷ b' ' ∷ listed ws

pieces-listed :
    (w s : Text) → has_no_separator w ≡ true → pieces (w ++ b',' ∷ b' ' ∷ s) ≡ (w, tokens s)
unfolding pieces tokens
pieces-listed [] s h = ground arith
pieces-listed (c ∷ w) s h = ground (arith, pieces-listed w s)

-- Names that are listed are found again, all of them and in order.
pub tokens-listed : (ws : List Text) → are_names ws ≡ true → tokens (listed ws) ≡ ws
unfolding tokens
tokens-listed [] h = unfold pieces in refl
tokens-listed ([] ∷ ws) h = absurd (ground arith)
tokens-listed ((c ∷ w) ∷ ws) h = ground (arith, pieces-listed (c ∷ w) (listed ws), tokens-listed ws)

module _ (ini : Ini) (light : Ini.Dict ini) where
  -- One telegram for each lamp, the newest first.
  abbrev pub telegrams : (Text → ℕ) → ℕ → ℤ → List Text → List Order → List Order
  telegrams adr hc befehl [] sent = sent
  telegrams adr hc befehl (w ∷ ws) sent = telegrams adr hc befehl ws (
      RemoteFs20.telegram (RemoteFs20.fs20_send hc (RemoteFs20.convert_address (adr w)) befehl)
      ∷ sent)

  -- Each lamp has an address, and it is not the 0 of the socket.
  abbrev pub AllKnown : (Text → ℕ) → (Text → ℕ) → List Text → Type 0
  AllKnown held adr [] = Unit
  AllKnown held adr (w ∷ ws) =
      (RemoteFs20.address_of ini light held w ≡ some (adr w)) × (0 < adr w) × AllKnown held adr ws

  -- The scene gives 100 percent to each lamp.
  abbrev pub AllFull : Text → List Text → Type 0
  AllFull szene [] = Unit
  AllFull szene (w ∷ ws) =
      (Ini.get_int ini light (szene ++ b':' ∷ w) (negsuc 0) ≡ pos 100) × AllFull szene ws

  set_in_szene-full :
      (held : Text → ℕ) (hc : ℕ) (szene w : Text) (sent : List Order)
      → Ini.get_int ini light (szene ++ b':' ∷ w) (negsuc 0) ≡ pos 100
      → RemoteFs20.set_in_szene ini light held hc szene w sent
        ≡ RemoteFs20.set_lampe_stufe ini light held hc w (pos 16) sent
  unfolding RemoteFs20.set_in_szene
  set_in_szene-full held hc szene w sent e =
      rw e ((set_lampe_wert_lem ini light held hc w 100 sent (omega arith)).0 (omega arith))

  each_device-full :
      (held : Text → ℕ) (hc : ℕ) (szene : Text) (ws : List Text) (sent : List Order)
      → AllFull szene ws
      → RemoteFs20.each_device ini light (RemoteFs20.set_in_szene ini light held hc szene) ws sent
        ≡ RemoteFs20.each_device ini light
            (λ d. RemoteFs20.set_lampe_stufe ini light held hc d (pos 16))
            ws
            sent
  unfolding RemoteFs20.each_device
  each_device-full held hc szene [] sent f = refl
  each_device-full held hc szene (w ∷ ws) sent f =
      elim (Option-cases (RemoteFs20.set_lampe_stufe ini light held hc w (pos 16) sent)) [
        | inl e ↦ rw (RemoteFs20.each_device, set_in_szene-full held hc szene w sent f.0, e) refl
        | inr (s, e) ↦
            rw (RemoteFs20.each_device, set_in_szene-full held hc szene w sent f.0, e)
              (each_device-full held hc szene ws s f.1)
      ]

  -- A scene that gives 100 percent to every lamp of the list does what switching all on does, be
  -- it orders or the failure at a lamp without an address.
  pub set_szene-full :
      (held : Text → ℕ) (hc : ℕ) (szene : Text) (ws : List Text) (sent : List Order)
      → are_names ws ≡ true
      → Ini.get_string ini light (codes "system:devices") none ≡ some (listed ws)
      → AllFull szene ws
      → RemoteFs20.set_szene ini light held hc szene sent
        ≡ RemoteFs20.switch_alle_lampen ini light held hc true sent
  unfolding RemoteFs20.set_szene RemoteFs20.switch_alle_lampen
  set_szene-full held hc szene ws sent n e f =
      rw (RemoteFs20.set_szene, RemoteFs20.switch_alle_lampen, e, tokens-listed ws n)
        (each_device-full held hc szene ws sent f)
