-- ===== src/Lamps/Messages.antt =====
-- What the messages of the user interface for lamps and scenes do, src/haussteuerung.cpp.
use haussteuerung.Prelude.{
  ℕ, ◌<◌, ◌^◌, ◌≡◌, refl, Bool, true, false, not, ◌&&◌, List, [], ◌∷◌, ◌++◌, some, arith, ◌==◌,
}
use haussteuerung.Prelude.Int.{ℤ, pos}
use haussteuerung.Prelude.Text.{
  Text, codes, contains, after, strip_prefix, until, print_dec, begins_with_decimal,
}
use haussteuerung.Ini.{Ini}
use haussteuerung.Dispatch.Water.{read_number}
use haussteuerung.RemoteFs20
use haussteuerung.RemoteFs20.{Order}
use haussteuerung.Lamps.{strsep, dispatch_licht, dispatch_szene}

-- No byte is the separator.
abbrev pub lacks : ℕ → Text → Bool
lacks b [] = true
lacks b (c ∷ s) = not (c == b) && lacks b s

strsep-append :
    (b : ℕ) (s rest : Text) → lacks b s ≡ true → strsep b (s ++ b ∷ rest) ≡ (s, some rest)
unfolding strsep until after strip_prefix
strsep-append b [] rest h = ground arith
strsep-append b (c ∷ s) rest h = ground (arith, h, strsep-append b s rest)

after_value : (s : Text) → after (codes "value=") (codes "value=" ++ s) ≡ some s
unfolding after strip_prefix
after_value s = refl

-- A message with the name of a lamp, a colon and a number that an `int` holds sets that lamp to
-- that level, whatever stands behind the number and is no digit, as the client that the server of
-- the user interface adds, and whatever level was set before. The name has no colon.
pub licht_lem :
    (ini : Ini) (light : Ini.Dict ini) (held : Text → ℕ) (hc : ℕ) (before : ℤ) (lampe : Text)
    (n : ℕ) (tail : Text) (sent : List Order)
    → lacks b':' lampe ≡ true
    → n < 2 ^ 31
    → begins_with_decimal tail ≡ false
    → dispatch_licht ini light held hc before
        (codes "value=" ++ (lampe ++ b':' ∷ print_dec n tail))
        sent
      ≡ RemoteFs20.set_lampe_stufe ini light held hc lampe (pos n) sent
unfolding dispatch_licht
licht_lem ini light held hc before lampe n tail sent l b t =
    rw
      (
        after_value (lampe ++ b':' ∷ print_dec n tail),
        strsep-append b':' lampe (print_dec n tail) l,
        read_number before n tail b t,
      )
      refl

-- A message of the user interface with the name of a scene that is neither of the two words for
-- all lamps sets that scene, and the two words switch all lamps; the client behind the blank is
-- no part of the name.
pub szene_lem :
    (ini : Ini) (light : Ini.Dict ini) (held : Text → ℕ) (hc : ℕ) (szene tail : Text)
    (sent : List Order)
    → lacks b' ' szene ≡ true
    → contains szene (codes "ALLE_AUS") ≡ false
    → contains szene (codes "ALLE_AN") ≡ false
    → (dispatch_szene ini light held hc (codes "value=" ++ (szene ++ b' ' ∷ tail)) sent
        ≡ RemoteFs20.set_szene ini light held hc szene sent)
      × (dispatch_szene ini light held hc (codes "value=ALLE_AUS " ++ tail) sent
          ≡ RemoteFs20.switch_alle_lampen ini light held hc false sent)
      × (dispatch_szene ini light held hc (codes "value=ALLE_AN " ++ tail) sent
          ≡ RemoteFs20.switch_alle_lampen ini light held hc true sent)
unfolding dispatch_szene
szene_lem ini light held hc szene tail sent l off on = (
  rw (after_value (szene ++ b' ' ∷ tail), strsep-append b' ' szene tail l, off, on) refl,
  unfold strsep until after strip_prefix contains in refl,
  unfold strsep until after strip_prefix contains in refl,
)
