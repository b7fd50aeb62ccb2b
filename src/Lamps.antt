-- ===== src/Lamps.antt =====
-- The branches CMD_LICHT, CMD_LICHT_RESET_TIMER and CMD_SZENE of the dispatch in
-- src/haussteuerung.cpp: the lamps and scenes of the remote control. `none` is the use of a null
-- pointer, where the text lacks "value=" or the colon in front of the brightness, or where the
-- lamp has no address.
pub mod Messages
pub mod Tests
use haussteuerung.Prelude.{
  ℕ, Bool, true, false, List, [], ◌∷◌, Option, none, some, if◌then◌else◌, ◌>>=◌,
}
use haussteuerung.Prelude.Int.{ℤ}
use haussteuerung.Prelude.Text.{Text, codes, contains, after, until}
use haussteuerung.Ini.{Ini}
use haussteuerung.Dispatch.{read_dauer}
use haussteuerung.RemoteFs20
use haussteuerung.RemoteFs20.{Order}

-- `strsep` with one separator: the text in front of it, and what is left, `none` for the null
-- pointer where there is no separator.
unfoldable pub strsep : ℕ → Text → Text × Option Text
strsep separator s = (until separator s, after (separator ∷ []) s)

module _ (ini : Ini) (light : Ini.Dict ini) (held : Text → ℕ) (hc : ℕ) where
  -- `helligkeit` is what the variable holds from an earlier message.
  unfoldable pub dispatch_licht : ℤ → Text → List Order → Option (List Order)
  dispatch_licht helligkeit mtext sent = after (codes "value=") mtext >>= λ tmp1.
      (strsep b':' tmp1).1 >>= λ rest.
      RemoteFs20.set_lampe_stufe ini light held hc (strsep b':' tmp1).0 (read_dauer helligkeit rest)
        sent

  unfoldable pub dispatch_reset_timer : Text → List Order → Option (List Order)
  dispatch_reset_timer mtext sent = after (codes "value=") mtext >>= λ tmp1.
      RemoteFs20.reset_lampe_timer ini light held hc (strsep b' ' tmp1).0 sent

  unfoldable pub dispatch_szene : Text → List Order → Option (List Order)
  dispatch_szene mtext sent = after (codes "value=") mtext >>= λ tmp1.
      (let tmp = (strsep b' ' tmp1).0 in
        if contains tmp (codes "ALLE_AUS")
        then RemoteFs20.switch_alle_lampen ini light held hc false sent
        else if contains tmp (codes "ALLE_AN")
        then RemoteFs20.switch_alle_lampen ini light held hc true sent
        else RemoteFs20.set_szene ini light held hc tmp sent)
