-- ===== src/Requests.antt =====
-- The branches CMD_WETT, CMD_HELL, CMD_GET_HSINFO, CMD_SEND_HSINFO and CMD_SET_CONFIG of the
-- dispatch in src/haussteuerung.cpp. `none` is the use of a null pointer, where the text lacks a
-- field. The number of a client is one that an `int` holds.
pub mod Answers
pub mod Tests
use haussteuerung.Prelude.{
  ℕ, Bool, true, false, List, [], ◌∷◌, Option, none, some, if◌then◌else◌, ◌>>=◌,
}
use haussteuerung.Prelude.Int.{ℤ, pos, pos_part}
use haussteuerung.Prelude.Text.{Text, codes, contains, after, strip_prefix, atoi}
use haussteuerung.Ini.{Ini}
use haussteuerung.Wetter.{Wetter, update_ks, update_as}
use haussteuerung.GuiTcpServer
use haussteuerung.GuiTcpServer.{GuiTcpServer, set_hs_info_flag, send_hs_info}

unfoldable pub dispatch_wett : Text → Wetter → Option Wetter
dispatch_wett mtext w = after (codes "value=") mtext >>= λ tmp. update_ks tmp w

unfoldable pub dispatch_hell : Text → Wetter → Option Wetter
dispatch_hell mtext w = after (codes "value=") mtext >>= λ tmp. update_as tmp w

-- `client` is the one that the main loop has served last. A number below 0 is no client.
unfoldable pub asking_client : ℕ → Text → ℕ
asking_client client mtext = elim (after (codes "client=") mtext) [
  | none ↦ client
  | some tmp ↦ pos_part (atoi tmp)
]

unfoldable pub dispatch_get_hsinfo : ℕ → Text → GuiTcpServer → GuiTcpServer
dispatch_get_hsinfo client mtext s = set_hs_info_flag (asking_client client mtext) s

unfoldable pub dispatch_send_hsinfo : Text → GuiTcpServer → GuiTcpServer
dispatch_send_hsinfo shm s = (send_hs_info shm s).0

-- What stands in front of the first occurrence of a text.
unfoldable pub in_front : Text → Text → Option Text
in_front pat [] = elim (strip_prefix pat []) [ none ↦ none | some r ↦ some [] ]
in_front pat (c ∷ s) =
    let later = in_front pat s in
    elim (strip_prefix pat (c ∷ s)) [
      | some r ↦ some []
      | none ↦ elim later [ none ↦ none | some p ↦ some (c ∷ p) ]
    ]

-- All but the last byte: a closing 0 one place in front of the end.
abbrev pub but_last : Text → Text
but_last [] = []
but_last (c ∷ []) = []
but_last (c ∷ d ∷ s) = c ∷ but_last (d ∷ s)

-- A text that is closed one byte in front of "client=": that byte is no part of it, where it has
-- one in front.
unfoldable pub close_at_client : Text → Text
close_at_client s = elim (in_front (codes "client=") s) [
  | none ↦ s
  | some [] ↦ s
  | some (c ∷ k) ↦ but_last (c ∷ k)
]

-- The value: the text behind "value=", cut off at "key=", where that stands behind it. A value
-- behind the key `tmp` is closed with it, where the client stands behind both.
unfoldable pub config_value : Text → Text → Text → Option Text
config_value front tmp mtext =
    if contains front (codes "value=")
    then after (codes "value=") front
    else (after (codes "value=") mtext >>= λ value. some (elim (in_front (codes "client=") tmp) [
      | none ↦ value
      | some k ↦ if contains k (codes "value=") then close_at_client value else value
    ]))

unfoldable pub dispatch_set_config : (ini : Ini) → Text → Ini.Dict ini → Option (Ini.Dict ini)
dispatch_set_config ini mtext conf = in_front (codes "key=") mtext >>= λ front.
    after (codes "key=") mtext >>= λ tmp.
    config_value front tmp mtext >>= λ value. some (Ini.set ini conf (close_at_client tmp) value)
