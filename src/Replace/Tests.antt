-- ===== src/Replace/Tests.antt =====
-- Runs of `stringReplace` and its properties at concrete inputs.
use haussteuerung.Prelude.{◌≡◌, refl, ◌+◌, ◌≤◌, length, arith}
use haussteuerung.Prelude.Text.{codes, strip_prefix}
use haussteuerung.Replace.{
  string_replace, anzahl, strtok, skip_delims, join_tokens, token, string_len,
}
use haussteuerung.Replace.Tokens.{replace_lem}
use haussteuerung.Replace.Room.{room_lem}

-- Two that stand beside each other become one, and those at the ends are lost.
doubled : string_replace (codes "&") (codes "&amp;") (codes "&a && b&") ≡ codes "a &amp; b"
unfolding string_replace anzahl strip_prefix strtok skip_delims join_tokens token
doubled = refl

replace_lem_example : string_replace (codes "&") (codes "&amp;") (codes "a & b") ≡ codes "a &amp; b"
replace_lem_example = replace_lem b'&' (codes "&amp;") (codes "a & b") refl

room_lem_example :
    length (string_replace (codes "&") (codes "&amp;") (codes "&a && b&")) + 1
    ≤ string_len (codes "&") (codes "&amp;") (codes "&a && b&")
room_lem_example = room_lem b'&' (codes "&amp;") (codes "&a && b&") (omega arith)
