-- ===== src/GuiTcpServer/Lines.antt =====
-- The loop of `recvIfFdIsset` over the lines of what a client has sent, src/guitcpserver.cpp.
use haussteuerung.Prelude.{
  ℕ, ◌≡◌, refl, Bool, true, false, not, ◌&&◌, List, [], ◌∷◌, ◌++◌, none, some, ◌==◌, arith,
}
use haussteuerung.Prelude.Text.{Text, codes, contains}
use haussteuerung.E6UdpServer.{Message}
use haussteuerung.GuiTcpServer.{line_message, lines_from, lines}

-- Whether every line has both fields.
abbrev pub all_complete : List Text → Bool
all_complete [] = true
all_complete (line ∷ more) =
    contains line (codes "cmd=") && contains line (codes "value=") && all_complete more

-- The messages of the lines in front of those that are queued, the latest first.
abbrev pub messages : ℕ → List Text → List Message → List Message
messages client [] queued = queued
messages client (line ∷ more) queued = elim (line_message client line) [
  | none ↦ messages client more queued
  | some m ↦ messages client more (m ∷ queued)
]

-- Each line with its newline behind it.
abbrev pub joined : List Text → Text
joined [] = []
joined (line ∷ more) = line ++ 10 ∷ joined more

abbrev one_line : Text → Bool
one_line [] = true
one_line (c ∷ line) = not (c == 10) && one_line line

abbrev not_empty : Text → Bool
not_empty [] = false
not_empty (c ∷ line) = true

abbrev pub all_lines : List Text → Bool
all_lines [] = true
all_lines (line ∷ more) = not_empty line && one_line line && all_lines more

lines_from-line :
    (line s : Text) → one_line line ≡ true → lines_from (line ++ 10 ∷ s) ≡ (line, lines s)
unfolding lines_from lines
lines_from-line [] s h = refl
lines_from-line (c ∷ line) s h = ground (arith, lines_from-line line s)

-- Lines that are sent with a newline behind each are taken apart again.
pub lines-joined : (ls : List Text) → all_lines ls ≡ true → lines (joined ls) ≡ ls
unfolding lines lines_from
lines-joined [] h = refl
lines-joined ([] ∷ more) h = absurd (ground arith)
lines-joined ((c ∷ line) ∷ more) h =
    ground (arith, lines_from-line (c ∷ line) (joined more), lines-joined more)
