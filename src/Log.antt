-- ===== src/Log.antt =====
-- The rotation of files in src/log.cpp: `limitFileSize` and `countLines`. A file is the list of
-- the pieces that `fgets` reads of it, which are its lines, where they are not longer than the
-- buffer.
pub mod Rotation
pub mod Tests
use haussteuerung.Prelude.{
  ℕ, zero, suc, ◌+◌, ◌-◌, ◌≤◌, Bool, true, false, ◌&&◌, ◌||◌, List, [], ◌∷◌, ◌++◌, Option, none,
  some, if◌then◌else◌, ◌==◌, ltb, leb, length, update,
}
use haussteuerung.Prelude.Text.{Text}

abbrev pub Lines : Type 0
Lines = List Text

-- The file itself, and its archives: number i is the one with the extension "._i".
pub record Files : Type 0 where
  pub log : Option Lines
  pub archive : ℕ → Option Lines

-- The test of `printLogVerbose`.
unfoldable pub is_printed : ℕ → Bool → ℕ → Bool
is_printed verblev verbose verbose_level = (verblev == 0) || (verbose && leb verblev verbose_level)

abbrev pub bytes : Lines → ℕ
bytes [] = 0
bytes (line ∷ more) = length line + bytes more

abbrev pub ends_with_newline : Text → Bool
ends_with_newline [] = false
ends_with_newline (c ∷ []) = c == b'\n'
ends_with_newline (c ∷ d ∷ s) = ends_with_newline (d ∷ s)

-- Whether the read of the last piece of a file has not met its end: the piece has its newline or
-- fills the buffer.
abbrev pub is_full : Text → Bool
is_full line = ends_with_newline line || leb 255 (length line)

-- `countLines`, the number: one less than the reads, of which the last one meets the end.
unfoldable pub counted : Lines → ℕ
counted [] = 0
counted (line ∷ []) = if is_full line then 1 else 0
counted (line ∷ next ∷ more) = suc (counted (next ∷ more))

-- `zeilen[i]` of `countLines`: where piece i begins.
unfoldable pub begins_at : ℕ → Lines → ℕ
begins_at zero lines = 0
begins_at (suc i) [] = 0
begins_at (suc i) (line ∷ more) = length line + begins_at i more

-- `rename` of an archive, which fails where there is none.
unfoldable pub rename : ℕ → ℕ → (ℕ → Option Lines) → ℕ → Option Lines
rename old new files = elim (files old) [
  | none ↦ files
  | some lines ↦ update (update files new (some lines)) old none
]

-- The loop over the archives, from number i down to 1.
unfoldable pub shift : ℕ → (ℕ → Option Lines) → ℕ → Option Lines
shift zero files = files
shift (suc i) files = shift i (rename (suc i) (suc (suc i)) files)

-- The first copy, from a position to another one, with the piece that was read last.
unfoldable pub copy_below : ℕ → ℕ → Text → Lines → Lines × Text × Lines
copy_below target position held [] = ([], held, [])
copy_below target position held (line ∷ more) =
    let (copied, last, rest) = copy_below target (position + length line) line more in
    if ltb position target then (line ∷ copied, last, rest) else ([], held, line ∷ more)

-- The second copy: `feof` holds only behind a read that has met the end. Where that read finds
-- nothing, what was read last is written again.
unfoldable pub copy_rest : Text → Lines → Lines
copy_rest held [] = held ∷ []
copy_rest held (line ∷ []) = if is_full line then line ∷ line ∷ [] else line ∷ []
copy_rest held (line ∷ next ∷ more) = line ∷ copy_rest line (next ∷ more)

abbrev pub zeilen_zu_kopieren : ℕ
zeilen_zu_kopieren = 101

-- `limitFileSize` for a file with this many bytes.
unfoldable pub rotate : Lines → (ℕ → Option Lines) → Files
rotate lines archive =
    let target = begins_at (counted lines - zeilen_zu_kopieren) lines in
    let (copied, last, rest) = copy_below target 0 [] lines in
    record {
      log = some (copy_rest last rest);
      archive = update (shift 9 (update archive 10 none)) 1 (some copied);
    }

unfoldable pub limit_file_size : Bool → Files → Files
limit_file_size logfile f = elim f.log [
  | none ↦ f
  | some lines ↦ if logfile && ltb 200000 (bytes lines) then rotate lines f.archive else f
]
