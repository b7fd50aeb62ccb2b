-- ===== src/RemoteFs20.antt =====
-- Class RemoteFS20 of src/devices.cpp and include/devices.h: lamps that are switched and dimmed by
-- FS20 telegrams. `light` is the dictionary of the file of lights. What is sent is kept as
-- orders, the newest first; `none` is the use of a null pointer where an entry is missing.
pub mod Levels
pub mod Scenes
pub mod Tests
use haussteuerung.Prelude.{
  ℕ, zero, suc, ◌+◌, ◌-◌, ◌*◌, ◌%◌, ◌≤◌, Bool, true, false, not, ◌&&◌, ◌||◌, List, [], ◌∷◌, ◌++◌,
  map, Option, none, some, if◌then◌else◌, ◌==◌, leb, ltb,
}
use haussteuerung.Prelude.Int.{ℤ, pos, negsuc, to_int, ◌*ℤ◌, ◌+ℤ◌, ltb_ℤ}
use haussteuerung.Prelude.Text.{Text, codes, print_hex, scan, skip_space, digit_value}
use haussteuerung.Config.{fs20_an, fs20_aus, fs20_toggle}
use haussteuerung.Config.Cmd
use haussteuerung.Ini.{Ini}
use haussteuerung.Hauscode.{convert_address, word}

-- A command line for the E6 device, or a message for the queue of the program.
pub data Order : Type 0 where
  telegram : Text → Order
  message : ℕ → Text → Order

-- `%X` of an `int`.
abbrev upper : ℕ → ℕ
upper c = if leb b'a' c && leb c b'f' then c - b'a' + b'A' else c

abbrev word_of : ℤ → ℕ
word_of (pos n) = n % word
word_of (negsuc n) = word - 1 - n % word

abbrev pub is_zero : ℤ → Bool
is_zero (pos n) = n == 0
is_zero (negsuc n) = false

unfoldable pub print_upper : ℕ → Text → Text
print_upper n out = map upper (print_hex n []) ++ out

-- `fs20 send %X %X %X\n`
unfoldable pub fs20_send : ℕ → ℕ → ℤ → Text
fs20_send hc addr cmd =
    codes "fs20 send "
    ++ print_upper hc (32 ∷ print_upper addr (32 ∷ print_upper (word_of cmd) (10 ∷ [])))

-- `fs20 send %X %X 3C 0\n` and its two kin.
unfoldable pub fs20_timer : ℕ → ℕ → Text → Text
fs20_timer hc addr cmd =
    codes "fs20 send " ++ print_upper hc (32 ∷ print_upper addr (32 ∷ cmd ++ codes " 0" ++ 10 ∷ []))

-- `sscanf(s, "%x", &x)` on a text without a sign: x keeps its value where there is no digit.
abbrev is_x : ℕ → Bool
is_x c = c == b'x' || (c == b'X')

abbrev skip_0x : Text → Text
skip_0x [] = []
skip_0x (a ∷ []) = a ∷ []
skip_0x (a ∷ b ∷ s) = if a == b'0' && is_x b then s else a ∷ b ∷ s

abbrev begins_with_digit : Text → Bool
begins_with_digit [] = false
begins_with_digit (c ∷ s) = ltb (digit_value c) 16

unfoldable pub scan_hex : ℕ → Text → ℕ
scan_hex held s =
    let digits = skip_0x (skip_space s) in
    if begins_with_digit digits then (scan 16 digits 0).0 % word else held

-- `strtok` with the separators blank and comma: the pieces of a text that are not empty.
abbrev is_separator : ℕ → Bool
is_separator c = c == b' ' || (c == b',')

abbrev close_piece : Text → List Text → List Text
close_piece [] rest = rest
close_piece (c ∷ p) rest = (c ∷ p) ∷ rest

-- The piece that the text begins with, which may be empty, and the others.
unfoldable pub pieces : Text → Text × List Text
pieces [] = ([], [])
pieces (c ∷ s) =
    let (piece, rest) = pieces s in
    if is_separator c then ([], close_piece piece rest) else (c ∷ piece, rest)

unfoldable pub tokens : Text → List Text
tokens s = let (piece, rest) = pieces s in close_piece piece rest

module _ (ini : Ini) (light : Ini.Dict ini) where
  open ini use {get_string, get_int}

  -- `intAdresse`; `held` is what the variable, which is not set before, holds at that lamp.
  unfoldable pub address_of : (Text → ℕ) → Text → Option ℕ
  address_of held lampe = elim (get_string light (codes "system:" ++ lampe) none) [
    | none ↦ none
    | some adresse ↦ some (scan_hex (held lampe) adresse)
  ]

  -- What `setLampeBefehl` sends: address 0 is the socket of the terrace.
  unfoldable pub orders_for : ℕ → ℕ → ℤ → List Order
  orders_for hc adresse befehl =
      if adresse == 0
      then (if is_zero befehl
          then message Cmd.steckdose_terrasse (codes "value=AUS" ++ 10 ∷ []) ∷ []
          else if ltb_ℤ (pos fs20_aus) befehl && not (ltb_ℤ (pos fs20_an) befehl)
          then message Cmd.steckdose_terrasse (codes "value=AN" ++ 10 ∷ []) ∷ []
          else [])
      else telegram (fs20_send hc (convert_address adresse) befehl) ∷ []

  unfoldable pub set_lampe_befehl : (Text → ℕ) → ℕ → Text → ℤ → List Order → Option (List Order)
  set_lampe_befehl held hc lampe befehl sent = elim (address_of held lampe) [
    | none ↦ none
    | some adresse ↦ some (orders_for hc adresse befehl ++ sent)
  ]

  unfoldable pub set_lampe_stufe : (Text → ℕ) → ℕ → Text → ℤ → List Order → Option (List Order)
  set_lampe_stufe held hc lampe stufe sent = set_lampe_befehl held hc lampe stufe sent

  -- The loop of `setLampeWert` over i = 625, 1250, .. 10000, as many rounds as are left.
  unfoldable pub stufe_for : ℕ → ℕ → ℕ → ℤ → Option ℕ
  stufe_for zero i stufe wert = none
  stufe_for (suc rounds) i stufe wert =
      let rest = stufe_for rounds (i + 625) (stufe + 1) wert in
      if ltb_ℤ (pos i) (to_int (wert *ℤ pos 100)) then rest else some (stufe + 1)

  unfoldable pub set_lampe_wert : (Text → ℕ) → ℕ → Text → ℤ → List Order → Option (List Order)
  set_lampe_wert held hc lampe wert sent =
      if is_zero wert
      then set_lampe_stufe held hc lampe (pos 0) sent
      else elim (stufe_for 16 625 0 wert) [
        | none ↦ some sent
        | some stufe ↦ set_lampe_befehl held hc lampe (pos stufe) sent
      ]

  unfoldable pub toggle_lampe : (Text → ℕ) → ℕ → Text → List Order → Option (List Order)
  toggle_lampe held hc lampe sent = set_lampe_befehl held hc lampe (pos fs20_toggle) sent

  unfoldable pub reset_lampe_timer : (Text → ℕ) → ℕ → Text → List Order → Option (List Order)
  reset_lampe_timer held hc lampe sent = elim (address_of held lampe) [
    | none ↦ none
    | some adresse ↦
        (let addr = convert_address adresse in
          some (
            telegram (fs20_timer hc addr (codes "36"))
            ∷ telegram (fs20_timer hc addr (codes "3D"))
            ∷ telegram (fs20_timer hc addr (codes "3C"))
            ∷ sent))
  ]

  -- A loop over the devices, each with its own work.
  unfoldable pub each_device :
      (Text → List Order → Option (List Order)) → List Text → List Order → Option (List Order)
  each_device work [] sent = some sent
  each_device work (d ∷ ds) sent = elim (work d sent) [
    | none ↦ none
    | some sent' ↦ each_device work ds sent'
  ]

  unfoldable pub switch_alle_lampen : (Text → ℕ) → ℕ → Bool → List Order → Option (List Order)
  switch_alle_lampen held hc value sent = elim (get_string light (codes "system:devices") none) [
    | none ↦ none
    | some devices ↦
        each_device (λ d. set_lampe_stufe held hc d (if value then pos 16 else pos 0))
          (tokens devices) sent
  ]

  -- One lamp of `setSzene`.
  unfoldable pub set_in_szene : (Text → ℕ) → ℕ → Text → Text → List Order → Option (List Order)
  set_in_szene held hc szene d sent =
      let helligkeit = get_int light (szene ++ b':' ∷ d) (negsuc 0) in
      if ltb_ℤ (negsuc 0) helligkeit then set_lampe_wert held hc d helligkeit sent else some sent

  unfoldable pub set_szene : (Text → ℕ) → ℕ → Text → List Order → Option (List Order)
  set_szene held hc szene sent = elim (get_string light (codes "system:devices") none) [
    | none ↦ none
    | some devices ↦ each_device (set_in_szene held hc szene) (tokens devices) sent
  ]
