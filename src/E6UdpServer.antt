-- ===== src/E6UdpServer.antt =====
-- src/e6udpserver.cpp, include/e6udpserver.h: packets of the three E6 devices become messages for
-- the main loop. A device numbers its packets and repeats them; `count_of` stands for `strtod` cut
-- down to an integer. `none` is the use of a null pointer where a packet lacks a field.
pub mod Repeats
pub mod Keys
pub mod Tests
use haussteuerung.Prelude.{
  ℕ, zero, suc, ◌+◌, ◌-◌, ◌*◌, ◌%◌, ◌≤◌, Bool, true, false, not, ◌&&◌, ◌||◌, List, [], ◌∷◌, ◌++◌,
  Option, none, some, if◌then◌else◌, ◌==◌, leb, ltb, take, update, ◌>>=◌,
}
use haussteuerung.Prelude.Int.{same_ℤ, ℤ, pos, negsuc}
use haussteuerung.Prelude.Text.{Text, codes, contains, after, print_dec, strtol_dec}
use haussteuerung.Config.{
  adr_jal_all, adr_jal_0, adr_jal_3, adr_orient, adr_licht, fs20_left, fs20_right, fs20_left_cont,
  fs20_right_cont,
}
use haussteuerung.Config.Cmd
use haussteuerung.Hauscode.{Hauscode, compare_hauscode}

-- `mqu_entry`; the type is a `long`, a number under 2 ^ 64 in two's complement.
pub record Message : Type 0 where
  pub mtyp : ℕ
  pub mtext : Text

pub record Client : Type 0 where
  pub ip : ℕ
  pub packet_count_buf : ℕ → ℤ
  pub pointer : ℕ
  pub reboot_enabled : Bool

-- The part of `convertUdpToMsg` for the key of the ventilation.
unfoldable pub convert_tast : Text → Message → Message
convert_tast buffer m =
    let typed = record m { mtyp = Cmd.abluft } in
    let long =
      if contains buffer (codes "LANG")
      then record typed { mtext = codes "value=TOGGLELW" }
      else typed in
    let short =
      if contains buffer (codes "KURZ") then record long { mtext = codes "value=HIGH" } else long in
    if contains buffer (codes "TAST") then short else m

-- The text for a key of the remote control, where the switch has a case for it.
unfoldable pub jal_text : ℕ → Text → Text
jal_text befehl held =
    if befehl == fs20_left
    then codes "value=TAB_"
    else if befehl == fs20_right
    then codes "value=TAUF_"
    else if befehl == fs20_left_cont
    then codes "value=TIMPAB_"
    else if befehl == fs20_right_cont
    then codes "value=TIMPAUF_"
    else held

unfoldable pub orient_text : ℕ → Text → Text
orient_text befehl held =
    if befehl == fs20_right
    then codes "value=AN"
    else if befehl == fs20_left
    then codes "value=AUS"
    else if befehl == fs20_left_cont
    then codes "value=DIMM_AB"
    else if befehl == fs20_right_cont
    then codes "value=DIMM_AUF"
    else held

unfoldable pub licht_text : ℕ → Text → Text
licht_text befehl held =
    if befehl == fs20_left
    then codes "value=ALLE_AUS"
    else if befehl == fs20_right
    then codes "value=ALLE_AN"
    else held

-- The messages for the three kinds of addresses.
unfoldable pub fs20_message : ℕ → ℕ → Message → Message
fs20_message adresse befehl m =
    let tail = if adresse == adr_jal_all then codes "ALL" else print_dec (adresse - adr_jal_0) [] in
    let jal : Message = record { mtyp = Cmd.jal; mtext = jal_text befehl m.mtext ++ tail } in
    let for_jal = if leb adr_jal_all adresse && leb adresse adr_jal_3 then jal else m in
    let for_orient : Message =
      if adresse == adr_orient
      then record { mtyp = Cmd.floor; mtext = orient_text befehl for_jal.mtext }
      else for_jal in
    if adresse == adr_licht
    then record { mtyp = Cmd.szene; mtext = licht_text befehl for_orient.mtext }
    else for_orient

-- `strncpy` of three bytes behind a name, and `atoi` into an `unsigned char`.
unfoldable pub field : Text → Text → Option ℕ
field name buffer = elim (after name buffer) [
  | none ↦ none
  | some rest ↦ some ((strtol_dec (take 3 rest)).0 % 256)
]

-- Behind the test of the house code; the field EW must be there, and is only printed.
unfoldable pub convert_own : Text → Message → Option Message
convert_own buffer m = do
  adresse ← field (codes "ADDR:") buffer
  befehl ← field (codes "CMD:") buffer
  _ ← field (codes "EW:") buffer
  some (fs20_message adresse befehl m)

unfoldable pub convert_fs20 : Hauscode → Text → Message → Option Message
convert_fs20 h buffer m = do
  hc1 ← field (codes "HC1:") buffer
  hc2 ← field (codes "HC2:") buffer
  (if compare_hauscode hc1 hc2 h then convert_own buffer m else some m)

-- `data + 6` and `data + 7`: one byte behind the name is left out.
unfoldable pub convert_data : Text → ℕ → Text → Message → Option Message
convert_data name mtyp buffer m = elim (after name buffer) [
  | none ↦ some m
  | some [] ↦ none
  | some (c ∷ rest) ↦ some (record { mtyp = mtyp; mtext = codes "value=" ++ rest })
]

unfoldable pub convert_udp_to_msg : Hauscode → Text → Text → Message → Option Message
convert_udp_to_msg h ip_text buffer m =
    let up : Message → Message = λ m4.
      if contains buffer (codes "E6 UP")
      then record { mtyp = Cmd.e6_init; mtext = codes "value=" ++ ip_text }
      else m4 in
    let m1 = convert_tast buffer m in
    do
      m2 ← if contains buffer (codes "FS20") then convert_fs20 h buffer m1 else some m1
      m3 ← convert_data (codes "KS300") Cmd.wett buffer m2
      m4 ← convert_data (codes "AS2000") Cmd.hell buffer m3
      some (up m4)

-- The loop over the last five numbers.
unfoldable pub is_known : ℤ → Client → Bool
is_known count c =
    same_ℤ count (c.packet_count_buf 0)
    || same_ℤ count (c.packet_count_buf 1)
    || same_ℤ count (c.packet_count_buf 2)
    || same_ℤ count (c.packet_count_buf 3)
    || same_ℤ count (c.packet_count_buf 4)

unfoldable pub remember : ℤ → Client → Client
remember count c = record c {
  packet_count_buf = update c.packet_count_buf c.pointer count;
  pointer = if ltb 4 (c.pointer + 1) then 0 else c.pointer + 1;
}

unfoldable pub reset_packet_counter : Client → Client
reset_packet_counter c = record c { pointer = 0; packet_count_buf = λ _. negsuc 0 }

abbrev pub Server : Type 0
Server = ℕ → Client

-- The first of the three devices with the sender's address.
unfoldable pub find_client : ℕ → Server → Option ℕ
find_client ip s =
    if ip == (s 0).ip
    then some 0
    else if ip == (s 1).ip
    then some 1
    else if ip == (s 2).ip
    then some 2
    else none

-- What `recvIfFdIsset` does with a packet, whose sender is device i: the devices, the message, and
-- whether it returns 0. A device that reports "E6 UP" for the first time is not asked for repeats.
unfoldable pub recv_from :
    (Text → ℤ) → Hauscode → Text → Text → Message → ℕ → Server → Option (Server × Message × Bool)
recv_from count_of h ip_text buffer m i s =
    let count = count_of buffer in
    let down = record (s i) { reboot_enabled = false } in
    let all_reset = λ (j : ℕ). reset_packet_counter (update s i down j) in
    let first_up = update all_reset i (remember count (all_reset i)) in
    let silent : Message = record m { mtyp = Cmd.no_cmd } in
    let next = update s i (remember count (s i)) in
    if (s i).reboot_enabled && contains buffer (codes "E6 UP")
    then (convert_udp_to_msg h ip_text buffer m >>= λ m'. some (first_up, m', true))
    else if is_known count (s i)
    then some (s, silent, false)
    else (convert_udp_to_msg h ip_text buffer m >>= λ m'. some (next, m', true))

unfoldable pub recv_if_fd_isset :
    (Text → ℤ) → Hauscode → ℕ → Text → Text → Message → Server → Option (Server × Message × Bool)
recv_if_fd_isset count_of h ip ip_text buffer m s = elim (find_client ip s) [
  | none ↦ some (s, m, false)
  | some i ↦ recv_from count_of h ip_text buffer m i s
]

-- `enableReboot` for one address, and the end of `rebootTimer` for device i.
unfoldable pub enable : ℕ → Server → Server
enable i s = update s i (record (s i) { reboot_enabled = true })
