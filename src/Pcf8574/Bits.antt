-- ===== src/Pcf8574/Bits.antt =====
-- The output byte of src/pcf8574_ts.cpp, bit by bit.

use haussteuerung.Prelude.{
  ℕ, ◌/◌, ◌%◌, ◌^◌, ◌-◌, ◌<◌, ◌≡◌, refl, Bool, true, false, ◌&&◌, arith, ◌==◌, ltb, all_below,
  all_below_sound, ◌∷◌, if◌then◌else◌,
}
use haussteuerung.Pcf8574.{set_command, Pcf8574, set_bit, clear_bit, flip_bit, set, toggle}

-- Bit `port` of the byte, as the pin of the device has it.
abbrev pub pin : ℕ → ℕ → ℕ
pin byte port = byte / 2 ^ port % 2

-- What a write through `f` to one port does to each pin of each byte: `v` gives the new pin.
abbrev writes : (ℕ → ℕ → ℕ) → (ℕ → ℕ) → ℕ → ℕ → ℕ → Bool
writes f v byte port other =
    pin (f port byte) other == (if port == other then v (pin byte other) else pin byte other)

abbrev in_table : (ℕ → ℕ → ℕ) → (ℕ → ℕ) → Bool
in_table f v = all_below 256 λ byte.
    all_below 8 λ port. ltb (f port byte) 256 && all_below 8 λ other. writes f v byte port other

set_table : in_table set_bit (λ _. 1) ≡ true
unfolding all_below set_bit
set_table = refl

clear_table : in_table clear_bit (λ _. 0) ≡ true
unfolding all_below clear_bit
clear_table = refl

flip_table : in_table flip_bit (λ b. 1 - b) ≡ true
unfolding all_below flip_bit
flip_table = refl

module _ (f : ℕ → ℕ → ℕ) (v : ℕ → ℕ) (table : in_table f v ≡ true) where
  writes_lem :
      (byte port other : ℕ) → byte < 256 → port < 8 → other < 8 → writes f v byte port other ≡ true
  writes_lem byte port other hb hp ho = ground (
    arith,
    all_below_sound 256 _ byte table,
    all_below_sound 8 (λ q. ltb (f q byte) 256 && all_below 8 λ other. writes f v byte q other)
        port,
    all_below_sound 8 (writes f v byte port) other,
  )

  byte-lt : (byte port : ℕ) → byte < 256 → port < 8 → f port byte < 256
  byte-lt byte port hb hp = ground (
    arith,
    all_below_sound 256 _ byte table,
    all_below_sound 8 (λ q. ltb (f q byte) 256 && all_below 8 λ other. writes f v byte q other)
        port,
  )

-- A byte that fits `unsigned char`.
abbrev pub IsValid : Pcf8574 → Type 0
IsValid p = p.data_byte < 256

-- `set` drives the pin of its port low for true and high for false, leaves the seven others as
-- they were, keeps the byte in range, and sends exactly the new byte.
pub set_lem :
    (port other : ℕ) (state : Bool) (p : Pcf8574)
    → port < 8
    → other < 8
    → IsValid p
    → let q = set port state p in
      (pin q.data_byte other
        ≡ (if port == other then (if state then 0 else 1) else pin p.data_byte other))
      × IsValid q
      × (q.sent ≡ set_command p.adr q.data_byte ∷ p.sent)
      × (q.adr ≡ p.adr)
unfolding set
set_lem port other true p hp ho v = ground (
  arith,
  writes_lem clear_bit (λ _. 0) clear_table p.data_byte port other,
  byte-lt clear_bit (λ _. 0) clear_table p.data_byte port,
)
set_lem port other false p hp ho v = ground (
  arith,
  writes_lem set_bit (λ _. 1) set_table p.data_byte port other,
  byte-lt set_bit (λ _. 1) set_table p.data_byte port,
)

twice_table :
    (all_below 256 λ byte. all_below 8 λ port. flip_bit port (flip_bit port byte) == byte) ≡ true
unfolding all_below flip_bit
twice_table = refl

-- `toggle` turns the pin of its port over and no other, and twice is as good as never.
pub toggle_lem :
    (port other : ℕ) (p : Pcf8574)
    → port < 8
    → other < 8
    → IsValid p
    → (pin (toggle port p).data_byte other
        ≡ (if port == other then 1 - pin p.data_byte other else pin p.data_byte other))
      × IsValid (toggle port p)
      × ((toggle port (toggle port p)).data_byte ≡ p.data_byte)
unfolding toggle
toggle_lem port other p hp ho v = ground (
  arith,
  writes_lem flip_bit (λ b. 1 - b) flip_table p.data_byte port other,
  byte-lt flip_bit (λ b. 1 - b) flip_table p.data_byte port,
  all_below_sound 256 _ p.data_byte twice_table,
  all_below_sound 8 (λ q. flip_bit q (flip_bit q p.data_byte) == p.data_byte) port,
)
