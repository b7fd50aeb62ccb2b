-- ===== src/Config.antt =====
-- The constants of include/hs_config.h, under the source's names in lower case.
pub mod Cmd
pub mod Request
use Prim.Native.Nat.{ℕ}

-- States of shutter drives, positions of shutters, states of switched devices.
abbrev pub stop : ℕ
stop = 0

abbrev pub undef : ℕ
undef = 0

abbrev pub auf : ℕ
auf = 1

abbrev pub ab : ℕ
ab = 2

abbrev pub aus : ℕ
aus = 0

abbrev pub an : ℕ
an = 1

abbrev pub timer_an : ℕ
timer_an = 2

abbrev pub low : ℕ
low = 1

abbrev pub high : ℕ
high = 2

-- Times in microseconds.
abbrev pub fahrzeit : ℕ
fahrzeit = 70000000

abbrev pub impulszeit : ℕ
impulszeit = 150000

abbrev pub sonnenzeit : ℕ
sonnenzeit = 350000

-- Bits of the main PCF8574.
abbrev pub orient : ℕ
orient = 4

abbrev pub abluft_0 : ℕ
abluft_0 = 0

abbrev pub abluft_1 : ℕ
abluft_1 = 1

abbrev pub hsgui_power : ℕ
hsgui_power = 3

abbrev pub hsgui_reset : ℕ
hsgui_reset = 2

-- Bits of the PCF8574 of the terrace.
abbrev pub ventil_1 : ℕ
ventil_1 = 0

abbrev pub ventil_2 : ℕ
ventil_2 = 1

abbrev pub steckdose : ℕ
steckdose = 3

-- Keys of the FS20 remote control, addresses it sends.
abbrev pub fs20_left : ℕ
fs20_left = 0

abbrev pub fs20_right : ℕ
fs20_right = 17

abbrev pub fs20_left_cont : ℕ
fs20_left_cont = 20

abbrev pub fs20_right_cont : ℕ
fs20_right_cont = 19

abbrev pub adr_jal_all : ℕ
adr_jal_all = 4

abbrev pub adr_jal_0 : ℕ
adr_jal_0 = 5

abbrev pub adr_jal_3 : ℕ
adr_jal_3 = 8

abbrev pub adr_orient : ℕ
adr_orient = 10

abbrev pub adr_licht : ℕ
adr_licht = 12

-- Commands of FS20.
abbrev pub fs20_an : ℕ
fs20_an = 0x11

abbrev pub fs20_toggle : ℕ
fs20_toggle = 0x12

abbrev pub fs20_aus : ℕ
fs20_aus = 0

-- Size of the receive buffer of the TCP client.
abbrev pub tcp_buffsize : ℕ
tcp_buffsize = 1024

abbrev pub fs20_dimm_up : ℕ
fs20_dimm_up = 0x13

abbrev pub fs20_dimm_down : ℕ
fs20_dimm_down = 0x14

-- Addresses of the port expanders.
abbrev pub i2c_max : ℕ
i2c_max = 32

abbrev pub i2c_pcf : ℕ
i2c_pcf = 64

abbrev pub i2c_pcf_t : ℕ
i2c_pcf_t = 64
