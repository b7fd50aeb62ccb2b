-- ===== src/Config/Cmd.antt =====
-- The message types of include/hs_config.h: `CMD_JAL` is `Cmd.jal`, and so on.
use Prim.Native.Nat.{ℕ}

abbrev pub no_cmd : ℕ
no_cmd = 0

abbrev pub jal : ℕ
jal = 1

abbrev pub cmd : ℕ
cmd = 2

abbrev pub floor : ℕ
floor = 3

abbrev pub abluft : ℕ
abluft = 4

abbrev pub hwr : ℕ
hwr = 5

abbrev pub licht : ℕ
licht = 6

abbrev pub szene : ℕ
szene = 7

abbrev pub wett : ℕ
wett = 8

abbrev pub hell : ℕ
hell = 9

abbrev pub get_hsinfo : ℕ
get_hsinfo = 10

abbrev pub get_config : ℕ
get_config = 11

abbrev pub send_hsinfo : ℕ
send_hsinfo = 12

abbrev pub set_config : ℕ
set_config = 13

abbrev pub dimm : ℕ
dimm = 14

abbrev pub licht_reset_timer : ℕ
licht_reset_timer = 15

abbrev pub e6_init : ℕ
e6_init = 16

abbrev pub water : ℕ
water = 17

abbrev pub steckdose_terrasse : ℕ
steckdose_terrasse = 18
