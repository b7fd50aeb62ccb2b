-- ===== src/Config/Request.antt =====
-- The files that CMD_GET_CONFIG asks for and the commands of CMD_DIMM, include/hs_config.h.
use Prim.Native.Nat.{ℕ}

abbrev pub config_hs : ℕ
config_hs = 1

abbrev pub config_light : ℕ
config_light = 2

abbrev pub logfile : ℕ
logfile = 3

abbrev pub logfile_invers : ℕ
logfile_invers = 4

abbrev pub dimm_up_start : ℕ
dimm_up_start = 1

abbrev pub dimm_up_stop : ℕ
dimm_up_stop = 2

abbrev pub dimm_down_start : ℕ
dimm_down_start = 3

abbrev pub dimm_down_stop : ℕ
dimm_down_stop = 4
