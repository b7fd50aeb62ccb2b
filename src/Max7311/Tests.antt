-- ===== src/Max7311/Tests.antt =====
-- Runs of the driver of src/max7311_ts.cpp.
use haussteuerung.Prelude.{◌≡◌, refl, true, [], ◌∷◌, ◌++◌}
use haussteuerung.Prelude.Int.{negsuc}
use haussteuerung.Prelude.Text.{codes}
use haussteuerung.E6TcpClient.{ret_ok, ret_dummy}
use haussteuerung.Max7311.{Max7311, set_out, line, init_out, create}

abbrev device : Max7311
device = record { adr = 16; sent = [] }

create-number : create 32 ≡ device
unfolding create
create-number = refl

relay_line : line 16 (set_out 5 true) ≡ codes "max7311 set 16 5 1" ++ 10 ∷ []
unfolding line
relay_line = refl

-- At a dummy `initOut` gives up behind its first command.
init_dummy : (init_out ret_dummy ret_ok device).1 ≡ negsuc 0
unfolding init_out
init_dummy = refl
