-- ===== src/GuiTcpServer/Tests.antt =====
-- The server of the user interface of src/guitcpserver.cpp at concrete inputs.
use haussteuerung.Prelude.{
  ℕ, zero, suc, ◌≡◌, refl, true, List, [], ◌∷◌, ◌++◌, some, length, drop, arith,
}
use haussteuerung.Prelude.Text.{Text, codes, until}
use haussteuerung.Config.Cmd
use haussteuerung.E6UdpServer.{Message}
use haussteuerung.Jalousie.State.{Jalousie, create}
use haussteuerung.Jalousie.Timer.{run, ab_all}
use haussteuerung.Dispatch.{dispatch_jal}
use haussteuerung.Dispatch.Shutters.{ab}
use haussteuerung.MsgQueue.{write_to_queue, read_from_queue}
use haussteuerung.GuiTcpServer.{take_lines, lines}
use haussteuerung.GuiTcpServer.Course.{gui_line, gui_command, gui_lem}

abbrev half : List Text
half = codes "cmd=3 value=AN" ∷ codes "cmd=3" ∷ []

abbrev house : Jalousie
house = create (record { adr = 16; sent = [] })

drop_nothing : (n : ℕ) → until 0 (drop n []) ≡ []
unfolding until
drop_nothing zero = refl
drop_nothing (suc n) = refl

gui_lem_example :
    (take_lines 1 7 (lines (gui_line ab 2 ++ 10 ∷ [])) [] ≡ some (gui_command 7 ab 2 ∷ []))
    × (m : Message) × (read_from_queue (write_to_queue (gui_command 7 ab 2) []).1 [] ≡ some m)
    × (m.mtyp ≡ Cmd.jal)
    × (dispatch_jal true m.mtext house ≡ some (run true (ab_all 2) house, []))
gui_lem_example =
    gui_lem 7 ab 2 [] [] true house (omega arith)
      (drop_nothing (length (write_to_queue (gui_command 7 ab 2) []).1))
