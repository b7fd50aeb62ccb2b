-- ===== src/E6UdpServer/Tests.antt =====
-- Packets of src/e6udpserver.cpp at concrete inputs.
use haussteuerung.Prelude.{◌+◌, ◌<◌, ◌≡◌, true, [], ◌∷◌, some, arith, take}
use haussteuerung.Prelude.Int.{pos, negsuc}
use haussteuerung.Config.{adr_jal_all, adr_jal_0}
use haussteuerung.Config.Cmd
use haussteuerung.Jalousie.State.{Jalousie, create}
use haussteuerung.Jalousie.Timer.{run}
use haussteuerung.Dispatch.{dispatch_jal}
use haussteuerung.Dispatch.Shutters.{take_all, meaning}
use haussteuerung.E6UdpServer.{Client, Message, is_known, remember, fs20_message}
use haussteuerung.E6UdpServer.Repeats.{recent, is_in, ring_lem}
use haussteuerung.E6UdpServer.Keys.{right, befehl_of, word_of, key_lem}

abbrev one_client : Client
one_client = record { ip = 7; packet_count_buf = λ _. negsuc 0; pointer = 3; reboot_enabled = true }

ring_lem_example :
    ((remember (pos 9) one_client).pointer < 5)
    × (recent (remember (pos 9) one_client) ≡ pos 9 ∷ take 4 (recent one_client))
    × (is_known (pos 8) one_client ≡ is_in (pos 8) (recent one_client))
ring_lem_example = ring_lem (pos 9) (pos 8) one_client (omega arith)

abbrev idle : Message
idle = record { mtyp = 0; mtext = [] }

abbrev house : Jalousie
house = create (record { adr = 16; sent = [] })

key_lem_example :
    let one = fs20_message (adr_jal_0 + 2) (befehl_of right) idle in
    let all = fs20_message adr_jal_all (befehl_of right) idle in
    let move = meaning (word_of right) in
    (one.mtyp ≡ Cmd.jal)
    × (dispatch_jal true one.mtext house ≡ some (run true (move 2) house, []))
    × (all.mtyp ≡ Cmd.jal)
    × (take_all 5 true (all.mtext ∷ []) house
        ≡ some
            (run true (move 3) (run true (move 2) (run true (move 1) (run true (move 0) house)))))
key_lem_example = key_lem true right 2 idle house (omega arith)
