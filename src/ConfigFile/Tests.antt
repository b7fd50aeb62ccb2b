-- ===== src/ConfigFile/Tests.antt =====
-- Runs of CMD_GET_CONFIG and its properties at concrete inputs.
use haussteuerung.Prelude.{◌≡◌, refl, true, false, List, [], ◌∷◌, none, some, ◌+◌, ◌≤◌, length}
use haussteuerung.Prelude.Text.{Text, codes, after, atoi, strtol, skip_space, digit_value, scan}
use haussteuerung.GuiTcpServer.{create, send_config}
use haussteuerung.Requests.{asking_client}
use haussteuerung.ConfigFile.{
  opened, meets_end, count_reads, read_invers, filebuffer, buffer_size, Files, hs_conf, log_inv,
  count_lines, read_file, dispatch_get_config, zeilen, fgets,
}
use haussteuerung.ConfigFile.Reads.{joined}
use haussteuerung.ConfigFile.Answers.{sent_for, invers_lem, file_lem}
use haussteuerung.ConfigFile.Buffer.{buffer_lem}

abbrev two_lines : List Text
two_lines = codes "on & on\n" ∷ codes "off\n" ∷ []

abbrev conf : Text
conf = codes "[system]\nname = a & b\n"

abbrev files : Files
files = record { conf = some conf; light = none; log = some (joined two_lines) }

abbrev asks_log : Text
asks_log = codes "value=4"

abbrev asks_conf : Text
asks_conf = codes "value=1 client=7"

invers_lem_example :
    dispatch_get_config true 5 asks_log files create
    ≡ some (send_config 5 (sent_for log_inv (codes "off\non & on\n")) create)
unfolding after atoi strtol skip_space digit_value scan asking_client
invers_lem_example =
    invers_lem 5 asks_log (codes "4") files two_lines create refl refl refl refl refl

file_lem_example :
    dispatch_get_config false 5 asks_conf files create
    ≡ some (send_config 7 (sent_for hs_conf conf) create)
unfolding after atoi strtol skip_space digit_value scan asking_client opened
file_lem_example =
    file_lem false 5 asks_conf (codes "1 client=7") files hs_conf conf conf create refl refl refl
      refl

backwards : read_file true log_inv (joined two_lines) ≡ some (12, codes "off\non & on\n")
unfolding read_file count_lines count_reads fgets meets_end zeilen read_invers
backwards = refl

-- A log that is not written to its file is asked for through a pointer that was never set.
no_log : read_file false log_inv (joined two_lines) ≡ none
unfolding read_file
no_log = refl

-- An empty log has no lines, and is sent as an empty element.
empty_log : read_file true log_inv [] ≡ some (0, [])
unfolding read_file count_lines count_reads fgets meets_end zeilen read_invers
empty_log = refl

buffer_lem_example : length (filebuffer log_inv (codes "off\non & on\n")) + 1 ≤ buffer_size 12
buffer_lem_example =
    buffer_lem true log_inv (joined two_lines) 12 (codes "off\non & on\n") backwards
