-- ===== src/Dimmer.antt =====
-- The branch CMD_DIMM of the dispatch in src/haussteuerung.cpp, with `dimmLampeStart`,
-- `dimmLampeStop`, `dimmTimer` and `cleanupDimmTimer` of src/devices.cpp: a thread that sends a
-- command again and again while a key is held. `none` is the use of a null pointer, where the text
-- lacks "value=" or the colon or the lamp has no address, or of a thread id that was never set.
pub mod Threads
pub mod Keys
pub mod Tests
use haussteuerung.Prelude.{
  ℕ, suc, ◌+◌, Bool, true, false, ◌||◌, List, [], ◌∷◌, Option, none, some, if◌then◌else◌, ◌==◌, ltb,
  ◌>>=◌, update,
}
use haussteuerung.Prelude.Int.{ℤ, pos, same_ℤ}
use haussteuerung.Prelude.Text.{Text, codes, after}
use haussteuerung.Config.{fs20_dimm_up, fs20_dimm_down}
use haussteuerung.Config.Request.{dimm_up_start, dimm_up_stop, dimm_down_start, dimm_down_stop}
use haussteuerung.Ini.{Ini}
use haussteuerung.Hauscode.{convert_address}
use haussteuerung.RemoteFs20.{Order, telegram, fs20_send, address_of}
use haussteuerung.Dispatch.{read_dauer}
use haussteuerung.Lamps.{strsep}

-- A thread that runs: its data, as the line that it sends, and its count; whether it is in front of
-- a command or in its `usleep`, the only place where it can be cancelled; and whether
-- `pthread_cancel` was called for it.
pub record Thread : Type 0 where
  pub ecmd : Text
  pub count : ℕ
  pub awake : Bool
  pub cancelled : Bool

-- The threads by number, how many were made, the id that the object keeps, and what was sent, the
-- newest first. A thread that has ended has freed its data and is gone.
pub record Dimmer : Type 0 where
  pub threads : ℕ → Option Thread
  pub made : ℕ
  pub thr_id : Option ℕ
  pub sent : List Order

unfoldable pub create : Dimmer
create = record { threads = λ i. none; made = 0; thr_id = none; sent = [] }

-- `pthread_create` with the data of a new thread.
unfoldable pub launch : Text → Dimmer → Dimmer
launch ecmd d = record d {
  threads =
      update d.threads d.made
        (some (record { ecmd = ecmd; count = 0; awake = true; cancelled = false }));
  made = suc d.made;
  thr_id = some d.made;
}

-- `pthread_cancel`, which does nothing to a thread that has ended. The thread is detached, so that
-- the `pthread_join` returns at once, and the thread goes on up to its next `usleep`.
unfoldable pub cancel : Option Thread → Option Thread
cancel none = none
cancel (some t) = some (record t { cancelled = true })

unfoldable pub dimm_lampe_stop : Dimmer → Option Dimmer
dimm_lampe_stop d =
    d.thr_id >>= λ id. some (record d { threads = update d.threads id (cancel (d.threads id)) })

-- The next step of `dimmTimer` in thread i: a command, sent to its end while cancelling is
-- disabled, with the beginning of the `usleep`; the end of the loop; or the end of the `usleep`,
-- or of the thread in it.
unfoldable pub dimm_round : ℕ → Dimmer → Dimmer
dimm_round i d = elim (d.threads i) [
  | none ↦ d
  | some t ↦
      if t.awake
      then (if ltb t.count 20
          then record d {
            threads = update d.threads i (some (record t { count = suc t.count; awake = false }));
            sent = telegram t.ecmd ∷ d.sent;
          }
          else record d { threads = update d.threads i none })
      else if t.cancelled
      then record d { threads = update d.threads i none }
      else record d { threads = update d.threads i (some (record t { awake = true })) }
]

module _ (ini : Ini) (light : Ini.Dict ini) (held : Text → ℕ) (hc : ℕ) where
  -- `starts` is that `pthread_create` succeeds.
  unfoldable pub dimm_lampe_start : Bool → Text → ℕ → Dimmer → Option Dimmer
  dimm_lampe_start starts lampe cmd d = address_of ini light held lampe >>= λ adresse.
      some (if starts then launch (fs20_send hc (convert_address adresse) (pos cmd)) d else d)

  -- `dimm_cmd` is what the variable holds from an earlier message.
  unfoldable pub dispatch_dimm : Bool → ℤ → Text → Dimmer → Option Dimmer
  dispatch_dimm starts dimm_cmd mtext d = after (codes "value=") mtext >>= λ tmp1.
      (strsep b':' tmp1).1 >>= λ rest.
      (let lampe = (strsep b':' tmp1).0 in
        let cmd = read_dauer dimm_cmd rest in
        if same_ℤ cmd (pos dimm_down_start)
        then dimm_lampe_start starts lampe fs20_dimm_down d
        else if same_ℤ cmd (pos dimm_up_start)
        then dimm_lampe_start starts lampe fs20_dimm_up d
        else if same_ℤ cmd (pos dimm_down_stop) || same_ℤ cmd (pos dimm_up_stop)
        then dimm_lampe_stop d
        else some d)
