-- ===== src/Boot.antt =====
-- What `main` of src/haussteuerung.cpp does before the objects are created: the paths of its
-- files, the sets of semaphores and the shared memory. The answers of the system calls are
-- arguments; `none` is the end of the program.
pub mod Answers
pub mod Tests
use haussteuerung.Prelude.{
  ℕ, Bool, true, false, not, ◌&&◌, [], ◌∷◌, ◌++◌, Option, none, some, if◌then◌else◌, ◌==◌, ◌>>=◌,
}
use haussteuerung.Prelude.Int.{ℤ, pos, negsuc, ltb_ℤ, same_ℤ}
use haussteuerung.Prelude.Text.{Text, codes}

-- `strconfpath.compare(strconfpath.length() - 1, 1, "/") == 0`; the position in an empty text is
-- behind its end, which is an exception that nobody catches.
unfoldable pub ends_with_slash : Text → Option Bool
ends_with_slash [] = none
ends_with_slash (c ∷ []) = some (c == b'/')
ends_with_slash (c ∷ d ∷ s) = ends_with_slash (d ∷ s)

-- `strconfpath`, with the argument behind the options, if there is one.
unfoldable pub conf_path : Option Text → Option Text
conf_path none = some []
conf_path (some path) =
    ends_with_slash path >>= λ closed. some (if closed then path else path ++ b'/' ∷ [])

pub record Paths : Type 0 where
  pub confpath : Text
  pub wetterpath : Text
  pub regenpath : Text
  pub logpath : Text
  pub hslightpath : Text
  pub timestamppath : Text

unfoldable pub paths : Option Text → Option Paths
paths arg = conf_path arg >>= λ path. some (record {
  confpath = path ++ codes "haussteuerung.conf";
  wetterpath = path ++ codes "wetter.dbk";
  regenpath = path ++ codes "regen_1h.dbk";
  logpath = path ++ codes "haussteuerung.log";
  hslightpath = path ++ codes "hslight.conf";
  timestamppath = path ++ codes "timestamp";
})

-- What the calls for a set of semaphores answer: `semget` for three of them, `errno`, `semget` for
-- one, `semctl` with IPC_RMID, `semget` once more.
pub record SemAnswers : Type 0 where
  pub first : ℤ
  pub errno : ℕ
  pub taken : ℤ
  pub removed : ℤ
  pub second : ℤ

unfoldable pub is_negative : ℤ → Bool
is_negative a = ltb_ℤ a (pos 0)

abbrev pub einval : ℕ
einval = 22

abbrev pub eexist : ℕ
eexist = 17

-- The id that `initSemaphore` returns.
unfoldable pub init_semaphore : SemAnswers → Option ℤ
init_semaphore a =
    let again = if same_ℤ a.removed (pos 0) then a.second else negsuc 0 in
    if is_negative a.first && (a.errno == einval)
    then (if is_negative a.taken then none else if is_negative again then none else some again)
    else some a.first

-- The same for the shared memory, and whether `shmat` succeeds.
pub record ShmAnswers : Type 0 where
  pub first : ℤ
  pub errno : ℕ
  pub taken : ℤ
  pub removed : ℤ
  pub second : ℤ
  pub attached : ℤ → Bool

unfoldable pub attach : (ℤ → Bool) → ℤ → Option ℤ
attach attached id = if attached id then some id else none

unfoldable pub init_shared_memory : ShmAnswers → Option ℤ
init_shared_memory a =
    let again = if same_ℤ a.removed (pos 0) then a.second else negsuc 0 in
    if is_negative a.first && (a.errno == eexist)
    then (if is_negative a.taken
        then none
        else if is_negative again
        then none
        else attach a.attached again)
    else attach a.attached a.first
