-- ===== src/Boot/Tests.antt =====
-- Runs of the start, src/haussteuerung.cpp.
use haussteuerung.Prelude.{◌≡◌, refl, [], none, some, true, ◌>>=◌}
use haussteuerung.Prelude.Int.{pos, negsuc}
use haussteuerung.Prelude.Text.{codes}
use haussteuerung.Boot.{
  ends_with_slash, conf_path, paths, is_negative, eexist, einval, init_semaphore,
  init_shared_memory, attach,
}

in_home : (paths none >>= λ p. some p.logpath) ≡ some (codes "haussteuerung.log")
unfolding paths conf_path
in_home = refl

in_etc :
    (paths (some (codes "/etc")) >>= λ p. some p.confpath) ≡ some (codes "/etc/haussteuerung.conf")
unfolding paths conf_path ends_with_slash
in_etc = refl

-- An empty argument is an exception.
empty_argument : paths (some []) ≡ none
unfolding paths conf_path ends_with_slash
empty_argument = refl

-- A set of one semaphore of an earlier run is taken, removed and created again.
semaphores_again :
    init_semaphore
      (record { first = negsuc 0; errno = einval; taken = pos 3; removed = pos 0; second = pos 4 })
    ≡ some (pos 4)
unfolding init_semaphore is_negative
semaphores_again = refl

-- Where the calls are not allowed, the program goes on with -1.
semaphores_denied :
    init_semaphore (record {
      first = negsuc 0;
      errno = 13;
      taken = negsuc 0;
      removed = negsuc 0;
      second = negsuc 0;
    })
    ≡ some (negsuc 0)
unfolding init_semaphore is_negative
semaphores_denied = refl

-- A segment that cannot be removed ends the program.
memory_kept :
    init_shared_memory (record {
      first = negsuc 0;
      errno = eexist;
      taken = pos 3;
      removed = negsuc 0;
      second = pos 4;
      attached = λ x. true;
    })
    ≡ none
unfolding init_shared_memory attach is_negative
memory_kept = refl
