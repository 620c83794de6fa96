-- ===== src/Locks/Runs.antt =====
-- Runs of the lock table, and its theorems at concrete inputs.
use openct.Prelude.{◌≡◌, ◌↔◌, refl, inl, true, [], ◌∷◌, All, arith}
use openct.Prelude.Outcome.{ok, err, Error}
use openct.Locks.{Socket, Lock, Table, check_locks, check_lock, lock, remove_lock, unlock}
use openct.Locks.{unlock_all}
use openct.Locks.Exclusion.{Admits, AllCompatible, Step, Reach, no_locks, check_lock_iff}
use openct.Locks.Exclusion.{Reach-AllCompatible}
use openct.Locks.Release.{locks_of, unlock-lock, other_locks_stay}
use openct.Locks.Release.{exclusive_blocks}

abbrev alice : Socket
alice = record { id = 100; client_uid = 1 }

abbrev bob : Socket
bob = record { id = 200; client_uid = 2 }

abbrev held : Lock
held = record { slot = 0; uid = 1; handle = 0; owner = 100; exclusive = true }

abbrev table : Table
table = record { locks = held ∷ []; lock_handle = 1 }

alice_locks : lock true no_locks alice 0 1 ≡ (table, ok 0)
unfolding lock check_lock check_locks
alice_locks = refl

bob_waits : lock true table bob 0 0 ≡ (table, err Error.locked)
unfolding lock check_lock check_locks
bob_waits = refl

bob_takes_the_other_slot : (lock true table bob 1 0).1 ≡ ok 1
unfolding lock check_lock check_locks
bob_takes_the_other_slot = refl

wrong_handle : (unlock table alice 0 7).1 ≡ err Error.nolock
unfolding unlock remove_lock
wrong_handle = refl

check_lock_iff_example : (check_lock table bob 0 0 ≡ ok tt) ↔ All (Admits bob 0 0) table.locks
check_lock_iff_example = check_lock_iff table bob 0 0

reached : Reach (lock true (lock true no_locks alice 0 1).0 bob 0 0).0
reached =
    Reach.next (Reach.next Reach.start (Step.locked true alice 0 1)) (Step.locked true bob 0 0)

Reach-AllCompatible_example :
    AllCompatible (lock true (lock true no_locks alice 0 1).0 bob 0 0).0.locks
Reach-AllCompatible_example = Reach-AllCompatible reached

unlock-lock_example : unlock table alice 0 0 ≡ (record table { locks = [] }, ok tt)
unlock-lock_example = unlock-lock true no_locks table alice 0 1 0 alice_locks

other_locks_stay_example :
    (locks_of 100 (lock true table bob 1 0).0.locks ≡ locks_of 100 table.locks)
    × (locks_of 100 (unlock table bob 1 0).0.locks ≡ locks_of 100 table.locks)
    × (locks_of 100 (unlock_all table bob).locks ≡ locks_of 100 table.locks)
other_locks_stay_example = other_locks_stay true table bob 1 0 0 100 (omega arith)

exclusive_blocks_example :
    (check_lock table bob 0 0 ≡ err Error.locked)
    × (lock true table bob 0 0 ≡ (table, err Error.locked))
exclusive_blocks_example =
    exclusive_blocks true table bob 0 0 100 (omega arith) (inl (refl, refl, refl))
