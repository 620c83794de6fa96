-- ===== src/Locks/Exclusion.antt =====
-- Mutual exclusion of the lock table of src/ifd/locks.c, over every sequence of client calls.
use openct.Prelude.{ℕ, ◌≡◌, ◌≢◌, ◌↔◌, ◌⊎◌, inl, inr, refl, Bool, true, false, ◌||◌, arith}
use openct.Prelude.{List, [], ◌∷◌, All, ◌==◌, Bool-cases, not}
use openct.Prelude.{◌+◌}
use openct.Prelude.Memory.{u32}
use openct.Prelude.Outcome.{ok, err, Error}
use openct.Locks.{Socket, Lock, Table, lock_exclusive, check_locks, check_lock, new_lock, lock}
use openct.Locks.{is_match, remove_lock, unlock, remove_owner, unlock_all}

-- Two locks on one slot that different clients hold: both shared, and by one user.
abbrev pub Compatible : Lock → Lock → Type 0
Compatible a b =
    a.slot ≡ b.slot
    → a.owner ≢ b.owner
    → (a.exclusive ≡ false) × (b.exclusive ≡ false) × (a.uid ≡ b.uid)

abbrev pub AllCompatible : List Lock → Type 0
AllCompatible [] = Unit
AllCompatible (l ∷ ls) = All (Compatible l) ls × AllCompatible ls

-- What a client's request asks of a lock that is in the table.
abbrev pub Admits : Socket → ℕ → ℕ → Lock → Type 0
Admits sock slot type l =
    l.slot ≡ slot
    → l.owner ≢ sock.id
    → (l.exclusive ≡ false) × (type ≢ lock_exclusive) × (l.uid ≡ sock.client_uid)

abbrev pub is_refused : Socket → ℕ → Lock → Bool
is_refused sock type l = l.exclusive || type == lock_exclusive || not (l.uid == sock.client_uid)

-- One round of the loop.
pub check_round :
    (sock : Socket) (slot type : ℕ) (l : Lock) (ls : List Lock)
    → (Admits sock slot type l
        × (check_locks sock slot type (l ∷ ls) ≡ check_locks sock slot type ls))
      ⊎ ((¬ Admits sock slot type l) × (check_locks sock slot type (l ∷ ls) ≡ err Error.locked))
unfolding check_locks
check_round sock slot type l ls = elim (Bool-cases (l.slot == slot)) [
  | inr s ↦ inl (λ p q. absurd (ground arith), ground arith)
  | inl s ↦ elim (Bool-cases (l.owner == sock.id)) [
    | inl o ↦ inl (λ p q. absurd (ground arith), ground arith)
    | inr o ↦ elim (Bool-cases (is_refused sock type l)) [
      | inl x ↦ inr (λ a. absurd (ground (arith, a (ground arith) (ground arith))), ground arith)
      | inr x ↦ inl (λ p q. (ground arith, ground arith, ground arith), ground arith)
    ]
  ]
]

check_locks-Admits :
    (sock : Socket) (slot type : ℕ) (ls : List Lock)
    → check_locks sock slot type ls ≡ ok tt
    → All (Admits sock slot type) ls
check_locks-Admits sock slot type [] e = tt
check_locks-Admits sock slot type (l ∷ ls) e = elim (check_round sock slot type l ls) [
  | inl (a, same) ↦ (a, check_locks-Admits sock slot type ls (rw same at e))
  | inr (n, locked) ↦ cc
]

Admits-check_locks :
    (sock : Socket) (slot type : ℕ) (ls : List Lock)
    → All (Admits sock slot type) ls
    → check_locks sock slot type ls ≡ ok tt
Admits-check_locks sock slot type [] h = unfold check_locks in refl
Admits-check_locks sock slot type (l ∷ ls) h = elim (check_round sock slot type l ls) [
  | inl (a, same) ↦ rw same (Admits-check_locks sock slot type ls h.1)
  | inr (n, locked) ↦ absurd (n h.0)
]

-- A request is granted exactly when no lock on the slot that another client holds stands in its way:
-- each of these has to be shared and of the same user, and where there is any, the request has to be for
-- a shared lock.
pub check_lock_iff :
    (t : Table) (sock : Socket) (slot type : ℕ)
    → (check_lock t sock slot type ≡ ok tt) ↔ All (Admits sock slot type) t.locks
unfolding check_lock
check_lock_iff t sock slot type =
    (check_locks-Admits sock slot type t.locks, Admits-check_locks sock slot type t.locks)

-- The only refusal is the code `IFD_ERROR_LOCKED`.
pub check_locks_cases :
    (sock : Socket) (slot type : ℕ) (ls : List Lock)
    → (check_locks sock slot type ls ≡ ok tt) ⊎ (check_locks sock slot type ls ≡ err Error.locked)
check_locks_cases sock slot type [] = inl (unfold check_locks in refl)
check_locks_cases sock slot type (l ∷ ls) = elim (check_round sock slot type l ls) [
  | inl (a, same) ↦ rw same (check_locks_cases sock slot type ls)
  | inr (n, locked) ↦ inr locked
]

-- Every answer of `ifdhandler_lock`: a new entry with the handle, or a refusal that leaves the table.
pub lock_cases :
    (memory : Bool) (t : Table) (sock : Socket) (slot type : ℕ)
    → ((check_lock t sock slot type ≡ ok tt)
        × (lock memory t sock slot type ≡ (
          record {
            locks = new_lock t sock slot type ∷ t.locks;
            lock_handle = u32 (t.lock_handle + 1);
          },
          ok t.lock_handle,
        )))
      ⊎ ((e : Error) × (lock memory t sock slot type ≡ (t, err e)))
lock_cases memory t sock slot type = elim (check_locks_cases sock slot type t.locks) [
  | inl o ↦ granted memory o
  | inr x ↦ inr (Error.locked, unfold lock check_lock in rw (x, lock))
]
  where
    granted :
        (m : Bool)
        → check_locks sock slot type t.locks ≡ ok tt
        → ((check_lock t sock slot type ≡ ok tt)
            × (lock m t sock slot type ≡ (
              record {
                locks = new_lock t sock slot type ∷ t.locks;
                lock_handle = u32 (t.lock_handle + 1);
              },
              ok t.lock_handle,
            )))
          ⊎ ((e : Error) × (lock m t sock slot type ≡ (t, err e)))
    granted true o = inl (unfold check_lock in o, unfold lock check_lock in rw (o, lock))
    granted false o = inr (Error.no_memory, unfold lock check_lock in rw (o, lock))

Admits-Compatible :
    (t : Table) (sock : Socket) (slot type : ℕ) (ls : List Lock)
    → All (Admits sock slot type) ls
    → All (Compatible (new_lock t sock slot type)) ls
Admits-Compatible t sock slot type [] h = tt
Admits-Compatible t sock slot type (l ∷ ls) h = (
  λ p q. ground (arith, h.0 (ground arith) (ground arith)),
  Admits-Compatible t sock slot type ls h.1,
)

lock-AllCompatible :
    (memory : Bool) (t : Table) (sock : Socket) (slot type : ℕ)
    → AllCompatible t.locks
    → AllCompatible (lock memory t sock slot type).0.locks
lock-AllCompatible memory t sock slot type h = elim (lock_cases memory t sock slot type) [
  | inl (o, e) ↦
      rw e (Admits-Compatible t sock slot type t.locks ((check_lock_iff t sock slot type).0 o), h)
  | inr (x, e) ↦ rw e h
]

remove_lock-All {ℓ} :
    (P : Lock → Type ℓ) (sock : Socket) (slot handle : ℕ) (ls : List Lock)
    → All P ls
    → All P (remove_lock sock slot handle ls).0
unfolding remove_lock
remove_lock-All P sock slot handle [] h = h
remove_lock-All P sock slot handle (l ∷ ls) h = elim (Bool-cases (is_match sock slot handle l)) [
  | inl e ↦ rw e h.1
  | inr e ↦ rw e (h.0, remove_lock-All P sock slot handle ls h.1)
]

remove_lock-AllCompatible :
    (sock : Socket) (slot handle : ℕ) (ls : List Lock)
    → AllCompatible ls
    → AllCompatible (remove_lock sock slot handle ls).0
unfolding remove_lock
remove_lock-AllCompatible sock slot handle [] h = h
remove_lock-AllCompatible sock slot handle (l ∷ ls) h =
    elim (Bool-cases (is_match sock slot handle l)) [
      | inl e ↦ rw e h.1
      | inr e ↦ rw e (
        remove_lock-All (Compatible l) sock slot handle ls h.0,
        remove_lock-AllCompatible sock slot handle ls h.1,
      )
    ]

unlock-AllCompatible :
    (t : Table) (sock : Socket) (slot handle : ℕ)
    → AllCompatible t.locks
    → AllCompatible (unlock t sock slot handle).0.locks
unfolding unlock
unlock-AllCompatible t sock slot handle h =
    elim (Bool-cases (remove_lock sock slot handle t.locks).1) [
      | inl e ↦ rw e (remove_lock-AllCompatible sock slot handle t.locks h)
      | inr e ↦ rw e h
    ]

remove_owner-All {ℓ} :
    (P : Lock → Type ℓ) (sock : Socket) (ls : List Lock) → All P ls → All P (remove_owner sock ls)
unfolding remove_owner
remove_owner-All P sock [] h = h
remove_owner-All P sock (l ∷ ls) h = elim (Bool-cases (l.owner == sock.id)) [
  | inl e ↦ rw e (remove_owner-All P sock ls h.1)
  | inr e ↦ rw e (h.0, remove_owner-All P sock ls h.1)
]

remove_owner-AllCompatible :
    (sock : Socket) (ls : List Lock) → AllCompatible ls → AllCompatible (remove_owner sock ls)
unfolding remove_owner
remove_owner-AllCompatible sock [] h = h
remove_owner-AllCompatible sock (l ∷ ls) h = elim (Bool-cases (l.owner == sock.id)) [
  | inl e ↦ rw e (remove_owner-AllCompatible sock ls h.1)
  | inr e ↦
      rw e (remove_owner-All (Compatible l) sock ls h.0, remove_owner-AllCompatible sock ls h.1)
]

-- One call of a client, with any arguments.
pub data Step (t : Table) : Table → Type 0 where
  locked : (memory : Bool) (sock : Socket) (slot type : ℕ) → Step t (lock memory t sock slot type).0
  unlocked : (sock : Socket) (slot handle : ℕ) → Step t (unlock t sock slot handle).0
  closed : (sock : Socket) → Step t (unlock_all t sock)

abbrev pub no_locks : Table
no_locks = record { locks = []; lock_handle = 0 }

pub data Reach : Table → Type 0 where
  start : Reach no_locks
  next : {t u : Table} → Reach t → Step t u → Reach u

Step-AllCompatible : {t u : Table} → Step t u → AllCompatible t.locks → AllCompatible u.locks
Step-AllCompatible {t} (locked memory sock slot type) h =
    lock-AllCompatible memory t sock slot type h
Step-AllCompatible {t} (unlocked sock slot handle) h = unlock-AllCompatible t sock slot handle h
Step-AllCompatible {t} (closed sock) h =
    unfold unlock_all in remove_owner-AllCompatible sock t.locks h

-- Whatever the clients call, in whatever order: two locks on one slot that different clients hold
-- are both shared and belong to one user. So an exclusive lock shuts all other clients out.
pub Reach-AllCompatible : {t : Table} → Reach t → AllCompatible t.locks
Reach-AllCompatible start = tt
Reach-AllCompatible (next r s) = Step-AllCompatible s (Reach-AllCompatible r)
