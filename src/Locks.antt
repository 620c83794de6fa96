-- ===== src/Locks.antt =====
-- The lock table of src/ifd/locks.c: which client holds which lock on which card slot.
--
-- A client socket is its address, with the `client_uid` that the handler reads from it. The table is
-- the linked list `locks`, newest first, and the counter `lock_handle`.
pub mod Exclusion
pub mod Release
mod Runs
use openct.Prelude.{ℕ, ◌+◌, Bool, true, false, not, ◌&&◌, ◌||◌, List, [], ◌∷◌, ◌==◌, if◌then◌else◌}
use openct.Prelude.Memory.{u32}
use openct.Prelude.Outcome.{Outcome, ok, err, Error}

pub record Socket : Type 0 where
  pub id : ℕ
  pub client_uid : ℕ

pub record Lock : Type 0 where
  pub slot : ℕ
  pub uid : ℕ
  pub handle : ℕ
  pub owner : ℕ
  pub exclusive : Bool

pub record Table : Type 0 where
  pub locks : List Lock
  pub lock_handle : ℕ

-- `IFD_LOCK_EXCLUSIVE`
abbrev pub lock_exclusive : ℕ
lock_exclusive = 1

-- The loop over the list from `l` on.
unfoldable pub check_locks : Socket → ℕ → ℕ → List Lock → Outcome (Unit {0})
check_locks sock slot type [] = ok tt
check_locks sock slot type (l ∷ ls) =
    let rest = check_locks sock slot type ls in
    if not (l.slot == slot)
    then rest
    else if l.owner == sock.id
    then rest
    else if l.exclusive || type == lock_exclusive || not (l.uid == sock.client_uid)
    then err Error.locked
    else rest

unfoldable pub check_lock : Table → Socket → ℕ → ℕ → Outcome (Unit {0})
check_lock t sock slot type = check_locks sock slot type t.locks

abbrev pub new_lock : Table → Socket → ℕ → ℕ → Lock
new_lock t sock slot type = record {
  slot = slot;
  uid = sock.client_uid;
  handle = t.lock_handle;
  owner = sock.id;
  exclusive = type == lock_exclusive;
}

-- `memory` is whether `calloc` succeeds.
unfoldable pub lock : Bool → Table → Socket → ℕ → ℕ → Table × Outcome ℕ
lock memory t sock slot type = elim (check_lock t sock slot type) [
  | err e ↦ (t, err e)
  | ok _ ↦
      if memory
      then (
        record {
          locks = new_lock t sock slot type ∷ t.locks;
          lock_handle = u32 (t.lock_handle + 1);
        },
        ok t.lock_handle,
      )
      else (t, err Error.no_memory)
]

abbrev pub is_match : Socket → ℕ → ℕ → Lock → Bool
is_match sock slot handle l = l.owner == sock.id && l.slot == slot && l.handle == handle

-- The list without its first match, and whether there was one.
pub remove_lock : Socket → ℕ → ℕ → List Lock → List Lock × Bool
remove_lock sock slot handle [] = ([], false)
remove_lock sock slot handle (l ∷ ls) =
    let (rest, found) = remove_lock sock slot handle ls in
    if is_match sock slot handle l then (ls, true) else (l ∷ rest, found)

pub unlock : Table → Socket → ℕ → ℕ → Table × Outcome (Unit {0})
unlock t sock slot handle =
    let (ls, found) = remove_lock sock slot handle t.locks in
    if found then (record t { locks = ls }, ok tt) else (t, err Error.nolock)

pub remove_owner : Socket → List Lock → List Lock
remove_owner sock [] = []
remove_owner sock (l ∷ ls) =
    let rest = remove_owner sock ls in if l.owner == sock.id then rest else l ∷ rest

pub unlock_all : Table → Socket → Table
unlock_all t sock = record t { locks = remove_owner sock t.locks }
