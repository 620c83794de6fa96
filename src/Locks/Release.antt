-- ===== src/Locks/Release.antt =====
-- What the calls of src/ifd/locks.c leave to the clients: release, frames, and exclusive locks.
use openct.Prelude.{ℕ, ◌≡◌, ◌≢◌, ◌⊎◌, inl, inr, refl, Bool, true, arith}
use openct.Prelude.{List, [], ◌∷◌, ◌==◌, if◌then◌else◌}
use openct.Prelude.Outcome.{ok, err, Error}
use openct.Locks.{Socket, Lock, Table, check_locks, check_lock, lock}
use openct.Locks.{remove_lock, unlock, remove_owner, unlock_all}
use openct.Locks.Exclusion.{lock_cases, check_locks_cases}

-- The locks that one client holds, newest first.
pub locks_of : ℕ → List Lock → List Lock
locks_of id [] = []
locks_of id (l ∷ ls) = let rest = locks_of id ls in if l.owner == id then l ∷ rest else rest

-- A granted lock is given back by its handle: the list is then as it was before the grant.
pub unlock-lock :
    (memory : Bool) (t t' : Table) (sock : Socket) (slot type handle : ℕ)
    → lock memory t sock slot type ≡ (t', ok handle)
    → unlock t' sock slot handle ≡ (record t' { locks = t.locks }, ok tt)
unfolding unlock
unlock-lock memory t t' sock slot type handle e = elim (lock_cases memory t sock slot type) [
  | inl (o, g) ↦ unfold remove_lock in ground (arith, g, e)
  | inr (x, g) ↦ cc (g, e)
]

remove_lock-locks_of :
    (sock : Socket) (slot handle other : ℕ) (ls : List Lock)
    → other ≢ sock.id
    → locks_of other (remove_lock sock slot handle ls).0 ≡ locks_of other ls
unfolding locks_of remove_lock
remove_lock-locks_of sock slot handle other [] ne = refl
remove_lock-locks_of sock slot handle other (l ∷ ls) ne =
    ground (arith, remove_lock-locks_of sock slot handle other ls ne)

remove_owner-locks_of :
    (sock : Socket) (other : ℕ) (ls : List Lock)
    → other ≢ sock.id
    → locks_of other (remove_owner sock ls) ≡ locks_of other ls
unfolding locks_of remove_owner
remove_owner-locks_of sock other [] ne = refl
remove_owner-locks_of sock other (l ∷ ls) ne =
    ground (arith, remove_owner-locks_of sock other ls ne)

locks_of-remove_owner :
    (sock : Socket) (ls : List Lock) → locks_of sock.id (remove_owner sock ls) ≡ []
unfolding locks_of remove_owner
locks_of-remove_owner sock [] = refl
locks_of-remove_owner sock (l ∷ ls) = ground (arith, locks_of-remove_owner sock ls)

-- No call of one client, granted or refused, changes the locks that another client holds.
pub other_locks_stay :
    (memory : Bool) (t : Table) (sock : Socket) (slot type handle other : ℕ)
    → other ≢ sock.id
    → (locks_of other (lock memory t sock slot type).0.locks ≡ locks_of other t.locks)
      × (locks_of other (unlock t sock slot handle).0.locks ≡ locks_of other t.locks)
      × (locks_of other (unlock_all t sock).locks ≡ locks_of other t.locks)
unfolding unlock unlock_all
other_locks_stay memory t sock slot type handle other ne = (
  elim (lock_cases memory t sock slot type) [
    | inl (o, g) ↦ rw g (unfold locks_of in ground arith)
    | inr (x, g) ↦ rw g
  ],
  ground (arith, remove_lock-locks_of sock slot handle other t.locks ne),
  remove_owner-locks_of sock other t.locks ne,
)

-- When a socket is closed, none of its locks is left.
pub locks_of-unlock_all :
    (t : Table) (sock : Socket) → locks_of sock.id (unlock_all t sock).locks ≡ []
unfolding unlock_all
locks_of-unlock_all t sock = locks_of-remove_owner sock t.locks

-- A client with an exclusive lock on the slot is among the holders.
abbrev pub HoldsExclusive : ℕ → ℕ → List Lock → Type 0
HoldsExclusive id slot [] = ⊥
HoldsExclusive id slot (l ∷ ls) =
    ((l.owner ≡ id) × (l.slot ≡ slot) × (l.exclusive ≡ true)) ⊎ HoldsExclusive id slot ls

check_locks-exclusive :
    (sock : Socket) (slot type id : ℕ) (ls : List Lock)
    → id ≢ sock.id
    → HoldsExclusive id slot ls
    → check_locks sock slot type ls ≡ err Error.locked
unfolding check_locks
check_locks-exclusive sock slot type id [] ne h = absurd h
check_locks-exclusive sock slot type id (l ∷ ls) ne (inl h) =
    elim (check_locks_cases sock slot type ls) [
      | inl e ↦ ground (arith, h, e)
      | inr e ↦ ground (arith, h, e)
    ]
check_locks-exclusive sock slot type id (l ∷ ls) ne (inr h) =
    ground (arith, check_locks-exclusive sock slot type id ls ne h)

-- While a client holds an exclusive lock on a slot, every request of another client for that slot,
-- shared or exclusive, is refused as locked and leaves the table, and so is its check before an APDU.
pub exclusive_blocks :
    (memory : Bool) (t : Table) (sock : Socket) (slot type id : ℕ)
    → id ≢ sock.id
    → HoldsExclusive id slot t.locks
    → (check_lock t sock slot type ≡ err Error.locked)
      × (lock memory t sock slot type ≡ (t, err Error.locked))
unfolding check_lock lock
exclusive_blocks memory t sock slot type id ne h =
    let e = check_locks-exclusive sock slot type id t.locks ne h in (e, rw (e, lock))
