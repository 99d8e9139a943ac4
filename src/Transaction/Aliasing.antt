-- ===== src/Transaction/Aliasing.antt =====
-- src/transaction/transaction.c: what the one `next` field of a lock in two lists leads to.
use micro_meow_db.Prelude.{
  ℕ, zero, suc, ◌+◌, ◌<◌, ◌≡◌, ◌≢◌, refl, Bool, true, some, arith, get_elem?, get_elem?-set,
  get_elem?-lt,
}
use micro_meow_db.Transaction.{
  Lock, LockType, Ptr, Transaction, TransactionManager, ok, fault, out_of_fuel, ◌>>=◌, active, load,
  free, set_next, write, get_transaction, put_transaction, unlink_global, release_locks, finish,
  transaction_commit, transaction_rollback,
}
use micro_meow_db.Transaction.Locks.{
  check_lock_conflict, last_lock, append_own, append_global, new_lock, transaction_lock,
  unlock_from, transaction_unlock,
}

-- An active transaction without locks, in a manager without locks.
pub record IsLockFree (m : TransactionManager) (tx : ℕ) (t : Transaction) : Type 0 where
  pub found : get_elem? m.transactions tx ≡ some t
  pub active : t.state ≡ active
  pub own : t.locks ≡ 0
  pub global : m.locks ≡ 0
  pub room : 0 < m.fresh

-- the manager after the first lock of the transaction
pub first_locked : ℕ → TransactionManager → ℕ → Transaction → ℕ → LockType → TransactionManager
unfolding new_lock
first_locked now m tx t resource type =
    record (put_transaction (new_lock now m t.id resource type) tx (record t { locks = m.fresh })) {
      locks = m.fresh;
    }

-- The walk over a lock that is its own successor and belongs to the asking transaction never ends.
own_loop :
    (is_none : LockType → Bool) (fuel : ℕ) (m : TransactionManager) (p : Ptr) (l : Lock)
    (resource id : ℕ) (type : LockType)
    → p ≢ 0
    → m.cell p ≡ some l
    → l.next ≡ p
    → l.transaction_id ≡ id
    → check_lock_conflict is_none fuel m p resource id type ≡ out_of_fuel
unfolding check_lock_conflict load
own_loop is_none zero m p l resource id type h c n e = refl
own_loop is_none (suc fuel) m p l resource id type h c n e =
    ground (arith, own_loop is_none fuel m p l resource id type h c n e)

module _ (is_none : LockType → Bool) (m : TransactionManager) (tx : ℕ) (t : Transaction)
    (free_of_locks : IsLockFree m tx t) (now resource : ℕ) (type : LockType) where
  -- The first lock is granted.
  pub first_lock :
      (fuel : ℕ)
      → transaction_lock is_none (suc fuel) true now m (some tx) resource type
        ≡ ok (first_locked now m tx t resource type, true)
  unfolding transaction_lock get_transaction check_lock_conflict append_own append_global
      first_locked
  first_lock fuel = ground arith

  retrieved :
      get_elem? (first_locked now m tx t resource type).transactions tx
      ≡ some (record t { locks = m.fresh })
  unfolding first_locked
  retrieved = ground (
    arith,
    get_elem?-lt m.transactions tx t free_of_locks.found,
    get_elem?-set m.transactions tx tx (record t { locks = m.fresh }),
  )

  commit_frees_twice :
      (fuel later : ℕ)
      → transaction_commit (suc (suc fuel)) later (first_locked now m tx t resource type) (some tx)
        ≡ fault
  unfolding transaction_commit get_transaction finish release_locks unlink_global load free
      first_locked
  commit_frees_twice fuel later = ground (arith, retrieved)

  rollback_frees_twice :
      (fuel later : ℕ)
      → transaction_rollback
          (suc (suc fuel))
          later
          (first_locked now m tx t resource type)
          (some tx)
        ≡ fault
  unfolding transaction_rollback get_transaction finish release_locks unlink_global load free
      first_locked
  rollback_frees_twice fuel later = ground (arith, retrieved)

  unlock_frees_twice :
      (fuel : ℕ)
      → transaction_unlock
          (suc (suc fuel))
          (first_locked now m tx t resource type)
          (some tx)
          resource
        ≡ fault
  unfolding transaction_unlock get_transaction unlock_from unlink_global load free first_locked
  unlock_frees_twice fuel = ground (arith, retrieved)

  -- A lock of an active transaction that had none, in a manager that had none, is granted if its
  -- `malloc` succeeds; then the commit, the rollback and the unlocking of the resource each free
  -- that lock twice, whatever the fuel above 1.
  pub lock_then_end_faults :
      (fuel later : ℕ)
      → let locked = transaction_lock is_none (suc (suc fuel)) true now m (some tx) resource type in
        (locked ≡ ok (first_locked now m tx t resource type, true))
        × ((locked >>= λ r. transaction_commit (suc (suc fuel)) later r.0 (some tx)) ≡ fault)
        × ((locked >>= λ r. transaction_rollback (suc (suc fuel)) later r.0 (some tx)) ≡ fault)
        × ((locked >>= λ r. transaction_unlock (suc (suc fuel)) r.0 (some tx) resource) ≡ fault)
  lock_then_end_faults fuel later =
      let e = first_lock (suc fuel) in
      (
        e,
        rw e (commit_frees_twice fuel later),
        rw e (rollback_frees_twice fuel later),
        rw e (unlock_frees_twice fuel),
      )

  -- a second lock, before it is linked
  module _ (resource' : ℕ) (type' : LockType) (now' : ℕ) where
    abbrev pub unlinked : Ptr → Lock
    unlinked next = record {
      resource_id = resource';
      type = type';
      transaction_id = t.id;
      acquire_time = now';
      next = next;
    }

    abbrev pub linked : Lock
    linked = record {
      resource_id = resource;
      type = type;
      transaction_id = t.id;
      acquire_time = now;
      next = m.fresh + 1;
    }

    pub second_locked : TransactionManager
    unfolding first_locked new_lock
    second_locked =
        let m₁ = first_locked now m tx t resource type in
        record m₁ {
          cell =
              write (write (write m₁.cell (m.fresh + 1) (some (unlinked 0))) m.fresh (some linked))
                (m.fresh + 1) (some (unlinked (m.fresh + 1)));
          fresh = m.fresh + 1 + 1;
        }

    second_lock :
        (fuel : ℕ)
        → transaction_lock is_none
            (suc (suc (suc fuel)))
            true
            now'
            (first_locked now m tx t resource type)
            (some tx)
            resource'
            type'
          ≡ ok (second_locked, true)
    unfolding transaction_lock get_transaction check_lock_conflict append_own append_global load
        first_locked new_lock last_lock set_next second_locked
    second_lock fuel = ground (arith, retrieved)

    walk_into_loop :
        (fuel resource'' : ℕ) (type'' : LockType)
        → check_lock_conflict is_none fuel second_locked m.fresh resource'' t.id type''
          ≡ out_of_fuel
    unfolding check_lock_conflict load second_locked
    walk_into_loop zero resource'' type'' = refl
    walk_into_loop (suc fuel) resource'' type'' = ground (
      arith,
      own_loop is_none fuel second_locked (m.fresh + 1) (unlinked (m.fresh + 1)) resource'' t.id
          type'',
    )

    third_lock :
        (fuel resource'' : ℕ) (type'' : LockType) (now'' : ℕ) (granted : Bool)
        → transaction_lock is_none fuel granted now'' second_locked (some tx) resource'' type''
          ≡ out_of_fuel
    unfolding transaction_lock get_transaction second_locked first_locked
    third_lock fuel resource'' type'' now'' granted =
        ground (arith, retrieved, walk_into_loop fuel resource'' type'')

    -- An active transaction without locks, in a manager without locks, asks for two locks, and
    -- both times `malloc` succeeds: the two are granted, for every fuel above 2, and the third
    -- request of that transaction does not end. For every fuel the search for a conflict runs out
    -- of it.
    pub third_lock_diverges :
        (fuel fuel' resource'' : ℕ) (type'' : LockType) (now'' : ℕ) (granted : Bool)
        → let two =
            transaction_lock is_none (suc (suc (suc fuel))) true now m (some tx) resource type
            >>= λ r.
                transaction_lock is_none
                  (suc (suc (suc fuel)))
                  true
                  now'
                  r.0
                  (some tx)
                  resource'
                  type' in
          (two ≡ ok (second_locked, true))
          × ((two >>= λ r.
                transaction_lock is_none fuel' granted now'' r.0 (some tx) resource'' type'')
              ≡ out_of_fuel)
    third_lock_diverges fuel fuel' resource'' type'' now'' granted =
        let one = first_lock (suc (suc fuel)) in
        let two = second_lock fuel in
        (rw (one, two), rw (one, two) (third_lock fuel' resource'' type'' now'' granted))
