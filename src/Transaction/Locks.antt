-- ===== src/Transaction/Locks.antt =====
-- src/transaction/transaction.c: taking and giving back locks.
use micro_meow_db.Prelude.{
  ℕ, zero, suc, Bool, true, false, ◌&&◌, ◌||◌, not, Option, none, some, ◌+◌, ◌==◌, if◌then◌else◌,
}
use micro_meow_db.Transaction.{
  LockType, shared, exclusive, Ptr, Transaction, TransactionManager, Run, ok, out_of_fuel, ◌>>=◌,
  load, free, set_next, write, get_transaction, put_transaction, is_active, unlink_global,
}

abbrev is_exclusive : LockType → Bool
is_exclusive exclusive = true
is_exclusive _ = false

abbrev is_shared : LockType → Bool
is_shared shared = true
is_shared _ = false

-- `LOCK_TYPE_NONE` is declared nowhere: whether a type equals it is the argument `is_none`.
abbrev pub conflicts : (LockType → Bool) → LockType → LockType → Bool
conflicts is_none type held =
    is_exclusive type && not (is_none held) || is_shared type && is_exclusive held

unfoldable pub check_lock_conflict :
    (LockType → Bool) → ℕ → TransactionManager → Ptr → ℕ → ℕ → LockType → Run Bool
check_lock_conflict is_none zero m current resource id type = out_of_fuel
check_lock_conflict is_none (suc fuel) m current resource id type = elim (current == 0) [
  | true ↦ ok false
  | false ↦ do
    l ← load m current
    elim (l.resource_id == resource
        && not (l.transaction_id == id)
        && conflicts is_none type l.type) [
          | true ↦ ok true
          | false ↦ check_lock_conflict is_none fuel m l.next resource id type
        ]
]

-- `while (current->next) current = current->next;`
unfoldable pub last_lock : ℕ → TransactionManager → Ptr → Run Ptr
last_lock zero m current = out_of_fuel
last_lock (suc fuel) m current = do
  l ← load m current
  elim (l.next == 0) [ true ↦ ok current | false ↦ last_lock fuel m l.next ]

-- The lock goes to the end of the transaction's list, or is its first.
unfoldable pub append_own : ℕ → TransactionManager → ℕ → Transaction → Ptr → Run TransactionManager
append_own fuel m tx t p = elim (t.locks == 0) [
  | true ↦ ok (put_transaction m tx (record t { locks = p }))
  | false ↦ do last ← last_lock fuel m t.locks; set_next m last p
]

-- The same lock goes to the end of the global list, through the same `next`.
unfoldable pub append_global : ℕ → TransactionManager → Ptr → Run TransactionManager
append_global fuel m p = elim (m.locks == 0) [
  | true ↦ ok (record m { locks = p })
  | false ↦ do last ← last_lock fuel m m.locks; set_next m last p
]

-- `malloc` and the fields of the new lock
unfoldable pub new_lock : ℕ → TransactionManager → ℕ → ℕ → LockType → TransactionManager
new_lock now m id resource type = record m {
  cell = write m.cell m.fresh (
      some (record {
        resource_id = resource;
        type = type;
        transaction_id = id;
        acquire_time = now;
        next = 0;
      }));
  fresh = m.fresh + 1;
}

unfoldable pub transaction_lock :
    (LockType → Bool)
    → ℕ
    → Bool
    → ℕ
    → TransactionManager
    → Option ℕ
    → ℕ
    → LockType
    → Run (TransactionManager × Bool)
transaction_lock is_none fuel granted now m none resource type = ok (m, false)
transaction_lock is_none fuel granted now m (some tx) resource type = do
  t ← get_transaction m tx
  elim (is_active t.state) [
    | false ↦ ok (m, false)
    | true ↦ do
      conflict ← check_lock_conflict is_none fuel m m.locks resource t.id type
      elim (conflict || not granted) [
        | true ↦ ok (m, false)
        | false ↦ do
          m₁ ← append_own fuel (new_lock now m t.id resource type) tx t m.fresh
          m₂ ← append_global fuel m₁ m.fresh
          ok (m₂, true)
      ]
  ]

-- The search in the transaction's own list, from `current` with `prev` behind it. A lock on the
-- resource is unlinked there and in the global list, which frees it, and is freed.
unfoldable pub unlock_from :
    ℕ → TransactionManager → ℕ → Transaction → Ptr → Ptr → ℕ → Run (TransactionManager × Bool)
unlock_from zero m tx t prev current resource = out_of_fuel
unlock_from (suc fuel) m tx t prev current resource = elim (current == 0) [
  | true ↦ ok (m, false)
  | false ↦ do
    l ← load m current
    elim (l.resource_id == resource) [
      | true ↦ do
        m₁ ←
            if prev == 0
            then ok (put_transaction m tx (record t { locks = l.next }))
            else set_next m prev l.next
        m₂ ← unlink_global fuel m₁ 0 m₁.locks t.id resource
        m₃ ← free m₂ current
        ok (m₃, true)
      | false ↦ unlock_from fuel m tx t current l.next resource
    ]
]

unfoldable pub transaction_unlock :
    ℕ → TransactionManager → Option ℕ → ℕ → Run (TransactionManager × Bool)
transaction_unlock fuel m none resource = ok (m, false)
transaction_unlock fuel m (some tx) resource = do
  t ← get_transaction m tx
  unlock_from fuel m tx t 0 t.locks resource
