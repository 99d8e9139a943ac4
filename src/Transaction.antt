-- ===== src/Transaction.antt =====
-- src/transaction/transaction.c. Locks live at addresses, since the code links one lock into two
-- lists through one `next` field. Transactions are never freed before the manager is: they are a
-- list in the order of their creation, and a `transaction *` is a position in it.
pub mod Locks
pub mod Maintenance
pub mod Aliasing
pub mod Lifecycle
pub mod Changes
pub mod Calls
pub mod Timeout
pub mod Deadlock
mod Examples
use micro_meow_db.Prelude.{
  ℕ, zero, suc, ◌+◌, ◌-◌, ◌*◌, ◌/◌, ◌%◌, ◌^◌, Bool, true, false, ◌&&◌, ◌||◌, not, Option, none,
  some, List, [], ◌∷◌, ◌++◌, Bytes, length, get_elem?, set, ltb, leb, ◌==◌, if◌then◌else◌,
}

pub data TransactionState : Type 0 where
  active committed rolled_back prepared failed : TransactionState

pub data IsolationLevel : Type 0 where
  read_uncommitted read_committed repeatable_read serializable : IsolationLevel

pub data LockType : Type 0 where
  shared exclusive intent_shared intent_exclusive : LockType

-- a pointer to a lock; 0 is `NULL`
abbrev pub Ptr : Type 0
Ptr = ℕ

pub record Lock : Type 0 where
  pub resource_id : ℕ
  pub type : LockType
  pub transaction_id : ℕ
  pub acquire_time : ℕ
  pub next : Ptr

pub record Transaction : Type 0 where
  pub id : ℕ
  pub state : TransactionState
  pub isolation : IsolationLevel
  pub start_time : ℕ
  pub commit_time : ℕ
  pub locks : Ptr
  pub undo_log : Option Bytes
  pub redo_log : Option Bytes

-- `cell` and `fresh` are the part of the heap that holds locks; below `fresh` an address that
-- holds no lock has been freed.
pub record TransactionManager : Type 0 where
  pub cell : Ptr → Option Lock
  pub fresh : Ptr
  pub transactions : List Transaction
  pub locks : Ptr
  pub next_transaction_id : ℕ
  pub active_transactions : ℕ
  pub max_transactions : ℕ
  pub initialized : Bool

-- `fault` is a read or a second `free` of freed memory; a loop that has not ended on its fuel is
-- `out_of_fuel`.
pub data Run {ℓ} (A : Type ℓ) : Type ℓ where
  ok : A → Run A
  fault : Run A
  out_of_fuel : Run A

infixl 5 ◌>>=◌
abbrev pub ◌>>=◌ {ℓ κ} : {A : Type ℓ} {B : Type κ} → Run A → (A → Run B) → Run B
ok a >>= f = f a
fault >>= f = fault
out_of_fuel >>= f = out_of_fuel

unfoldable pub load : TransactionManager → Ptr → Run Lock
load m p = elim (m.cell p) [ none ↦ fault | some l ↦ ok l ]

abbrev pub write : (Ptr → Option Lock) → Ptr → Option Lock → Ptr → Option Lock
write cell p c q = if q == p then c else cell q

unfoldable pub free : TransactionManager → Ptr → Run TransactionManager
unfolding load
free m p = do _ ← load m p; ok (record m { cell = write m.cell p none })

unfoldable pub set_next : TransactionManager → Ptr → Ptr → Run TransactionManager
unfolding load
set_next m p q = do
  l ← load m p
  ok (record m { cell = write m.cell p (some (record l { next = q })) })

-- the transaction that a pointer stands for
unfoldable pub get_transaction : TransactionManager → ℕ → Run Transaction
get_transaction m tx = elim (get_elem? m.transactions tx) [ none ↦ fault | some t ↦ ok t ]

abbrev pub put_transaction : TransactionManager → ℕ → Transaction → TransactionManager
put_transaction m tx t = record m { transactions = set m.transactions tx t }

abbrev pub is_active : TransactionState → Bool
is_active active = true
is_active _ = false

abbrev pub is_prepared : TransactionState → Bool
is_prepared prepared = true
is_prepared _ = false

pub record TransactionConfig : Type 0 where
  pub default_isolation : IsolationLevel
  pub max_transactions : ℕ
  pub transaction_timeout : ℕ
  pub enable_undo_log : Bool
  pub enable_redo_log : Bool

abbrev pub default_transaction_config : TransactionConfig
default_transaction_config = record {
  default_isolation = repeatable_read;
  max_transactions = 1000;
  transaction_timeout = 300000;
  enable_undo_log = true;
  enable_redo_log = true;
}

-- `granted` is the answer of `malloc`.
unfoldable pub transaction_manager_init :
    Bool → Option TransactionConfig → Option TransactionManager
transaction_manager_init granted config =
    if granted
    then some (record {
      cell = λ _. none;
      fresh = 1;
      transactions = [];
      locks = 0;
      next_transaction_id = 1;
      active_transactions = 0;
      max_transactions = elim config [
        | none ↦ default_transaction_config.max_transactions
        | some c ↦ c.max_transactions
      ];
      initialized = true;
    })
    else none

-- `isolation != 0 ? isolation : default`
abbrev pub chosen_isolation : IsolationLevel → IsolationLevel
chosen_isolation read_uncommitted = default_transaction_config.default_isolation
chosen_isolation level = level

-- The pointer that is returned is the position of the new transaction.
unfoldable pub transaction_begin :
    Bool → ℕ → TransactionManager → IsolationLevel → TransactionManager × Option ℕ
transaction_begin granted now m isolation =
    if not m.initialized || leb m.max_transactions m.active_transactions || not granted
    then (m, none)
    else (
      record m {
        transactions =
            m.transactions
            ++ record {
              id = m.next_transaction_id;
              state = active;
              isolation = chosen_isolation isolation;
              start_time = now;
              commit_time = 0;
              locks = 0;
              undo_log = none;
              redo_log = none;
            }
              ∷ [];
        next_transaction_id = (m.next_transaction_id + 1) % 2 ^ 32;
        active_transactions = (m.active_transactions + 1) % 2 ^ 32;
      },
      some (length m.transactions),
    )

-- The search for a lock of transaction `id` on `resource` in the global list, from `current` with
-- `prev` behind it; the lock is unlinked and freed.
unfoldable pub unlink_global : ℕ → TransactionManager → Ptr → Ptr → ℕ → ℕ → Run TransactionManager
unlink_global zero m prev current id resource = out_of_fuel
unlink_global (suc fuel) m prev current id resource = elim (current == 0) [
  | true ↦ ok m
  | false ↦ do
    g ← load m current
    elim (g.transaction_id == id && g.resource_id == resource) [
      | true ↦ do
        m' ← if prev == 0 then ok (record m { locks = g.next }) else set_next m prev g.next
        free m' current
      | false ↦ unlink_global fuel m current g.next id resource
    ]
]

-- the loop of `transaction_commit` and `transaction_rollback` over the locks of a transaction
unfoldable pub release_locks : ℕ → TransactionManager → Ptr → ℕ → Run TransactionManager
release_locks zero m current id = out_of_fuel
release_locks (suc fuel) m current id = elim (current == 0) [
  | true ↦ ok m
  | false ↦ do
    l ← load m current
    m₁ ← unlink_global fuel m 0 m.locks id l.resource_id
    m₂ ← free m₁ current
    release_locks fuel m₂ l.next id
]

-- what both ends of a transaction do behind their guards
unfoldable pub finish :
    ℕ
    → ℕ
    → TransactionManager
    → ℕ
    → Transaction
    → TransactionState
    → Run (TransactionManager × Bool)
finish fuel now m tx t state = do
  m' ← release_locks fuel m t.locks t.id
  ok (
    record (put_transaction m' tx (record t {
      locks = 0;
      undo_log = none;
      redo_log = none;
      state = state;
      commit_time = now;
    })) { active_transactions = (m'.active_transactions + 2 ^ 32 - 1) % 2 ^ 32 },
    true,
  )

unfoldable pub transaction_commit :
    ℕ → ℕ → TransactionManager → Option ℕ → Run (TransactionManager × Bool)
transaction_commit fuel now m none = ok (m, false)
transaction_commit fuel now m (some tx) = do
  t ← get_transaction m tx
  if is_active t.state then finish fuel now m tx t committed else ok (m, false)

unfoldable pub transaction_rollback :
    ℕ → ℕ → TransactionManager → Option ℕ → Run (TransactionManager × Bool)
transaction_rollback fuel now m none = ok (m, false)
transaction_rollback fuel now m (some tx) = do
  t ← get_transaction m tx
  if is_active t.state || is_prepared t.state
      then finish fuel now m tx t rolled_back
      else ok (m, false)
