-- ===== src/Transaction/Maintenance.antt =====
-- src/transaction/transaction.c: deadlocks, timeouts, logs and queries. The answer of the
-- `time` call of a rollback is `clock i` for the transaction at position i.
use micro_meow_db.Prelude.{
  ℕ, zero, suc, ◌+◌, ◌-◌, ◌/◌, ◌%◌, ◌^◌, Bool, true, false, ◌&&◌, Option, none, some, List, [], ◌∷◌,
  Bytes, length, ltb, if◌then◌else◌,
}
use micro_meow_db.Transaction.{
  Transaction, TransactionState, failed, IsolationLevel, read_committed, TransactionManager, Run,
  ok, fault, ◌>>=◌, default_transaction_config, get_transaction, put_transaction, is_active,
  transaction_rollback,
}

abbrev pub u64 : ℕ → ℕ
u64 x = x % 2 ^ 64

unfoldable pub transaction_get_state : TransactionManager → Option ℕ → Run TransactionState
transaction_get_state m none = ok failed
transaction_get_state m (some tx) = do t ← get_transaction m tx; ok t.state

unfoldable pub transaction_get_isolation : TransactionManager → Option ℕ → Run IsolationLevel
transaction_get_isolation m none = ok read_committed
transaction_get_isolation m (some tx) = do t ← get_transaction m tx; ok t.isolation

unfoldable pub transaction_get_active_count : TransactionManager → ℕ
transaction_get_active_count m = m.active_transactions

-- the stub `detect_deadlock`
unfoldable pub transaction_check_deadlock : TransactionManager → Bool
transaction_check_deadlock m = false

-- the search for the oldest active transaction, at position i, with the best one so far
unfoldable pub oldest_from : ℕ → List Transaction → ℕ → Option ℕ → Option ℕ
oldest_from i [] oldest_time oldest = oldest
oldest_from i (t ∷ ts) oldest_time oldest =
    let better = is_active t.state && ltb t.start_time oldest_time in
    oldest_from (i + 1) ts (if better then t.start_time else oldest_time)
      (if better then some i else oldest)

unfoldable pub transaction_handle_deadlock :
    ℕ → ℕ → (ℕ → ℕ) → TransactionManager → Run (TransactionManager × Bool)
transaction_handle_deadlock fuel now clock m =
    elim (oldest_from 0 m.transactions (u64 (now + 1)) none) [
      | none ↦ ok (m, false)
      | some tx ↦ transaction_rollback fuel (clock tx) m (some tx)
    ]

-- a stub
unfoldable pub transaction_set_timeout : Option ℕ → ℕ → Bool
transaction_set_timeout tx timeout_ms = true

-- `(now - current->start_time) > default_transaction_config.transaction_timeout / 1000`
abbrev pub timed_out : ℕ → Transaction → Bool
timed_out now t =
    is_active t.state
    && ltb (default_transaction_config.transaction_timeout / 1000)
        (u64 (now + 2 ^ 64 - t.start_time))

-- the loop at position i, with `left` transactions to go
unfoldable pub cleanup_from :
    ℕ → ℕ → (ℕ → ℕ) → ℕ → ℕ → TransactionManager → Bool → Run (TransactionManager × Bool)
cleanup_from fuel now clock zero i m cleaned = ok (m, cleaned)
cleanup_from fuel now clock (suc left) i m cleaned = do
  t ← get_transaction m i
  elim (timed_out now t) [
    | true ↦ do
      r ← transaction_rollback fuel (clock i) m (some i)
      cleanup_from fuel now clock left (i + 1) r.0 true
    | false ↦ cleanup_from fuel now clock left (i + 1) m cleaned
  ]

unfoldable pub transaction_cleanup_timeout :
    ℕ → ℕ → (ℕ → ℕ) → TransactionManager → Run (TransactionManager × Bool)
transaction_cleanup_timeout fuel now clock m =
    cleanup_from fuel now clock (length m.transactions) 0 m false

-- A log that is there would be resized to no bytes. C leaves to the library what `realloc` does then:
-- it may free the log and return `NULL`, so that the pointer that is kept is freed once more.
unfoldable pub resized_to_nothing : Option Bytes → Bytes → Bool
resized_to_nothing none record' = false
resized_to_nothing (some log) [] = true
resized_to_nothing (some log) (c ∷ cs) = false

-- A log is one buffer: a new record replaces the old one. `granted` is the allocator's answer. A log
-- that is resized to no bytes is a fault.
unfoldable pub transaction_log_undo :
    Bool → TransactionManager → Option ℕ → Option Bytes → Run (TransactionManager × Bool)
transaction_log_undo granted m none record' = ok (m, false)
transaction_log_undo granted m (some tx) none = ok (m, false)
transaction_log_undo granted m (some tx) (some record') = do
  t ← get_transaction m tx
  if resized_to_nothing t.undo_log record'
      then fault
      else ok (
          if granted
          then (put_transaction m tx (record t { undo_log = some record' }), true)
          else (m, false))

unfoldable pub transaction_log_redo :
    Bool → TransactionManager → Option ℕ → Option Bytes → Run (TransactionManager × Bool)
transaction_log_redo granted m none record' = ok (m, false)
transaction_log_redo granted m (some tx) none = ok (m, false)
transaction_log_redo granted m (some tx) (some record') = do
  t ← get_transaction m tx
  if resized_to_nothing t.redo_log record'
      then fault
      else ok (
          if granted
          then (put_transaction m tx (record t { redo_log = some record' }), true)
          else (m, false))
