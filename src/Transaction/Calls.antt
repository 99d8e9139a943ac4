-- ===== src/Transaction/Calls.antt =====
-- Sequences of calls of src/transaction/transaction.c that take no lock.
use micro_meow_db.Prelude.{
  ℕ, zero, suc, ◌+◌, ◌^◌, ◌<◌, ◌≡◌, ◌≢◌, refl, Bool, false, Option, none, some, List, [], ◌∷◌,
  arith, Bytes, get_elem?, length, Bool-cases, inl, inr,
}
use micro_meow_db.Transaction.{
  Transaction, TransactionManager, Run, ok, ◌>>=◌, IsolationLevel, committed, rolled_back,
  get_transaction, put_transaction, transaction_begin, transaction_commit, transaction_rollback,
  transaction_manager_init, TransactionConfig,
}
use micro_meow_db.Transaction.Maintenance.{
  transaction_handle_deadlock, transaction_cleanup_timeout, transaction_log_undo,
  transaction_log_redo, resized_to_nothing,
}
use micro_meow_db.Transaction.Lifecycle.{
  is_live, IsConsistent, begin_refused, commit_cases, rollback_cases,
}
use micro_meow_db.Transaction.Changes.{
  Changes, here, next, begins, ends, logs, trans, Changes-IsConsistent, Changes-EndedAs, EndedAs,
}
use micro_meow_db.Transaction.Timeout.{cleanup_timeout-Changes}
use micro_meow_db.Transaction.Deadlock.{handle_deadlock-Handled, Handled-Changes}

-- A call, with the answers that it gets from `malloc` and `time`.
pub data Call : Type 0 where
  begin : Bool → ℕ → IsolationLevel → Call
  commit rollback : ℕ → Option ℕ → Call
  handle_deadlock : (now : ℕ) → now + 1 < 2 ^ 64 → (ℕ → ℕ) → Call
  cleanup_timeout : ℕ → (ℕ → ℕ) → Call
  log_undo log_redo : Bool → Option ℕ → Option Bytes → Call

unfoldable pub apply : ℕ → Call → TransactionManager → Run TransactionManager
apply fuel (begin granted now level) m = ok (transaction_begin granted now m level).0
apply fuel (commit now tx) m = transaction_commit fuel now m tx >>= λ r. ok r.0
apply fuel (rollback now tx) m = transaction_rollback fuel now m tx >>= λ r. ok r.0
apply fuel (handle_deadlock now lt clock) m =
    transaction_handle_deadlock fuel now clock m >>= λ r. ok r.0
apply fuel (cleanup_timeout now clock) m =
    transaction_cleanup_timeout fuel now clock m >>= λ r. ok r.0
apply fuel (log_undo granted tx bytes) m = transaction_log_undo granted m tx bytes >>= λ r. ok r.0
apply fuel (log_redo granted tx bytes) m = transaction_log_redo granted m tx bytes >>= λ r. ok r.0

unfoldable pub run : ℕ → List Call → TransactionManager → Run TransactionManager
run fuel [] m = ok m
run fuel (c ∷ cs) m = apply fuel c m >>= run fuel cs

-- The pointer is `NULL` or one that an earlier begin returned.
abbrev pub IsPointer : TransactionManager → Option ℕ → Type 0
IsPointer m none = Unit {0}
IsPointer m (some tx) = tx < length m.transactions

-- The record is `NULL` or has a byte.
abbrev pub HasBytes : Option Bytes → Type 0
HasBytes none = Unit {0}
HasBytes (some bytes) = bytes ≢ []

abbrev pub IsProper : Call → TransactionManager → Type 0
IsProper (begin granted now level) m = Unit {0}
IsProper (commit now tx) m = IsPointer m tx
IsProper (rollback now tx) m = IsPointer m tx
IsProper (handle_deadlock now lt clock) m = Unit {0}
IsProper (cleanup_timeout now clock) m = Unit {0}
IsProper (log_undo granted tx bytes) m = IsPointer m tx × HasBytes bytes
IsProper (log_redo granted tx bytes) m = IsPointer m tx × HasBytes bytes

abbrev AfterRun : (TransactionManager → Type 0) → Run TransactionManager → Type 0
AfterRun P (ok m) = P m
AfterRun P _ = Unit {0}

-- Every call of the sequence is given proper pointers.
abbrev pub AreProper : ℕ → List Call → TransactionManager → Type 0
AreProper fuel [] m = Unit {0}
AreProper fuel (c ∷ cs) m = IsProper c m × AfterRun (AreProper fuel cs) (apply fuel c m)

get_elem?-exists :
    (ts : List Transaction) (i : ℕ) → i < length ts → (t : Transaction) × (get_elem? ts i ≡ some t)
get_elem?-exists [] i h = absurd (omega arith)
get_elem?-exists (t ∷ ts) zero h = (t, refl)
get_elem?-exists (t ∷ ts) (suc i) h = get_elem?-exists ts i (omega arith)

-- The call ends without a fault, in changes of the three kinds.
abbrev Proceeds : ℕ → Call → TransactionManager → Type 0
Proceeds fuel c m = (m' : TransactionManager) × (apply (suc fuel) c m ≡ ok m') × Changes m m'

begin-Changes :
    (granted : Bool) (now : ℕ) (level : IsolationLevel) (m : TransactionManager)
    → Changes m (transaction_begin granted now m level).0
unfolding transaction_begin
begin-Changes granted now level m = elim (Bool-cases (begin_refused granted m)) [
  | inl e ↦ rw (e, transaction_begin) here
  | inr e ↦ rw (e, transaction_begin) (next here (begins granted now level e refl))
]

commit-Proceeds :
    (fuel now tx : ℕ) (m : TransactionManager)
    → IsConsistent m
    → tx < length m.transactions
    → Proceeds fuel (commit now (some tx)) m
unfolding apply
commit-Proceeds fuel now tx m c h =
    let (t, g) = get_elem?-exists m.transactions tx h in
    let (r, run, s) =
      commit_cases (λ r. Changes m r.0) fuel now m tx t c g (λ _. here)
        (λ a. next here (ends now tx t committed g (ground arith) refl refl)) in
    (r.0, rw run refl, s)

rollback-Proceeds :
    (fuel now tx : ℕ) (m : TransactionManager)
    → IsConsistent m
    → tx < length m.transactions
    → Proceeds fuel (rollback now (some tx)) m
unfolding apply
rollback-Proceeds fuel now tx m c h =
    let (t, g) = get_elem?-exists m.transactions tx h in
    let (r, run, s) =
      rollback_cases (λ r. Changes m r.0) fuel now m tx t c g (λ _. here)
        (λ a. next here (ends now tx t rolled_back g a refl refl)) in
    (r.0, rw run refl, s)

kept_or_resized :
    (log : Option Bytes) (bytes : Bytes) → bytes ≢ [] → resized_to_nothing log bytes ≡ false
unfolding resized_to_nothing
kept_or_resized none bytes h = refl
kept_or_resized (some log) [] h = absurd (h refl)
kept_or_resized (some log) (c ∷ cs) h = refl

log_undo-Proceeds :
    (fuel : ℕ) (granted : Bool) (tx : ℕ) (bytes : Bytes) (m : TransactionManager)
    → tx < length m.transactions
    → bytes ≢ []
    → Proceeds fuel (log_undo granted (some tx) (some bytes)) m
unfolding apply transaction_log_undo get_transaction
log_undo-Proceeds fuel granted tx bytes m h some_bytes =
    let (t, g) = get_elem?-exists m.transactions tx h in
    let t' : Transaction = record t { undo_log = some bytes } in
    let kept = kept_or_resized t.undo_log bytes some_bytes in
    elim (Bool-cases granted) [
      | inl e ↦ (
        put_transaction m tx t',
        ground arith,
        next here (
            logs tx t t' g (record { id = refl; state = refl; commit_time = refl; locks = refl })
              refl),
      )
      | inr e ↦ (m, ground arith, here)
    ]

log_redo-Proceeds :
    (fuel : ℕ) (granted : Bool) (tx : ℕ) (bytes : Bytes) (m : TransactionManager)
    → tx < length m.transactions
    → bytes ≢ []
    → Proceeds fuel (log_redo granted (some tx) (some bytes)) m
unfolding apply transaction_log_redo get_transaction
log_redo-Proceeds fuel granted tx bytes m h some_bytes =
    let (t, g) = get_elem?-exists m.transactions tx h in
    let t' : Transaction = record t { redo_log = some bytes } in
    let kept = kept_or_resized t.redo_log bytes some_bytes in
    elim (Bool-cases granted) [
      | inl e ↦ (
        put_transaction m tx t',
        ground arith,
        next here (
            logs tx t t' g (record { id = refl; state = refl; commit_time = refl; locks = refl })
              refl),
      )
      | inr e ↦ (m, ground arith, here)
    ]

apply-Proceeds :
    (fuel : ℕ) (c : Call) (m : TransactionManager)
    → IsConsistent m
    → IsProper c m
    → Proceeds fuel c m
unfolding apply transaction_log_undo transaction_log_redo transaction_commit transaction_rollback
apply-Proceeds fuel (begin granted now level) m c p = (_, refl, begin-Changes granted now level m)
apply-Proceeds fuel (commit now none) m c p = (m, refl, here)
apply-Proceeds fuel (commit now (some tx)) m c p = commit-Proceeds fuel now tx m c p
apply-Proceeds fuel (rollback now none) m c p = (m, refl, here)
apply-Proceeds fuel (rollback now (some tx)) m c p = rollback-Proceeds fuel now tx m c p
apply-Proceeds fuel (handle_deadlock now lt clock) m c p =
    let (r, run, s) = handle_deadlock-Handled fuel now clock m c lt in
    (r.0, rw run refl, Handled-Changes s)
apply-Proceeds fuel (cleanup_timeout now clock) m c p =
    let (r, run, s) = cleanup_timeout-Changes fuel now clock m c in (r.0, rw run refl, s)
apply-Proceeds fuel (log_undo granted none bytes) m c p = (m, refl, here)
apply-Proceeds fuel (log_undo granted (some tx) none) m c p = (m, refl, here)
apply-Proceeds fuel (log_undo granted (some tx) (some bytes)) m c p =
    log_undo-Proceeds fuel granted tx bytes m p.0 p.1
apply-Proceeds fuel (log_redo granted none bytes) m c p = (m, refl, here)
apply-Proceeds fuel (log_redo granted (some tx) none) m c p = (m, refl, here)
apply-Proceeds fuel (log_redo granted (some tx) (some bytes)) m c p =
    log_redo-Proceeds fuel granted tx bytes m p.0 p.1

run-Changes :
    (fuel : ℕ) (cs : List Call) (m : TransactionManager)
    → IsConsistent m
    → AreProper (suc fuel) cs m
    → (m' : TransactionManager) × (run (suc fuel) cs m ≡ ok m') × Changes m m'
unfolding run
run-Changes fuel [] m c p = (m, refl, here)
run-Changes fuel (k ∷ cs) m c p =
    let (m₁, e, s) = apply-Proceeds fuel k m c p.0 in
    let (m', e', s') = run-Changes fuel cs m₁ (Changes-IsConsistent s c) (rw e at p.1) in
    (m', rw e e', trans s s')

-- A sequence of calls on a consistent manager that take no lock, each with `NULL` or a pointer
-- from an earlier begin, and with log records that are `NULL` or not empty, ends without a fault
-- for every positive fuel. The counter of active transactions then is the number of live ones and
-- at most the limit, the identifiers are consecutive, and a transaction that had ended keeps its
-- identifier, its state and the time of its end.
pub run-IsConsistent :
    (fuel : ℕ) (cs : List Call) (m : TransactionManager)
    → IsConsistent m
    → AreProper (suc fuel) cs m
    → (m' : TransactionManager) × (run (suc fuel) cs m ≡ ok m')
      × IsConsistent m'
      × ((tx : ℕ) (t : Transaction)
          → get_elem? m.transactions tx ≡ some t
          → is_live t ≡ false
          → EndedAs tx t m')
run-IsConsistent fuel cs m c p =
    let (m', e, s) = run-Changes fuel cs m c p in
    (
      m',
      e,
      Changes-IsConsistent s c,
      λ tx t g dead. Changes-EndedAs tx t s dead (t, g, refl, refl, refl),
    )

-- A new manager is consistent.
pub init-IsConsistent :
    (granted : Bool) (config : Option TransactionConfig) (m : TransactionManager)
    → transaction_manager_init granted config ≡ some m
    → m.max_transactions < 2 ^ 32
    → IsConsistent m
unfolding transaction_manager_init
init-IsConsistent granted config m e h = ground arith
