-- ===== src/Transaction/Examples.antt =====
-- src/transaction/transaction.c at concrete inputs.
use micro_meow_db.Prelude.{◌≡◌, refl, Bool, true, false, none, some, List, [], ◌∷◌, arith, set}
use micro_meow_db.Transaction.{
  Transaction, TransactionManager, active, read_uncommitted, serializable, LockType, shared,
  exclusive, ok, fault, out_of_fuel, ◌>>=◌, load, free, set_next, get_transaction, finish,
  release_locks, unlink_global, transaction_manager_init, transaction_begin, transaction_commit,
  transaction_rollback,
}
use micro_meow_db.Transaction.Locks.{
  check_lock_conflict, last_lock, append_own, append_global, new_lock, transaction_lock,
  unlock_from, transaction_unlock,
}
use micro_meow_db.Transaction.Maintenance.{
  oldest_from, transaction_handle_deadlock, cleanup_from, transaction_cleanup_timeout,
  transaction_log_undo, resized_to_nothing, transaction_log_redo,
}
use micro_meow_db.Transaction.Aliasing.{IsLockFree, lock_then_end_faults, third_lock_diverges}
use micro_meow_db.Transaction.Lifecycle.{IsConsistent}
use micro_meow_db.Transaction.Timeout.{cleanup_timeout-expire}
use micro_meow_db.Transaction.Deadlock.{Handled, handle_deadlock-Handled}
use micro_meow_db.Transaction.Calls.{
  Call, begin, commit, rollback, log_undo, apply, run, AreProper, run-IsConsistent,
  init-IsConsistent,
}

program : Unit {0}
unfolding load free set_next get_transaction finish release_locks unlink_global
    transaction_manager_init transaction_begin transaction_commit transaction_rollback
    check_lock_conflict last_lock append_own append_global new_lock transaction_lock unlock_from
    transaction_unlock oldest_from transaction_handle_deadlock cleanup_from
    transaction_cleanup_timeout resized_to_nothing transaction_log_undo transaction_log_redo apply
    run set
program = tt

abbrev idle : TransactionManager
idle = record {
  cell = λ _. none;
  fresh = 1;
  transactions = [];
  locks = 0;
  next_transaction_id = 1;
  active_transactions = 0;
  max_transactions = 1000;
  initialized = true;
}

idle-IsConsistent : IsConsistent idle
unfolding transaction_manager_init
idle-IsConsistent = init-IsConsistent true none idle refl (omega arith)

abbrev started : Transaction
started = record {
  id = 1;
  state = active;
  isolation = serializable;
  start_time = 100;
  commit_time = 0;
  locks = 0;
  undo_log = none;
  redo_log = none;
}

-- one transaction has begun at time 100
abbrev one : TransactionManager
one = record idle { transactions = started ∷ []; next_transaction_id = 2; active_transactions = 1 }

one_begun : transaction_begin true 100 idle serializable ≡ (one, some 0)
unfolding program
one_begun = refl

one-IsConsistent : IsConsistent one
one-IsConsistent = omega arith

one-IsLockFree : IsLockFree one 0 started
one-IsLockFree = record {
  found = refl;
  active = refl;
  own = refl;
  global = refl;
  room = omega arith;
}

abbrev no_type_is_none : LockType → Bool
no_type_is_none type = false

lock_then_end_faults_example :
    (transaction_lock no_type_is_none 2 true 101 one (some 0) 7 exclusive >>= λ r.
    transaction_commit 2 102 r.0 (some 0))
    ≡ fault
lock_then_end_faults_example =
    (lock_then_end_faults no_type_is_none one 0 started one-IsLockFree 101 7 exclusive 0 102).1

third_lock_diverges_example :
    (transaction_lock no_type_is_none 3 true 101 one (some 0) 7 shared
      >>= (λ r. transaction_lock no_type_is_none 3 true 102 r.0 (some 0) 8 shared)
      >>= (λ r. transaction_lock no_type_is_none 50 true 103 r.0 (some 0) 9 shared))
    ≡ out_of_fuel
third_lock_diverges_example =
    (third_lock_diverges no_type_is_none one 0 started one-IsLockFree 101 7 shared 8 shared 102 0 50
      9 shared 103 true).1

abbrev calls : List Call
calls =
    begin true 200 read_uncommitted
    ∷ commit 201 (some 0)
    ∷ commit 202 (some 0)
    ∷ log_undo true (some 1) (some (7 ∷ []))
    ∷ rollback 203 (some 1)
    ∷ []

calls-AreProper : AreProper 1 calls one
unfolding program
calls-AreProper = (tt, (omega arith, (omega arith, ((omega arith, λ e. cc), (omega arith, tt)))))

run-IsConsistent_example :
    run 1 calls one ≡ ok (run-IsConsistent 0 calls one one-IsConsistent calls-AreProper).0
run-IsConsistent_example = (run-IsConsistent 0 calls one one-IsConsistent calls-AreProper).1

cleanup_timeout-expire_example :
    transaction_cleanup_timeout 1 500 (λ _. 500) one
    ≡ ok
        (cleanup_timeout-expire 0 500
          (λ _. 500)
          one
          one-IsConsistent
          (omega arith)
          (omega arith, tt)).0
cleanup_timeout-expire_example =
    (cleanup_timeout-expire 0 500 (λ _. 500) one one-IsConsistent (omega arith) (omega arith, tt)).1

handle_deadlock-Handled_example :
    Handled 500
      (λ _. 501)
      one
      (handle_deadlock-Handled 0 500 (λ _. 501) one one-IsConsistent (omega arith)).0
handle_deadlock-Handled_example =
    (handle_deadlock-Handled 0 500 (λ _. 501) one one-IsConsistent (omega arith)).2
