-- ===== src/Transaction/Timeout.antt =====
-- `transaction_cleanup_timeout` and `transaction_handle_deadlock` of
-- src/transaction/transaction.c, against plain functions on the list of transactions.
use mathlib.Core.List.{append_assoc}
use micro_meow_db.Prelude.{
  ℕ, suc, ◌+◌, ◌^◌, ◌<◌, ◌≡◌, refl, ap, ◌∙◌, Bool, true, false, ◌&&◌, ◌||◌, All, ltb, none, some,
  List, [], ◌∷◌, ◌++◌, arith, get_elem?, length-append, length, set, if◌then◌else◌, Bool-cases, inl,
  inr,
}
use micro_meow_db.Transaction.{
  Transaction, TransactionManager, ok, rolled_back, is_active, get_transaction,
  transaction_rollback,
}
use micro_meow_db.Transaction.Maintenance.{timed_out, cleanup_from, transaction_cleanup_timeout}
use micro_meow_db.Transaction.Lifecycle.{IsConsistent, ended, rollback_cases}
use micro_meow_db.Transaction.Changes.{
  Changes, here, next, Change, ends, trans, Changes-IsConsistent,
}

get_elem?-middle :
    (pre : List Transaction) (t : Transaction) (ts : List Transaction)
    → get_elem? (pre ++ t ∷ ts) (length pre) ≡ some t
get_elem?-middle [] t ts = refl
get_elem?-middle (p ∷ pre) t ts = get_elem?-middle pre t ts

set-middle :
    (pre : List Transaction) (t t' : Transaction) (ts : List Transaction)
    → set (pre ++ t ∷ ts) (length pre) t' ≡ pre ++ t' ∷ ts
unfolding set
set-middle [] t t' ts = refl
set-middle (p ∷ pre) t t' ts = ap (◌∷◌ p) (set-middle pre t t' ts)

-- a transaction after its rollback at a time
abbrev pub rolled : ℕ → Transaction → Transaction
rolled time t = record t {
  locks = 0;
  undo_log = none;
  redo_log = none;
  state = rolled_back;
  commit_time = time;
}

-- what the loop makes of the transactions from position i on
abbrev expire_timed_out : ℕ → (ℕ → ℕ) → ℕ → List Transaction → List Transaction
expire_timed_out now clock i [] = []
expire_timed_out now clock i (t ∷ ts) =
    (if timed_out now t then rolled (clock i) t else t) ∷ expire_timed_out now clock (i + 1) ts

abbrev any_timed_out : ℕ → List Transaction → Bool
any_timed_out now [] = false
any_timed_out now (t ∷ ts) = timed_out now t || any_timed_out now ts

pub rollback_active :
    (fuel now : ℕ) (m : TransactionManager) (tx : ℕ) (t : Transaction)
    → IsConsistent m
    → get_elem? m.transactions tx ≡ some t
    → is_active t.state ≡ true
    → transaction_rollback (suc fuel) now m (some tx) ≡ ok (ended now m tx t rolled_back, true)
rollback_active fuel now m tx t c g h =
    let (r, run, e) =
      rollback_cases (λ r. r ≡ (ended now m tx t rolled_back, true)) fuel now m tx t c g
        (λ dead. ground arith) (λ _. refl) in
    run ∙ ap ok e

expire-snoc :
    (now : ℕ) (clock : ℕ → ℕ) (i : ℕ) (pre : List Transaction) (t t' : Transaction)
    (ts : List Transaction)
    → t' ≡ (if timed_out now t then rolled (clock i) t else t)
    → (pre ++ t' ∷ []) ++ expire_timed_out now clock (i + 1) ts
      ≡ pre ++ expire_timed_out now clock i (t ∷ ts)
expire-snoc now clock i pre t t' ts h =
    append_assoc pre (t' ∷ []) (expire_timed_out now clock (i + 1) ts)
    ∙ ap (λ u. pre ++ u ∷ expire_timed_out now clock (i + 1) ts) h

record Cleaned (now : ℕ) (clock : ℕ → ℕ) (i : ℕ) (m : TransactionManager)
    (pre ts : List Transaction) (cleaned : Bool) (r : TransactionManager × Bool) : Type 0 where
  changes : Changes m r.0
  transactions : r.0.transactions ≡ pre ++ expire_timed_out now clock i ts
  flag : r.1 ≡ (cleaned || any_timed_out now ts)

cleanup_from-Cleaned :
    (fuel now : ℕ) (clock : ℕ → ℕ) (ts : List Transaction) (i : ℕ) (m : TransactionManager)
    (pre : List Transaction) (cleaned : Bool)
    → IsConsistent m
    → m.transactions ≡ pre ++ ts
    → length pre ≡ i
    → (r : TransactionManager × Bool) × (cleanup_from (suc fuel) now clock (length ts) i m cleaned
        ≡ ok r)
      × Cleaned now clock i m pre ts cleaned r
unfolding cleanup_from get_transaction
cleanup_from-Cleaned fuel now clock [] i m pre cleaned c e n =
    ((m, cleaned), refl, record { changes = here; transactions = e; flag = ground arith })
cleanup_from-Cleaned fuel now clock (t ∷ ts) i m pre cleaned c e n =
    let g : get_elem? m.transactions i ≡ some t = rw (e, ← n) (get_elem?-middle pre t ts) in
    elim (Bool-cases (timed_out now t)) [
      | inl out ↦
          let m₁ = ended (clock i) m i t rolled_back in
          let step : Change m m₁ = ends (clock i) i t rolled_back g (ground arith) refl refl in
          let e₁ : m₁.transactions ≡ (pre ++ rolled (clock i) t ∷ []) ++ ts =
            rw (e, ← n, append_assoc) (set-middle pre t (rolled (clock (length pre)) t) ts) in
          let (r, run, d) =
            cleanup_from-Cleaned fuel now clock ts (i + 1) m₁ (pre ++ rolled (clock i) t ∷ []) true
              (Changes-IsConsistent (next here step) c) e₁
              (omega (arith, length-append pre (rolled (clock i) t ∷ []))) in
          (
            r,
            ground (arith, g, run, rollback_active fuel (clock i) m i t c g),
            record {
              changes = trans (next here step) d.changes;
              transactions =
                  d.transactions ∙ expire-snoc now clock i pre t (rolled (clock i) t) ts (rw out);
              flag = ground (arith, d.flag);
            },
          )
      | inr kept ↦
          let (r, run, d) =
            cleanup_from-Cleaned fuel now clock ts (i + 1) m (pre ++ t ∷ []) cleaned c
              (rw (e, append_assoc)) (omega (arith, length-append pre (t ∷ []))) in
          (
            r,
            ground (arith, g, run),
            record {
              changes = d.changes;
              transactions = d.transactions ∙ expire-snoc now clock i pre t t ts (rw kept);
              flag = ground (arith, d.flag);
            },
          )
    ]

-- An active transaction that started more than 300 seconds before a time, or after it.
abbrev pub overdue : ℕ → Transaction → Bool
overdue now t = is_active t.state && (ltb (t.start_time + 300) now || ltb now t.start_time)

-- Every transaction from position i on that is overdue is rolled back; the others stay.
abbrev pub expire : ℕ → (ℕ → ℕ) → ℕ → List Transaction → List Transaction
expire now clock i [] = []
expire now clock i (t ∷ ts) =
    (if overdue now t then rolled (clock i) t else t) ∷ expire now clock (i + 1) ts

abbrev pub any_overdue : ℕ → List Transaction → Bool
any_overdue now [] = false
any_overdue now (t ∷ ts) = overdue now t || any_overdue now ts

-- The subtraction in 64 bits tells what is overdue.
timed_out-overdue :
    (now : ℕ) (t : Transaction)
    → now < 2 ^ 64
    → t.start_time + 300 < 2 ^ 64
    → timed_out now t ≡ overdue now t
timed_out-overdue now t h k = ground arith

expire-overdue :
    (now : ℕ) (clock : ℕ → ℕ) (i : ℕ) (ts : List Transaction)
    → now < 2 ^ 64
    → All (λ t. t.start_time + 300 < 2 ^ 64) ts
    → expire_timed_out now clock i ts ≡ expire now clock i ts
expire-overdue now clock i [] h k = refl
expire-overdue now clock i (t ∷ ts) h k =
    rw (timed_out-overdue now t h k.0, expire-overdue now clock (i + 1) ts h k.1) refl

any_timed_out-overdue :
    (now : ℕ) (ts : List Transaction)
    → now < 2 ^ 64
    → All (λ t. t.start_time + 300 < 2 ^ 64) ts
    → any_timed_out now ts ≡ any_overdue now ts
any_timed_out-overdue now [] h k = refl
any_timed_out-overdue now (t ∷ ts) h k =
    rw (timed_out-overdue now t h k.0, any_timed_out-overdue now ts h k.1) refl

-- The cleanup of a consistent manager, which has no locks, ends without a fault for every positive
-- fuel, where `now` and the times of the starts, with 300 added, are below 2 ^ 64. It rolls back
-- exactly the active transactions that started more than 300 seconds before `now`, or after `now`,
-- leaves the others as they were, keeps the manager consistent, and reports whether there were
-- any.
pub cleanup_timeout-expire :
    (fuel now : ℕ) (clock : ℕ → ℕ) (m : TransactionManager)
    → IsConsistent m
    → now < 2 ^ 64
    → All (λ t. t.start_time + 300 < 2 ^ 64) m.transactions
    → (r : TransactionManager × Bool) × (transaction_cleanup_timeout (suc fuel) now clock m ≡ ok r)
      × IsConsistent r.0
      × (r.0.transactions ≡ expire now clock 0 m.transactions)
      × (r.1 ≡ any_overdue now m.transactions)
unfolding transaction_cleanup_timeout
cleanup_timeout-expire fuel now clock m c h k =
    let (r, run, d) = cleanup_from-Cleaned fuel now clock m.transactions 0 m [] false c refl refl in
    (
      r,
      run,
      Changes-IsConsistent d.changes c,
      d.transactions ∙ expire-overdue now clock 0 m.transactions h k,
      d.flag ∙ any_timed_out-overdue now m.transactions h k,
    )

pub cleanup_timeout-Changes :
    (fuel now : ℕ) (clock : ℕ → ℕ) (m : TransactionManager)
    → IsConsistent m
    → (r : TransactionManager × Bool) × (transaction_cleanup_timeout (suc fuel) now clock m ≡ ok r)
      × Changes m r.0
unfolding transaction_cleanup_timeout
cleanup_timeout-Changes fuel now clock m c =
    let (r, run, d) = cleanup_from-Cleaned fuel now clock m.transactions 0 m [] false c refl refl in
    (r, run, d.changes)
