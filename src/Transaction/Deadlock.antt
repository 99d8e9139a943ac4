-- ===== src/Transaction/Deadlock.antt =====
-- `transaction_handle_deadlock` of src/transaction/transaction.c: the choice of the oldest.
use native.Mathlib.Nat.{zero-add}
use micro_meow_db.Prelude.{
  ℕ, suc, ◌+◌, ◌^◌, ◌≤◌, ◌<◌, ◌≡◌, refl, ap, ◌∙◌, Bool, true, false, ◌&&◌, Option, none, some, List,
  [], ◌∷◌, arith, get_elem?, All, ltb, Bool-cases, inl, inr,
}
use micro_meow_db.Transaction.{Transaction, TransactionManager, ok, rolled_back, is_active}
use micro_meow_db.Transaction.Maintenance.{u64, oldest_from, transaction_handle_deadlock}
use micro_meow_db.Transaction.Lifecycle.{IsConsistent, ended}
use micro_meow_db.Transaction.Changes.{Changes, here, next, ends}
use micro_meow_db.Transaction.Timeout.{rollback_active}

-- A transaction that is not both active and older than `time`.
abbrev pub NotOlder : ℕ → Transaction → Type 0
NotOlder time t = is_active t.state ≡ true → time ≤ t.start_time

-- What the search from position i over `ts` returns, with `time` and `best` so far.
data Oldest (i : ℕ) (ts : List Transaction) (time : ℕ) (best r : Option ℕ) : Type 0 where
  kept : r ≡ best → All (NotOlder time) ts → Oldest i ts time best r
  found :
      (k j : ℕ) (t : Transaction)
      → r ≡ some k
      → k ≡ i + j
      → get_elem? ts j ≡ some t
      → is_active t.state ≡ true
      → t.start_time < time
      → All (NotOlder t.start_time) ts
      → Oldest i ts time best r

All-mono : (a b : ℕ) (ts : List Transaction) → a ≤ b → All (NotOlder b) ts → All (NotOlder a) ts
All-mono a b [] h k = tt
All-mono a b (t ∷ ts) h k = ((λ e. omega (arith, k.0 e)), All-mono a b ts h k.1)

better_kept :
    (i : ℕ) (t : Transaction) (ts : List Transaction) (time : ℕ) (best r : Option ℕ)
    → is_active t.state ≡ true
    → t.start_time < time
    → Oldest (i + 1) ts t.start_time (some i) r
    → Oldest i (t ∷ ts) time best r
better_kept i t ts time best r a b (kept e h) =
    found i 0 t e (omega arith) refl a b ((λ _. omega arith), h)
better_kept i t ts time best r a b (found k j u e p g c d h) =
    found k (suc j) u e (omega arith) g c (omega arith) ((λ _. omega arith), h)

worse_kept :
    (i : ℕ) (t : Transaction) (ts : List Transaction) (time : ℕ) (best r : Option ℕ)
    → NotOlder time t
    → Oldest (i + 1) ts time best r
    → Oldest i (t ∷ ts) time best r
worse_kept i t ts time best r a (kept e h) = kept e (a, h)
worse_kept i t ts time best r a (found k j u e p g c d h) =
    found k (suc j) u e (omega arith) g c d ((λ x. omega (arith, a x)), h)

oldest_from-Oldest :
    (i : ℕ) (ts : List Transaction) (time : ℕ) (best : Option ℕ)
    → Oldest i ts time best (oldest_from i ts time best)
unfolding oldest_from
oldest_from-Oldest i [] time best = kept refl tt
oldest_from-Oldest i (t ∷ ts) time best =
    elim (Bool-cases (is_active t.state && ltb t.start_time time)) [
      | inl e ↦
          rw (oldest_from, e)
            (better_kept i t ts time best _ (ground arith) (ground arith)
              (oldest_from-Oldest (i + 1) ts t.start_time (some i)))
      | inr e ↦
          rw (oldest_from, e)
            (worse_kept i t ts time best _ (λ a. ground arith)
              (oldest_from-Oldest (i + 1) ts time best))
    ]

-- What the handling of a deadlock does: nothing, when every active transaction started after
-- `now`; else it rolls back an active transaction, and none that is active is older.
pub data Handled (now : ℕ) (clock : ℕ → ℕ) (m : TransactionManager) (r : TransactionManager × Bool)
    : Type 0 where
  nothing : r ≡ (m, false) → All (NotOlder (now + 1)) m.transactions → Handled now clock m r
  rolls_back :
      (tx : ℕ) (t : Transaction)
      → get_elem? m.transactions tx ≡ some t
      → is_active t.state ≡ true
      → All (NotOlder t.start_time) m.transactions
      → r ≡ (ended (clock tx) m tx t rolled_back, true)
      → Handled now clock m r

handled_of_Oldest :
    (fuel now : ℕ) (clock : ℕ → ℕ) (m : TransactionManager) (o : Option ℕ)
    → IsConsistent m
    → oldest_from 0 m.transactions (u64 (now + 1)) none ≡ o
    → now + 1 < 2 ^ 64
    → Oldest 0 m.transactions (now + 1) none o
    → (r : TransactionManager × Bool) × (transaction_handle_deadlock (suc fuel) now clock m ≡ ok r)
      × Handled now clock m r
unfolding transaction_handle_deadlock
handled_of_Oldest fuel now clock m o c run lt (kept e h) =
    ((m, false), rw (run ∙ e, transaction_handle_deadlock) refl, nothing refl h)
handled_of_Oldest fuel now clock m o c run lt (found k j t e p g a b h) =
    let g' : get_elem? m.transactions k ≡ some t = rw p (rw (zero-add j) g) in
    (
      (ended (clock k) m k t rolled_back, true),
      rw (run ∙ e, transaction_handle_deadlock) (rollback_active fuel (clock k) m k t c g' a),
      rolls_back k t g' a h refl,
    )

-- The handling of a deadlock, in a consistent manager, which has no locks, and at a time `now`
-- with `now` + 1 below 2 ^ 64, ends without a fault for every positive fuel: it does nothing if no
-- active transaction started by `now`, and else rolls back an active transaction such that no
-- active one started earlier.
pub handle_deadlock-Handled :
    (fuel now : ℕ) (clock : ℕ → ℕ) (m : TransactionManager)
    → IsConsistent m
    → now + 1 < 2 ^ 64
    → (r : TransactionManager × Bool) × (transaction_handle_deadlock (suc fuel) now clock m ≡ ok r)
      × Handled now clock m r
handle_deadlock-Handled fuel now clock m c lt =
    let time : u64 (now + 1) ≡ now + 1 = omega arith in
    handled_of_Oldest fuel now clock m _ c refl lt
      (rw time (oldest_from-Oldest 0 m.transactions (now + 1) none))

pub Handled-Changes :
    {now : ℕ} {clock : ℕ → ℕ} {m : TransactionManager} {r : TransactionManager × Bool}
    → Handled now clock m r
    → Changes m r.0
Handled-Changes (nothing e h) = rw e here
Handled-Changes {clock = clock} (rolls_back tx t g a h e) =
    next here (ends (clock tx) tx t rolled_back g (ground arith) refl (ap (λ p. p.0) e))
