-- ===== src/Transaction/Lifecycle.antt =====
-- src/transaction/transaction.c without locks: the counters, the numbering and the states.
use micro_meow_db.Prelude.{
  ℕ, zero, suc, ◌+◌, ◌-◌, ◌%◌, ◌^◌, ◌≤◌, ◌<◌, ◌≡◌, refl, Bool, true, false, ◌||◌, not, none, some,
  List, [], ◌∷◌, ◌++◌, arith, get_elem?, length-set, length-append, All, All-set, All-append,
  length, set, leb, if◌then◌else◌, Bool-cases, inl, inr,
}
use micro_meow_db.Transaction.{
  Transaction, TransactionManager, ok, TransactionState, active, committed, rolled_back, is_active,
  is_prepared, get_transaction, put_transaction, release_locks, finish, transaction_begin,
  transaction_commit, transaction_rollback, IsolationLevel, chosen_isolation,
}

-- A transaction that can still end.
abbrev pub is_live : Transaction → Bool
is_live t = is_active t.state || is_prepared t.state

abbrev pub weight : Transaction → ℕ
weight t = if is_live t then 1 else 0

abbrev pub live_count : List Transaction → ℕ
live_count [] = 0
live_count (t ∷ ts) = weight t + live_count ts

-- From position i on, the identifiers are the positions plus 1, modulo 2 ^ 32.
abbrev pub Numbered : ℕ → List Transaction → Type 0
Numbered i [] = Unit {0}
Numbered i (t ∷ ts) = (t.id ≡ (i + 1) % 2 ^ 32) × Numbered (i + 1) ts

abbrev pub Unlocked : Transaction → Type 0
Unlocked t = t.locks ≡ 0

pub record IsConsistent (m : TransactionManager) : Type 0 where
  pub unlocked : All Unlocked m.transactions
  pub counted : m.active_transactions ≡ live_count m.transactions
  pub bounded : m.active_transactions ≤ m.max_transactions
  pub small : m.max_transactions < 2 ^ 32
  pub numbered : Numbered 0 m.transactions
  pub next : m.next_transaction_id ≡ (length m.transactions + 1) % 2 ^ 32

live_count-append :
    (ts us : List Transaction) → live_count (ts ++ us) ≡ live_count ts + live_count us
live_count-append [] us = omega arith
live_count-append (t ∷ ts) us = omega (arith, live_count-append ts us)

pub live_count-set :
    (ts : List Transaction) (i : ℕ) (t t' : Transaction)
    → get_elem? ts i ≡ some t
    → live_count (set ts i t') + weight t ≡ live_count ts + weight t'
unfolding set
live_count-set [] i t t' h = cc
live_count-set (u ∷ ts) zero t t' h = ground arith
live_count-set (u ∷ ts) (suc i) t t' h = omega (arith, live_count-set ts i t t' h)

Numbered-append :
    (i : ℕ) (ts : List Transaction) (t : Transaction)
    → Numbered i ts
    → t.id ≡ (i + length ts + 1) % 2 ^ 32
    → Numbered i (ts ++ t ∷ [])
Numbered-append i [] t h e = omega arith
Numbered-append i (u ∷ ts) t h e = (h.0, Numbered-append (i + 1) ts t h.1 (omega arith))

pub Numbered-set :
    (i j : ℕ) (ts : List Transaction) (t t' : Transaction)
    → Numbered i ts
    → get_elem? ts j ≡ some t
    → t'.id ≡ t.id
    → Numbered i (set ts j t')
unfolding set
Numbered-set i j [] t t' h g e = tt
Numbered-set i zero (u ∷ ts) t t' h g e = (ground arith, h.1)
Numbered-set i (suc j) (u ∷ ts) t t' h g e = (h.0, Numbered-set (i + 1) j ts t t' h.1 g e)

pub Unlocked-get :
    (ts : List Transaction) (i : ℕ) (t : Transaction)
    → All Unlocked ts
    → get_elem? ts i ≡ some t
    → Unlocked t
Unlocked-get [] i t h e = cc
Unlocked-get (u ∷ ts) zero t h e = ground arith
Unlocked-get (u ∷ ts) (suc i) t h e = Unlocked-get ts i t h.1 e

-- What ending a live transaction leaves.
abbrev pub ended : ℕ → TransactionManager → ℕ → Transaction → TransactionState → TransactionManager
ended now m tx t state =
    record (put_transaction m tx (record t {
      locks = 0;
      undo_log = none;
      redo_log = none;
      state = state;
      commit_time = now;
    })) { active_transactions = (m.active_transactions + 2 ^ 32 - 1) % 2 ^ 32 }

-- Without locks the release has nothing to do.
pub finish-eq :
    (fuel now : ℕ) (m : TransactionManager) (tx : ℕ) (t : Transaction) (state : TransactionState)
    → t.locks ≡ 0
    → finish (suc fuel) now m tx t state ≡ ok (ended now m tx t state, true)
unfolding finish release_locks
finish-eq fuel now m tx t state h = rw (h, release_locks) refl

abbrev pub Final : TransactionState → Type 0
Final state = (is_active state || is_prepared state) ≡ false

pub ended-IsConsistent :
    (now : ℕ) (m : TransactionManager) (tx : ℕ) (t : Transaction) (state : TransactionState)
    → IsConsistent m
    → get_elem? m.transactions tx ≡ some t
    → is_live t ≡ true
    → Final state
    → IsConsistent (ended now m tx t state)
ended-IsConsistent now m tx t state c g live final =
    let t' : Transaction = record t {
      locks = 0;
      undo_log = none;
      redo_log = none;
      state = state;
      commit_time = now;
    } in
    record {
      unlocked = All-set Unlocked m.transactions tx t' c.unlocked refl;
      counted =
          ground (arith, live_count-set m.transactions tx t t' g, c.counted, c.bounded, c.small);
      bounded =
          ground (arith, live_count-set m.transactions tx t t' g, c.counted, c.bounded, c.small);
      small = c.small;
      numbered = Numbered-set 0 tx m.transactions t t' c.numbered g refl;
      next = rw (length-set m.transactions tx t') c.next;
    }

-- the transaction that a successful begin adds
abbrev pub fresh_transaction : ℕ → TransactionManager → IsolationLevel → Transaction
fresh_transaction now m level = record {
  id = m.next_transaction_id;
  state = active;
  isolation = chosen_isolation level;
  start_time = now;
  commit_time = 0;
  locks = 0;
  undo_log = none;
  redo_log = none;
}

abbrev pub begin_refused : Bool → TransactionManager → Bool
begin_refused granted m =
    not m.initialized || leb m.max_transactions m.active_transactions || not granted

abbrev pub begun : ℕ → TransactionManager → IsolationLevel → TransactionManager
begun now m level = record m {
  transactions = m.transactions ++ fresh_transaction now m level ∷ [];
  next_transaction_id = (m.next_transaction_id + 1) % 2 ^ 32;
  active_transactions = (m.active_transactions + 1) % 2 ^ 32;
}

pub begun-IsConsistent :
    (granted : Bool) (now : ℕ) (m : TransactionManager) (level : IsolationLevel)
    → IsConsistent m
    → begin_refused granted m ≡ false
    → IsConsistent (begun now m level)
begun-IsConsistent granted now m level c e =
    let t = fresh_transaction now m level in
    let room : m.active_transactions < m.max_transactions = ground arith in
    record {
      unlocked = All-append Unlocked m.transactions (t ∷ []) c.unlocked (refl, tt);
      counted = omega (arith, live_count-append m.transactions (t ∷ []), c.counted, c.small);
      bounded = omega (arith, c.small);
      small = c.small;
      numbered = Numbered-append 0 m.transactions t c.numbered (omega (arith, c.next));
      next = omega (arith, c.next, length-append m.transactions (t ∷ []));
    }

pub begin-IsConsistent :
    (granted : Bool) (now : ℕ) (m : TransactionManager) (level : IsolationLevel)
    → IsConsistent m
    → IsConsistent (transaction_begin granted now m level).0
unfolding transaction_begin
begin-IsConsistent granted now m level c = elim (Bool-cases (begin_refused granted m)) [
  | inl e ↦ rw (e, transaction_begin) c
  | inr e ↦ rw (e, transaction_begin) (begun-IsConsistent granted now m level c e)
]

-- The two ways out of a commit or a rollback, without locks.
pub commit_cases {ℓ} :
    (P : TransactionManager × Bool → Type ℓ) (fuel now : ℕ) (m : TransactionManager) (tx : ℕ)
    (t : Transaction)
    → IsConsistent m
    → get_elem? m.transactions tx ≡ some t
    → (is_active t.state ≡ false → P (m, false))
    → (is_active t.state ≡ true → P (ended now m tx t committed, true))
    → (r : TransactionManager × Bool) × (transaction_commit (suc fuel) now m (some tx) ≡ ok r) × P r
unfolding transaction_commit get_transaction
commit_cases P fuel now m tx t c g refused done = elim (Bool-cases (is_active t.state)) [
  | inl e ↦ (
    (ended now m tx t committed, true),
    ground (
      arith,
      finish-eq fuel now m tx t committed (Unlocked-get m.transactions tx t c.unlocked g),
    ),
    done e,
  )
  | inr e ↦ ((m, false), ground arith, refused e)
]

pub rollback_cases {ℓ} :
    (P : TransactionManager × Bool → Type ℓ) (fuel now : ℕ) (m : TransactionManager) (tx : ℕ)
    (t : Transaction)
    → IsConsistent m
    → get_elem? m.transactions tx ≡ some t
    → (is_live t ≡ false → P (m, false))
    → (is_live t ≡ true → P (ended now m tx t rolled_back, true))
    → (r : TransactionManager × Bool) × (transaction_rollback (suc fuel) now m (some tx) ≡ ok r)
      × P r
unfolding transaction_rollback get_transaction
rollback_cases P fuel now m tx t c g refused done = elim (Bool-cases (is_live t)) [
  | inl e ↦ (
    (ended now m tx t rolled_back, true),
    ground (
      arith,
      finish-eq fuel now m tx t rolled_back (Unlocked-get m.transactions tx t c.unlocked g),
    ),
    done e,
  )
  | inr e ↦ ((m, false), ground arith, refused e)
]
