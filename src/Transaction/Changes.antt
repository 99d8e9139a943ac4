-- ===== src/Transaction/Changes.antt =====
-- Sequences of calls of src/transaction/transaction.c without locks, seen as the three changes
-- that a manager can undergo: a transaction begins, a live one ends, a log is written.
use micro_meow_db.Prelude.{
  ℕ, zero, suc, ◌≡◌, ◌∙◌, Bool, true, false, none, some, List, [], ◌∷◌, ◌++◌, arith, get_elem?,
  get_elem?-set, get_elem?-lt, length-set, All-set, ◌==◌, Bool-cases, inl, inr,
}
use micro_meow_db.Transaction.{
  Transaction, TransactionManager, TransactionState, put_transaction, IsolationLevel,
}
use micro_meow_db.Transaction.Lifecycle.{
  is_live, IsConsistent, Unlocked, Numbered-set, Unlocked-get, live_count-set, ended, Final,
  ended-IsConsistent, begin_refused, begun, begun-IsConsistent,
}

-- The same transaction, but for its logs.
pub record SameButLogs (t t' : Transaction) : Type 0 where
  pub id : t'.id ≡ t.id
  pub state : t'.state ≡ t.state
  pub commit_time : t'.commit_time ≡ t.commit_time
  pub locks : t'.locks ≡ t.locks

pub data Change (m m' : TransactionManager) : Type 0 where
  begins :
      (granted : Bool) (now : ℕ) (level : IsolationLevel)
      → begin_refused granted m ≡ false
      → m' ≡ begun now m level
      → Change m m'
  ends :
      (now tx : ℕ) (t : Transaction) (state : TransactionState)
      → get_elem? m.transactions tx ≡ some t
      → is_live t ≡ true
      → Final state
      → m' ≡ ended now m tx t state
      → Change m m'
  logs :
      (tx : ℕ) (t t' : Transaction)
      → get_elem? m.transactions tx ≡ some t
      → SameButLogs t t'
      → m' ≡ put_transaction m tx t'
      → Change m m'

pub data Changes (m : TransactionManager) : TransactionManager → Type 0 where
  here : Changes m m
  next : {m₁ m₂ : TransactionManager} → Changes m m₁ → Change m₁ m₂ → Changes m m₂

pub trans : {m m₁ m₂ : TransactionManager} → Changes m m₁ → Changes m₁ m₂ → Changes m m₂
trans a here = a
trans a (next b c) = next (trans a b) c

logs-IsConsistent :
    (m : TransactionManager) (tx : ℕ) (t t' : Transaction)
    → IsConsistent m
    → get_elem? m.transactions tx ≡ some t
    → SameButLogs t t'
    → IsConsistent (put_transaction m tx t')
logs-IsConsistent m tx t t' c g s = record {
  unlocked =
      All-set Unlocked m.transactions tx t' c.unlocked
        (s.locks ∙ Unlocked-get m.transactions tx t c.unlocked g);
  counted = ground (arith, live_count-set m.transactions tx t t' g, c.counted, s.state);
  bounded = c.bounded;
  small = c.small;
  numbered = Numbered-set 0 tx m.transactions t t' c.numbered g s.id;
  next = rw (length-set m.transactions tx t') c.next;
}

pub Change-IsConsistent :
    {m m' : TransactionManager} → Change m m' → IsConsistent m → IsConsistent m'
Change-IsConsistent {m} (begins granted now level e p) c =
    rw p (begun-IsConsistent granted now m level c e)
Change-IsConsistent {m} (ends now tx t state g live final p) c =
    rw p (ended-IsConsistent now m tx t state c g live final)
Change-IsConsistent {m} (logs tx t t' g s p) c = rw p (logs-IsConsistent m tx t t' c g s)

pub Changes-IsConsistent :
    {m m' : TransactionManager} → Changes m m' → IsConsistent m → IsConsistent m'
Changes-IsConsistent here c = c
Changes-IsConsistent (next r s) c = Change-IsConsistent s (Changes-IsConsistent r c)

-- A transaction that has ended, with the state and the time of its end.
abbrev pub EndedAs : ℕ → Transaction → TransactionManager → Type 0
EndedAs tx t m =
    (t' : Transaction) × (get_elem? m.transactions tx ≡ some t')
    × (t'.id ≡ t.id)
    × (t'.state ≡ t.state)
    × (t'.commit_time ≡ t.commit_time)

get_elem?-append :
    (ts us : List Transaction) (i : ℕ) (t : Transaction)
    → get_elem? ts i ≡ some t
    → get_elem? (ts ++ us) i ≡ some t
get_elem?-append [] us i t h = cc
get_elem?-append (u ∷ ts) us zero t h = h
get_elem?-append (u ∷ ts) us (suc i) t h = get_elem?-append ts us i t h

Change-EndedAs :
    {m m' : TransactionManager} (tx : ℕ) (t : Transaction)
    → Change m m'
    → is_live t ≡ false
    → EndedAs tx t m
    → EndedAs tx t m'
Change-EndedAs {m} tx t (begins granted now level e p) h (t', g, i, s, d) =
    (t', rw p (get_elem?-append m.transactions _ tx t' g), i, s, d)
Change-EndedAs {m} tx t (ends now tx₁ t₁ state g₁ live final p) h (t', g, i, s, d) =
    let new : Transaction = record t₁ {
      locks = 0;
      undo_log = none;
      redo_log = none;
      state = state;
      commit_time = now;
    } in
    (
      t',
      rw p (
          ground (
            arith,
            get_elem?-lt m.transactions tx₁ t₁ g₁,
            get_elem?-set m.transactions tx₁ tx new,
          )),
      i,
      s,
      d,
    )
Change-EndedAs {m} tx t (logs tx₁ t₁ t₁' g₁ same p) h (t', g, i, s, d) =
    let write = get_elem?-set m.transactions tx₁ tx t₁' (get_elem?-lt m.transactions tx₁ t₁ g₁) in
    elim (Bool-cases (tx₁ == tx)) [
      | inl e ↦ (
        t₁',
        rw p (ground (arith, write)),
        ground (arith, same.id),
        ground (arith, same.state),
        ground (arith, same.commit_time),
      )
      | inr e ↦ (t', rw p (ground (arith, write)), i, s, d)
    ]

pub Changes-EndedAs :
    {m m' : TransactionManager} (tx : ℕ) (t : Transaction)
    → Changes m m'
    → is_live t ≡ false
    → EndedAs tx t m
    → EndedAs tx t m'
Changes-EndedAs tx t here h e = e
Changes-EndedAs tx t (next r s) h e = Change-EndedAs tx t s h (Changes-EndedAs tx t r h e)
