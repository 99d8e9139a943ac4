-- ===== src/HashIndex/History.antt =====
-- Sequences of calls of src/index/hash_index.c against a map that is updated by the calls that
-- report success.
use micro_meow_db.Prelude.{
  ℕ, ◌<◌, ◌≡◌, refl, All, length, ◌>>=◌, ap, ◌∙◌, Bool, Option, none, some, List, [], ◌∷◌, arith,
  Bytes, if◌then◌else◌, Bool-cases, inl, inr, bytes_eq_iff,
}
use micro_meow_db.HashIndex.{
  HashIndex, Alloc, hash_index_create, hash_index_insert, hash_index_get, hash_index_delete,
}
use micro_meow_db.HashIndex.Laws.{
  insert_lem, IsValid, view, put, remove, size_of, create-eq, empty-IsValid, view-empty,
  delete-IsValid, view-delete, get-view,
}

pub data Call : Type 0 where
  insert : Alloc → Bytes → Bytes → Call
  delete : Bytes → Call

unfoldable pub apply : Call → HashIndex → Option (HashIndex × Bool)
apply (insert m k v) index = hash_index_insert m index (some k) v
apply (delete k) index = some (hash_index_delete index (some k))

unfoldable pub run : List Call → HashIndex → Option HashIndex
run [] index = some index
run (c ∷ cs) index = apply c index >>= λ r. run cs r.0

-- what a call that succeeds does to the map
abbrev pub effect : Call → (Bytes → Option Bytes) → Bytes → Option Bytes
effect (insert m k v) f = put k v f
effect (delete k) f = remove k f

-- the map after the calls that report success
unfoldable pub replay : List Call → HashIndex → (Bytes → Option Bytes) → Bytes → Option Bytes
replay [] index f = f
replay (c ∷ cs) index f = elim (apply c index) [
  | none ↦ f
  | some r ↦ replay cs r.0 (if r.1 then effect c f else f)
]

-- A value that is inserted is not empty.
abbrev pub HasValue : Call → Type 0
HasValue (insert m k v) = 0 < length v
HasValue (delete k) = Unit {0}

abbrev pub Agree : (Bytes → Option Bytes) → (Bytes → Option Bytes) → Type 0
Agree f g = (q : Bytes) → f q ≡ g q

apply_lem :
    (c : Call) (index : HashIndex) (f : Bytes → Option Bytes)
    → IsValid index
    → Agree (view index) f
    → HasValue c
    → (r : HashIndex × Bool) × (apply c index ≡ some r)
      × IsValid r.0
      × Agree (view r.0) (if r.1 then effect c f else f)
unfolding apply
apply_lem (insert m k v) index f w h b =
    let (r, e, valid, seen) = insert_lem m index k v w b in
    (
      r,
      e,
      valid,
      λ q. elim (Bool-cases r.1) [
        | inl t ↦ rw t (rw t at (seen q) ∙ ground (arith, h q))
        | inr t ↦ rw t (ap (λ x. view x q) (rw t at (seen q)) ∙ h q)
      ],
    )
apply_lem (delete k) index f w h b = (
  hash_index_delete index (some k),
  refl,
  delete-IsValid index (some k) w,
  λ q. ground (arith, view-delete index k q w, h q, h k, bytes_eq_iff q k),
)

run-view :
    (cs : List Call) (index : HashIndex) (f : Bytes → Option Bytes)
    → IsValid index
    → Agree (view index) f
    → All HasValue cs
    → (index' : HashIndex) × (run cs index ≡ some index')
      × IsValid index'
      × Agree (view index') (replay cs index f)
unfolding run replay
run-view [] index f w h b = (index, refl, w, h)
run-view (c ∷ cs) index f w h b =
    let (r, e, w', h') = apply_lem c index f w h b.0 in
    let (index', e', w'', h'') = run-view cs r.0 (if r.1 then effect c f else f) w' h' b.1 in
    (index', rw (run, e) e', w'', λ q. rw (replay, e) (h'' q))

-- After any calls on a new table, in any order and with any failures of the allocator, where no
-- value that is inserted is empty: the calls are defined, the table is valid, and a search gives
-- the size and, if its copy can be allocated, the value of the map that the successful calls
-- built.
pub get-run :
    (m m' : Alloc) (n : ℕ) (index : HashIndex) (cs : List Call) (q : Bytes)
    → hash_index_create m n ≡ some index
    → All HasValue cs
    → let answer = replay cs index (λ _. none) q in
      (index' : HashIndex) × (run cs index ≡ some index')
      × IsValid index'
      × (hash_index_get m' index' (some q) ≡ (size_of answer, if m' 0 then answer else none))
get-run m m' n index cs q e b =
    let i = create-eq m n index e in
    let (index', done, valid, seen) =
      run-view cs index (λ _. none) (rw i (empty-IsValid _ (ground arith)))
        (λ p. rw i (view-empty _ p)) b in
    (index', done, valid, rw (← seen q) (get-view m' index' q))
