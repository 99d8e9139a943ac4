-- ===== src/MemoryEngine/Rollback.antt =====
-- What the calls of src/storage/memory_engine.c that end a transaction or optimise a table leave.
use micro_meow_db.Prelude.{
  ℕ, ◌≤◌, ◌≡◌, refl, ap, ◌∙◌, Bool, true, false, Option, none, some, List, [], ◌∷◌, Bytes, bytes_eq,
  All, if◌then◌else◌, ◌>>=◌, arith, Bool-cases, Option-cases, inl, inr,
}
use micro_meow_db.MemoryEngine.{
  MemoryEngineTableData, MemoryEngineData, memory_engine_get_table_data, on_table, bucket,
  memory_engine_select, end_tables, memory_engine_rollback_transaction, memory_engine_expand_table,
  optimize_table, memory_engine_optimize,
}

-- whether there is a table with a name
abbrev pub has_table : List MemoryEngineTableData → Bytes → Bool
has_table [] name = false
has_table (t ∷ ts) name = if bytes_eq t.table.name name then true else has_table ts name

optimize_table-eq :
    (granted : Bool) (t : MemoryEngineTableData)
    → 1024 ≤ t.capacity
    → optimize_table granted t ≡ some (t, true)
unfolding optimize_table memory_engine_expand_table
optimize_table-eq granted t h = ground arith

optimize_tables :
    (granted : Bool) (ts : List MemoryEngineTableData) (name : Bytes)
    → All (λ t. 1024 ≤ t.capacity) ts
    → on_table (optimize_table granted) ts name ≡ some (ts, has_table ts name)
unfolding on_table
optimize_tables granted [] name h = refl
optimize_tables granted (t ∷ ts) name h = elim (Bool-cases (bytes_eq t.table.name name)) [
  | inl e ↦ rw (e, optimize_table-eq granted t h.0) refl
  | inr e ↦ rw (e, optimize_tables granted ts name h.1) refl
]

-- Where every table has the capacity it was created with or more, the optimisation is defined and
-- changes nothing at all: no table shrinks. It reports whether there is such a table.
optimize-unchanged :
    (granted : Bool) (engine : MemoryEngineData) (name : Bytes)
    → All (λ t. 1024 ≤ t.capacity) engine.tables
    → memory_engine_optimize granted engine name ≡ some (engine, has_table engine.tables name)
unfolding memory_engine_optimize
optimize-unchanged granted engine name h = rw (optimize_tables granted engine.tables name h) refl

-- the table after the end of a transaction
abbrev ended : Option MemoryEngineTableData → Option MemoryEngineTableData
ended o = o >>= λ t. some (record t { in_transaction = false })

get_table_data-ended :
    (ts : List MemoryEngineTableData) (name : Bytes)
    → memory_engine_get_table_data (end_tables ts) name
      ≡ ended (memory_engine_get_table_data ts name)
unfolding memory_engine_get_table_data end_tables
get_table_data-ended [] name = refl
get_table_data-ended (t ∷ ts) name = elim (Bool-cases (bytes_eq t.table.name name)) [
  | inl e ↦ rw e refl
  | inr e ↦ rw e (get_table_data-ended ts name)
]

-- A rollback restores no row: whatever state it is called in, every selection afterwards returns what
-- it would have returned before.
pub select-rollback :
    (granted : Bool × (ℕ → Bool)) (engine : MemoryEngineData) (name : Bytes) (row_id : ℕ)
    → memory_engine_select granted (memory_engine_rollback_transaction engine) name row_id
      ≡ memory_engine_select granted engine name row_id
unfolding memory_engine_select memory_engine_rollback_transaction bucket
select-rollback granted engine name row_id =
    let ends = get_table_data-ended engine.tables name in
    elim (Option-cases (memory_engine_get_table_data engine.tables name)) [
      | inl e ↦
          let k : memory_engine_get_table_data (end_tables engine.tables) name ≡ none =
            ends ∙ ap ended e in
          rw (memory_engine_select, k, e) refl
      | inr (t, e) ↦
          let k : memory_engine_get_table_data (end_tables engine.tables) name
              ≡ some (record t { in_transaction = false }) =
            ends ∙ ap ended e in
          rw (memory_engine_select, k, e) refl
    ]
