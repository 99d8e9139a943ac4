-- ===== src/MemoryEngine/Selection.antt =====
-- The copy that `memory_engine_select` of src/storage/memory_engine.c returns.
use micro_meow_db.Prelude.{
  ℕ, ◌+◌, ◌≡◌, refl, ◌∙◌, ◌>>=◌, Bool, true, false, ◌||◌, Option, none, some, List, [], ◌∷◌, Bytes,
  length, ltb, if◌then◌else◌, arith, Bool-cases, inl, inr,
}
use micro_meow_db.MemoryEngine.{
  Row, MemoryEngineTableData, MemoryEngineData, memory_engine_get_table_data, first_bytes,
  copy_values, memory_engine_select,
}
use micro_meow_db.MemoryEngine.Rows.{IsTable, lookup, bucket-get_or}

-- whether a value has fewer than 64 bytes
abbrev pub has_short : List (Option Bytes) → Bool
has_short [] = false
has_short (none ∷ vs) = has_short vs
has_short (some v ∷ vs) = ltb (length v) 64 || has_short vs

-- the first 64 bytes of every value
abbrev pub cut : List (Option Bytes) → List (Option Bytes)
cut [] = []
cut (none ∷ vs) = none ∷ cut vs
cut (some v ∷ vs) = some (first_bytes 64 v) ∷ cut vs

copy_values-cut :
    (i : ℕ) (vs : List (Option Bytes))
    → copy_values (λ _. true) i vs ≡ (if has_short vs then none else some (cut vs))
unfolding copy_values
copy_values-cut i [] = refl
copy_values-cut i (none ∷ vs) = ground (arith, copy_values-cut (i + 1) vs)
copy_values-cut i (some v ∷ vs) = ground (arith, copy_values-cut (i + 1) vs)

-- The selection of a row that the table has, where all allocations succeed, returns the row with
-- each value cut to its first 64 bytes if every value has as many, and reads past the end of a
-- value if one has fewer.
pub select-lookup :
    (engine : MemoryEngineData) (name : Bytes) (row_id : ℕ) (t : MemoryEngineTableData) (row : Row)
    → memory_engine_get_table_data engine.tables name ≡ some t
    → IsTable t
    → lookup t row_id ≡ some row
    → memory_engine_select (true, λ _. true) engine name row_id ≡ (
        if has_short row.values then none else some (some (record row { values = cut row.values })))
unfolding memory_engine_select
select-lookup engine name row_id t row e v found =
    let copied : memory_engine_select (true, λ _. true) engine name row_id
        ≡ (elim (lookup t row_id) [
          | none ↦ some none
          | some r ↦
              copy_values (λ _. true) 0 r.values >>= λ vs. some (some (record r { values = vs }))
        ]) =
      rw (e, memory_engine_select, bucket-get_or t row_id v) refl in
    copied
    ∙ rw (found, copy_values-cut 0 row.values)
        (elim (Bool-cases (has_short row.values)) [ inl s ↦ rw s refl | inr s ↦ rw s refl ])
