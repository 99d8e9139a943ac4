-- ===== src/Metadata/Renaming.antt =====
-- The operations of src/metadata/metadata.c that copy a table and that change a name.
use micro_meow_db.Prelude.{
  ℕ, zero, suc, ◌+◌, Bool, true, false, Option, none, some, List, [], ◌∷◌, ◌++◌, Bytes, length,
  get_elem?, ◌==◌, ◌||◌, if◌then◌else◌, ◌>>=◌,
}
use micro_meow_db.Metadata.{
  table, column, index, Memory, malloc, place, store, free_data, Metadata, MetadataManager,
}
use micro_meow_db.Metadata.Tables.{
  load_table, load_column, load_index, column_in, index_in, metadata_list_columns,
  metadata_list_indexes, metadata_get_table, metadata_get_column, metadata_get_index,
  metadata_create_table, metadata_create_column, metadata_create_index, metadata_update_table,
  metadata_update_column, metadata_update_index,
}

-- The state that a call leaves, whatever it returned.
unfoldable pub state_of : Memory × MetadataManager × Bool → Option (Memory × MetadataManager)
state_of r = some (r.0, r.1)

-- The loop over the columns that were listed. A creation that is refused leaves its copy unused.
unfoldable pub clone_columns :
    ℕ → Memory → MetadataManager → Bytes → List Metadata → Option (Memory × MetadataManager)
clone_columns now mem m target [] = some (mem, m)
clone_columns now mem m target (o ∷ os) = do
  let (mem₁, granted) = malloc mem
  next ←
      if granted
      then (load_column mem₁ o.contents >>= λ c.
          let (mem₂, p) = place mem₁ (column (record c { table_name = target })) in
          metadata_create_column now mem₂ m p >>= state_of)
      else some (mem₁, m)
  clone_columns now next.0 next.1 target os

-- `_clone` stands behind the name.
unfoldable pub clone_name : Bytes → Bytes
clone_name name = name ++ 95 ∷ 99 ∷ 108 ∷ 111 ∷ 110 ∷ 101 ∷ []

-- The loop over the indexes: the memory for the name and for the columns is not tested.
unfoldable pub clone_indexes :
    ℕ → Memory → MetadataManager → Bytes → List Metadata → Option (Memory × MetadataManager)
clone_indexes now mem m target [] = some (mem, m)
clone_indexes now mem m target (o ∷ os) = do
  let (mem₁, granted) = malloc mem
  let (mem₂, named) = malloc mem₁
  let (mem₃, listed) = malloc mem₂
  next ←
      if granted
      then (load_index mem₁ o.contents >>= λ c.
          if named
          then if listed || (length c.columns == 0)
            then (let (mem₄, p) =
                  place mem₃ (index (record c { name = clone_name c.name; table_name = target })) in
                metadata_create_index now mem₄ m p >>= state_of)
            else none
          else none)
      else some (mem₁, m)
  clone_indexes now next.0 next.1 target os

-- the copies of what one of the listings returned
unfoldable pub clone_listed :
    (Memory → MetadataManager → Bytes → List Metadata → Option (Memory × MetadataManager))
    → MetadataManager
    → Bytes
    → Memory × ℕ × Option (List Metadata)
    → Option (Memory × MetadataManager)
clone_listed clone m target (mem, count, none) = some (mem, m)
clone_listed clone m target (mem, count, some os) = clone mem m target os

unfoldable pub metadata_clone_table :
    ℕ
    → Memory
    → MetadataManager
    → Bytes
    → Bytes
    → Option Bytes
    → Option (Memory × MetadataManager × Bool)
metadata_clone_table now mem m source target schema =
    metadata_get_table m source schema >>= λ found. elim found [
      | none ↦ some (mem, m, false)
      | some p ↦ load_table mem (some p) >>= λ t.
          let (mem₁, granted) = malloc mem in
          let (mem₂, p') =
            place mem₁
              (table (record t { name = target; row_count = 0; data_size = 0; index_size = 0 })) in
          if granted
          then (metadata_create_table now mem₂ m p' >>= λ r.
              if r.2
              then (metadata_list_columns r.0 r.1 source schema >>= λ columns.
                  clone_listed (clone_columns now) r.1 target columns >>= λ s.
                  metadata_list_indexes s.0 s.1 source schema >>= λ indexes.
                  clone_listed (clone_indexes now) s.1 target indexes >>= λ u.
                  some (u.0, u.1, true))
              else (free_data r.0 1 (some p') >>= λ mem'. some (mem', r.1, false)))
          else some (mem₁, m, false)
    ]

-- The loops of a renaming: an update with the data that the object has already frees them.
unfoldable pub rename_columns :
    ℕ
    → ℕ
    → ℕ
    → Memory
    → MetadataManager
    → Bytes
    → Bytes
    → Option Bytes
    → Option (Memory × MetadataManager)
rename_columns zero i now mem m old new schema = some (mem, m)
rename_columns (suc left) i now mem m old new schema = do
  os ← m.objects
  o ← get_elem? os i
  here ← column_in mem old schema o
  next ←
      if here
      then (o.contents >>= λ p. load_column mem (some p) >>= λ c.
          metadata_update_column now (store mem p (column (record c { table_name = new }))) m p
          >>= state_of)
      else some (mem, m)
  rename_columns left (i + 1) now next.0 next.1 old new schema

unfoldable pub rename_indexes :
    ℕ
    → ℕ
    → ℕ
    → Memory
    → MetadataManager
    → Bytes
    → Bytes
    → Option Bytes
    → Option (Memory × MetadataManager)
rename_indexes zero i now mem m old new schema = some (mem, m)
rename_indexes (suc left) i now mem m old new schema = do
  os ← m.objects
  o ← get_elem? os i
  here ← index_in mem old schema o
  next ←
      if here
      then (o.contents >>= λ p. load_index mem (some p) >>= λ c.
          metadata_update_index now (store mem p (index (record c { table_name = new }))) m p
          >>= state_of)
      else some (mem, m)
  rename_indexes left (i + 1) now next.0 next.1 old new schema

unfoldable pub metadata_rename_table :
    ℕ
    → Memory
    → MetadataManager
    → Bytes
    → Bytes
    → Option Bytes
    → Option (Memory × MetadataManager × Bool)
metadata_rename_table now mem m old new schema = metadata_get_table m old schema >>= λ found.
    elim found [
      | none ↦ some (mem, m, false)
      | some p ↦ load_table mem (some p) >>= λ t.
          metadata_update_table now (store mem p (table (record t { name = new }))) m p >>= λ r.
          if r.2
          then (rename_columns r.1.object_count 0 now r.0 r.1 old new schema >>= λ s.
              rename_indexes s.1.object_count 0 now s.0 s.1 old new schema >>= λ u.
              some (u.0, u.1, true))
          else some r
    ]

unfoldable pub metadata_rename_column :
    ℕ
    → Memory
    → MetadataManager
    → Bytes
    → Bytes
    → Bytes
    → Option Bytes
    → Option (Memory × MetadataManager × Bool)
metadata_rename_column now mem m table_name old new schema =
    metadata_get_column mem m old table_name schema >>= λ found. elim found [
      | none ↦ some (mem, m, false)
      | some p ↦ load_column mem (some p) >>= λ c.
          metadata_update_column now (store mem p (column (record c { name = new }))) m p
    ]

unfoldable pub metadata_rename_index :
    ℕ
    → Memory
    → MetadataManager
    → Bytes
    → Bytes
    → Bytes
    → Option Bytes
    → Option (Memory × MetadataManager × Bool)
metadata_rename_index now mem m table_name old new schema =
    metadata_get_index mem m old table_name schema >>= λ found. elim found [
      | none ↦ some (mem, m, false)
      | some p ↦ load_index mem (some p) >>= λ c.
          metadata_update_index now (store mem p (index (record c { name = new }))) m p
    ]
