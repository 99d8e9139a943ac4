-- ===== src/Metadata/Tables.antt =====
-- The operations of src/metadata/metadata.c on tables, columns and indexes. A pointer to their data
-- is the address of the cell; a pointer of another kind than its operation is for is undefined.
use micro_meow_db.Prelude.{
  ℕ, zero, suc, ◌+◌, Bool, true, false, ◌&&◌, Option, none, some, List, [], ◌∷◌, Bytes, bytes_eq,
  get_elem?, ◌==◌, if◌then◌else◌, ◌>>=◌,
}
use micro_meow_db.Metadata.{
  TableMetadata, ColumnMetadata, IndexMetadata, Memory, load, as_table, as_column, as_index,
  Metadata, MetadataManager, same_schema, is_active, metadata_create, metadata_get, metadata_update,
  metadata_delete, select, listing,
}

unfoldable pub load_table : Memory → Option ℕ → Option TableMetadata
load_table mem p = load mem p >>= λ d. as_table d

unfoldable pub load_column : Memory → Option ℕ → Option ColumnMetadata
load_column mem p = load mem p >>= λ d. as_column d

unfoldable pub load_index : Memory → Option ℕ → Option IndexMetadata
load_index mem p = load mem p >>= λ d. as_index d

-- whether an object is an active column of a table
unfoldable pub column_in : Memory → Bytes → Option Bytes → Metadata → Option Bool
column_in mem table_name schema o =
    if (o.type == 2) && is_active o
    then (load_column mem o.contents >>= λ c.
        some (bytes_eq c.table_name table_name && same_schema schema c.schema))
    else some false

unfoldable pub index_in : Memory → Bytes → Option Bytes → Metadata → Option Bool
index_in mem table_name schema o =
    if (o.type == 3) && is_active o
    then (load_index mem o.contents >>= λ c.
        some (bytes_eq c.table_name table_name && same_schema schema c.schema))
    else some false

unfoldable pub metadata_list_columns :
    Memory → MetadataManager → Bytes → Option Bytes → Option (Memory × ℕ × Option (List Metadata))
metadata_list_columns mem m table_name schema =
    m.objects >>= λ os. select (column_in mem table_name schema) os >>= λ r. some (listing mem r)

unfoldable pub metadata_list_indexes :
    Memory → MetadataManager → Bytes → Option Bytes → Option (Memory × ℕ × Option (List Metadata))
metadata_list_indexes mem m table_name schema =
    m.objects >>= λ os. select (index_in mem table_name schema) os >>= λ r. some (listing mem r)

unfoldable pub metadata_table_exists : MetadataManager → Bytes → Option Bytes → Option Bool
metadata_table_exists m table_name schema =
    metadata_get m table_name schema 1 >>= λ o. some (elim o [ none ↦ false | some o' ↦ true ])

-- the first object that a test accepts
unfoldable pub find_object : (Metadata → Option Bool) → List Metadata → Option (Option Metadata)
find_object test [] = some none
find_object test (o ∷ os) =
    let rest = find_object test os in test o >>= λ here. if here then some (some o) else rest

-- whether an object is an active column of a table, under a name
unfoldable pub column_named : Memory → Bytes → Bytes → Option Bytes → Metadata → Option Bool
column_named mem column_name table_name schema o =
    if (o.type == 2) && is_active o
    then (load_column mem o.contents >>= λ c. some (
        bytes_eq c.name column_name
        && bytes_eq c.table_name table_name
        && same_schema schema c.schema))
    else some false

unfoldable pub index_named : Memory → Bytes → Bytes → Option Bytes → Metadata → Option Bool
index_named mem index_name table_name schema o =
    if (o.type == 3) && is_active o
    then (load_index mem o.contents >>= λ c. some (
        bytes_eq c.name index_name
        && bytes_eq c.table_name table_name
        && same_schema schema c.schema))
    else some false

-- the data of the first object that a test accepts
unfoldable pub find_contents : MetadataManager → (Metadata → Option Bool) → Option (Option ℕ)
find_contents m test = do
  os ← m.objects
  found ← find_object test os
  some (found >>= λ o. o.contents)

unfoldable pub metadata_get_column :
    Memory → MetadataManager → Bytes → Bytes → Option Bytes → Option (Option ℕ)
metadata_get_column mem m column_name table_name schema =
    find_contents m (column_named mem column_name table_name schema)

unfoldable pub metadata_get_index :
    Memory → MetadataManager → Bytes → Bytes → Option Bytes → Option (Option ℕ)
metadata_get_index mem m index_name table_name schema =
    find_contents m (index_named mem index_name table_name schema)

unfoldable pub metadata_column_exists :
    Memory → MetadataManager → Bytes → Bytes → Option Bytes → Option Bool
metadata_column_exists mem m column_name table_name schema = do
  os ← m.objects
  found ← find_object (column_named mem column_name table_name schema) os
  some (elim found [ none ↦ false | some o ↦ true ])

unfoldable pub metadata_index_exists :
    Memory → MetadataManager → Bytes → Bytes → Option Bytes → Option Bool
metadata_index_exists mem m index_name table_name schema = do
  os ← m.objects
  found ← find_object (index_named mem index_name table_name schema) os
  some (elim found [ none ↦ false | some o ↦ true ])

unfoldable pub metadata_get_table : MetadataManager → Bytes → Option Bytes → Option (Option ℕ)
metadata_get_table m table_name schema =
    metadata_get m table_name schema 1 >>= λ o. some (o >>= λ o'. o'.contents)

-- whether a creation returned an object
unfoldable pub created :
    Memory × MetadataManager × Option Metadata → Memory × MetadataManager × Bool
created r = (r.0, r.1, elim r.2 [ none ↦ false | some o ↦ true ])

unfoldable pub metadata_create_table :
    ℕ → Memory → MetadataManager → ℕ → Option (Memory × MetadataManager × Bool)
metadata_create_table now mem m p = do
  t ← load_table mem (some p)
  r ← metadata_create now mem m t.name t.schema 1 (some p)
  some (created r)

unfoldable pub metadata_create_column :
    ℕ → Memory → MetadataManager → ℕ → Option (Memory × MetadataManager × Bool)
metadata_create_column now mem m p = do
  c ← load_column mem (some p)
  r ← metadata_create now mem m c.name c.schema 2 (some p)
  some (created r)

unfoldable pub metadata_create_index :
    ℕ → Memory → MetadataManager → ℕ → Option (Memory × MetadataManager × Bool)
metadata_create_index now mem m p = do
  c ← load_index mem (some p)
  r ← metadata_create now mem m c.name c.schema 3 (some p)
  some (created r)

unfoldable pub metadata_update_table :
    ℕ → Memory → MetadataManager → ℕ → Option (Memory × MetadataManager × Bool)
metadata_update_table now mem m p = do
  t ← load_table mem (some p)
  metadata_update now mem m t.name t.schema 1 (some p)

unfoldable pub metadata_update_column :
    ℕ → Memory → MetadataManager → ℕ → Option (Memory × MetadataManager × Bool)
metadata_update_column now mem m p = do
  c ← load_column mem (some p)
  metadata_update now mem m c.name c.schema 2 (some p)

unfoldable pub metadata_update_index :
    ℕ → Memory → MetadataManager → ℕ → Option (Memory × MetadataManager × Bool)
metadata_update_index now mem m p = do
  c ← load_index mem (some p)
  metadata_update now mem m c.name c.schema 3 (some p)

-- The loop of a drop over the columns of a table, from a place on, for as many objects as are left.
unfoldable pub drop_columns :
    ℕ → ℕ → ℕ → Memory → MetadataManager → Bytes → Option Bytes → Option MetadataManager
drop_columns zero i now mem m table_name schema = some m
drop_columns (suc left) i now mem m table_name schema = do
  os ← m.objects
  o ← get_elem? os i
  here ← column_in mem table_name schema o
  m' ←
      if here
      then (load_column mem o.contents >>= λ c.
          metadata_delete now m c.name schema 2 >>= λ r. some r.0)
      else some m
  drop_columns left (i + 1) now mem m' table_name schema

unfoldable pub drop_indexes :
    ℕ → ℕ → ℕ → Memory → MetadataManager → Bytes → Option Bytes → Option MetadataManager
drop_indexes zero i now mem m table_name schema = some m
drop_indexes (suc left) i now mem m table_name schema = do
  os ← m.objects
  o ← get_elem? os i
  here ← index_in mem table_name schema o
  m' ←
      if here
      then (load_index mem o.contents >>= λ c.
          metadata_delete now m c.name schema 3 >>= λ r. some r.0)
      else some m
  drop_indexes left (i + 1) now mem m' table_name schema

unfoldable pub metadata_drop_table :
    ℕ → Memory → MetadataManager → Bytes → Option Bytes → Option (MetadataManager × Bool)
metadata_drop_table now mem m table_name schema = do
  m₁ ← drop_columns m.object_count 0 now mem m table_name schema
  m₂ ← drop_indexes m₁.object_count 0 now mem m₁ table_name schema
  metadata_delete now m₂ table_name schema 1

unfoldable pub metadata_drop_column :
    ℕ → Memory → MetadataManager → Bytes → Bytes → Option Bytes → Option (MetadataManager × Bool)
metadata_drop_column now mem m column_name table_name schema =
    metadata_column_exists mem m column_name table_name schema >>= λ found.
    if found then metadata_delete now m column_name schema 2 else some (m, false)

unfoldable pub metadata_drop_index :
    ℕ → Memory → MetadataManager → Bytes → Bytes → Option Bytes → Option (MetadataManager × Bool)
metadata_drop_index now mem m index_name table_name schema =
    metadata_index_exists mem m index_name table_name schema >>= λ found.
    if found then metadata_delete now m index_name schema 3 else some (m, false)
