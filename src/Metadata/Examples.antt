-- ===== src/Metadata/Examples.antt =====
-- Runs of the catalogue of src/metadata/metadata.c.
use micro_meow_db.Prelude.{
  ℕ, ◌≡◌, refl, Bytes, Option, some, none, List, [], ◌∷◌, true, false, bytes_eq, set, ◌>>=◌,
}
use micro_meow_db.Metadata.{
  TableMetadata, ColumnMetadata, table, column, Memory, metadata_manager_init, exists_key, malloc,
  create_metadata_object, metadata_create, metadata_get, find_active, load, as_table, as_column,
  as_index, has_key, same_schema, is_active, select, listing, place, free_data, is_of_type,
}
use micro_meow_db.Metadata.{
  Metadata, MetadataManager, active, deleted, metadata_update, metadata_delete,
}
use micro_meow_db.Metadata.Calls.{Call, create, update, delete, run, new_memory}
use micro_meow_db.Metadata.History.{found_data, found_data-run}
use micro_meow_db.Metadata.Faults.{rename_table_half, update_own, create-delete}
use micro_meow_db.Metadata.Tables.{
  metadata_create_table, load_table, created, metadata_create_column, load_column,
  metadata_get_table, metadata_list_columns, column_in, metadata_list_indexes, index_in, load_index,
  metadata_create_index,
}
use micro_meow_db.Metadata.Renaming.{
  metadata_clone_table, metadata_rename_table, clone_columns, clone_indexes, clone_listed,
  clone_name, state_of,
}

abbrev users : Bytes
users = 117 ∷ []

abbrev people : Bytes
people = 112 ∷ []

abbrev users_table : TableMetadata
users_table = record {
  name = users;
  schema = none;
  engine = none;
  charset = none;
  collation = none;
  row_format = false;
  auto_increment = false;
  row_count = 7;
  data_size = 0;
  index_size = 0;
  comment = none;
}

abbrev id_column : ColumnMetadata
id_column = record {
  name = 105 ∷ [];
  table_name = users;
  schema = none;
  data_type = [];
  size = 4;
  nullable = false;
  primary_key = true;
  unique = true;
  auto_increment = false;
  default_value = none;
  comment = none;
  position = 0;
}

abbrev cells : Memory
cells = record {
  cells = some (table users_table) ∷ some (column id_column) ∷ [];
  grants = λ n. true;
  asked = 0;
}

-- after the clone, the number of columns of the copy
clone_run :
    (metadata_manager_init true none >>= λ m. metadata_create_table 1 cells m 0 >>= λ r.
    metadata_create_column 2 r.0 r.1 1 >>= λ s.
    metadata_clone_table 3 s.0 s.1 users people none >>= λ t.
    metadata_list_columns t.0 t.1 people none >>= λ l. some l.1)
    ≡ some 0
unfolding metadata_manager_init exists_key malloc create_metadata_object metadata_create
    metadata_get find_active load as_table as_column as_index has_key same_schema is_active select
    listing place free_data is_of_type metadata_create_table load_table created
    metadata_create_column load_column metadata_get_table metadata_list_columns column_in
    metadata_list_indexes index_in load_index metadata_create_index metadata_clone_table
    clone_columns clone_indexes clone_listed clone_name state_of bytes_eq set
clone_run = refl

abbrev first : MetadataManager
first = record {
  objects = some [];
  object_count = 0;
  metadata_dir = 46 ∷ 47 ∷ 109 ∷ 101 ∷ 116 ∷ 97 ∷ 100 ∷ 97 ∷ 116 ∷ 97 ∷ [];
  dirty = false;
}

abbrev larger_table : TableMetadata
larger_table = record users_table { row_count = 8 }

abbrev people_table : TableMetadata
people_table = record users_table { name = people }

-- a table is changed, another deleted and created again
abbrev some_calls : List Call
some_calls =
    create 1 users none 1 (table users_table)
    ∷ create 2 people none 1 (table people_table)
    ∷ update 3 users none 1 (table larger_table)
    ∷ delete 4 people none 1
    ∷ create 5 people none 1 (table people_table)
    ∷ []

found_data-run_example :
    (run some_calls (new_memory (λ n. true)) first >>= λ r. found_data r.0 r.1 users none 1)
    ≡ some (some (some (table larger_table)))
unfolding metadata_manager_init is_of_type bytes_eq same_schema
found_data-run_example =
    found_data-run (λ n. true) none first some_calls users none 1 refl (λ n. refl)
      (refl, (refl, (refl, (tt, (refl, tt)))))

abbrev users_object : Metadata
users_object = record {
  name = users;
  schema = none;
  type = 1;
  status = active;
  created_at = 1;
  updated_at = 1;
  contents = some 0;
}

abbrev with_users : MetadataManager
with_users = record first { objects = some (users_object ∷ []); object_count = 1; dirty = true }

rename_table_half_example :
    (mem' : Memory) × (metadata_rename_table 2 cells with_users users people none
      ≡ some (mem', with_users, false))
    × (found_data mem' with_users users none 1 ≡ some (some (some (table people_table))))
unfolding found_data metadata_get load find_active has_key same_schema is_active bytes_eq
rename_table_half_example =
    rename_table_half 2 cells with_users users people none users_table refl refl

update_own_example :
    (mem' : Memory) × (m' : MetadataManager) × (metadata_update 2 cells with_users users none 1
        (some 0)
      ≡ some (mem', m', true))
    × (found_data mem' m' users none 1 ≡ some (some none))
    × ((now' : ℕ) (p : Option ℕ) → metadata_update now' mem' m' users none 1 p ≡ none)
unfolding metadata_get load find_active has_key same_schema is_active bytes_eq is_of_type
update_own_example =
    update_own 2 cells with_users users none 1 users_object (table users_table) refl refl refl

abbrev without_users : MetadataManager
without_users = record with_users {
  objects = some (record users_object { status = deleted; updated_at = 2 } ∷ []);
}

create-delete_example :
    metadata_create 3 cells without_users users none 1 (some 0)
    ≡ (some (cells, without_users, none))
unfolding metadata_delete find_active has_key same_schema is_active bytes_eq set
create-delete_example = create-delete 2 3 cells with_users without_users users none 1 (some 0) refl
