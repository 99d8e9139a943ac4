-- ===== src/Metadata.antt =====
-- src/metadata/metadata.c: the catalogue of databases, tables, columns and indexes. The data of an
-- object is a pointer that the caller hands over, so the data stand in a memory of cells, where a
-- freed cell is `none`. Outside, `none` is what C leaves undefined: a second `free`, a read of freed
-- memory, of `NULL` or of data of another type. The files are left out: `metadata_load` reads none of
-- them, so nothing that is written comes back. Names are never `NULL`, and `strdup` succeeds.
pub mod Objects
pub mod Fates
pub mod Ownership
pub mod Calls
pub mod Creation
pub mod Change
pub mod Deletion
pub mod History
pub mod Faults
pub mod Tables
pub mod Renaming
mod Examples
use micro_meow_db.Prelude.{
  ℕ, zero, suc, ◌+◌, ◌%◌, ◌^◌, Bool, true, false, ◌&&◌, Option, none, some, List, [], ◌∷◌, ◌++◌,
  Bytes, bytes_eq, length, get_elem?, set, ◌==◌, if◌then◌else◌, ◌>>=◌,
}

pub record TableMetadata : Type 0 where
  pub name : Bytes
  pub schema : Option Bytes
  pub engine : Option Bytes
  pub charset : Option Bytes
  pub collation : Option Bytes
  pub row_format : Bool
  pub auto_increment : Bool
  pub row_count : ℕ
  pub data_size : ℕ
  pub index_size : ℕ
  pub comment : Option Bytes

pub record ColumnMetadata : Type 0 where
  pub name : Bytes
  pub table_name : Bytes
  pub schema : Option Bytes
  pub data_type : Bytes
  pub size : ℕ
  pub nullable : Bool
  pub primary_key : Bool
  pub unique : Bool
  pub auto_increment : Bool
  pub default_value : Option Bytes
  pub comment : Option Bytes
  pub position : ℕ

pub record IndexMetadata : Type 0 where
  pub name : Bytes
  pub table_name : Bytes
  pub schema : Option Bytes
  pub index_type : Bytes
  pub unique : Bool
  pub primary : Bool
  pub columns : List Bytes
  pub comment : Option Bytes

pub data ObjectData : Type 0 where
  table : TableMetadata → ObjectData
  column : ColumnMetadata → ObjectData
  index : IndexMetadata → ObjectData
  -- the data of any other object
  plain : ObjectData

-- The cells by address, and the answers of the allocator: the next one is at `asked`.
pub record Memory : Type 0 where
  pub cells : List (Option ObjectData)
  pub grants : ℕ → Bool
  pub asked : ℕ

unfoldable pub malloc : Memory → Memory × Bool
malloc mem = (record mem { asked = mem.asked + 1 }, mem.grants mem.asked)

-- a new cell, with its address
unfoldable pub place : Memory → ObjectData → Memory × ℕ
place mem d = (record mem { cells = mem.cells ++ some d ∷ [] }, length mem.cells)

unfoldable pub load : Memory → Option ℕ → Option ObjectData
load mem none = none
load mem (some p) = get_elem? mem.cells p >>= λ cell. cell

unfoldable pub store : Memory → ℕ → ObjectData → Memory
store mem p d = record mem { cells = set mem.cells p (some d) }

pub data ObjectStatus : Type 0 where
  active deleted inactive : ObjectStatus

pub record Metadata : Type 0 where
  pub name : Bytes
  pub schema : Option Bytes
  pub type : ℕ
  pub status : ObjectStatus
  pub created_at : ℕ
  pub updated_at : ℕ
  pub contents : Option ℕ

-- `objects` is `none` for the `NULL` that a failed `realloc` leaves in place of the array.
pub record MetadataManager : Type 0 where
  pub objects : Option (List Metadata)
  pub object_count : ℕ
  pub metadata_dir : Bytes
  pub dirty : Bool

unfoldable pub as_table : ObjectData → Option TableMetadata
as_table (table t) = some t
as_table _ = none

unfoldable pub as_column : ObjectData → Option ColumnMetadata
as_column (column c) = some c
as_column _ = none

unfoldable pub as_index : ObjectData → Option IndexMetadata
as_index (index i) = some i
as_index _ = none

-- whether the data are what the casts for an object of the type take them for
unfoldable pub is_of_type : ℕ → ObjectData → Bool
is_of_type type (table t) = if type == 2 then false else if type == 3 then false else true
is_of_type type (column c) = if type == 1 then false else if type == 3 then false else true
is_of_type type (index i) = if type == 1 then false else if type == 2 then false else true
is_of_type type plain =
    if type == 1 then false else if type == 2 then false else if type == 3 then false else true

-- The data of an object are freed, with what they own.
unfoldable pub free_data : Memory → ℕ → Option ℕ → Option Memory
free_data mem type none = some mem
free_data mem type (some p) = do
  d ← load mem (some p)
  if is_of_type type d then some (record mem { cells = set mem.cells p none }) else none

unfoldable pub metadata_manager_init : Bool → Option Bytes → Option MetadataManager
metadata_manager_init granted dir =
    if granted
    then some (record {
      objects = some [];
      object_count = 0;
      metadata_dir = elim dir [
        | none ↦ 46 ∷ 47 ∷ 109 ∷ 101 ∷ 116 ∷ 97 ∷ 100 ∷ 97 ∷ 116 ∷ 97 ∷ []
        | some d ↦ d
      ];
      dirty = false;
    })
    else none

unfoldable pub create_metadata_object :
    ℕ → Bytes → Option Bytes → ℕ → ObjectStatus → Option ℕ → Metadata
create_metadata_object now name schema type status contents = record {
  name = name;
  schema = schema;
  type = type;
  status = status;
  created_at = now;
  updated_at = now;
  contents = contents;
}

unfoldable pub same_schema : Option Bytes → Option Bytes → Bool
same_schema none none = true
same_schema none (some t) = false
same_schema (some s) none = false
same_schema (some s) (some t) = bytes_eq s t

unfoldable pub has_key : Metadata → Bytes → Option Bytes → ℕ → Bool
has_key o name schema type = (o.type == type) && bytes_eq o.name name && same_schema schema o.schema

unfoldable pub is_active : Metadata → Bool
is_active o = elim o.status [ active ↦ true | _ ↦ false ]

unfoldable pub exists_key : List Metadata → Bytes → Option Bytes → ℕ → Bool
exists_key [] name schema type = false
exists_key (o ∷ os) name schema type =
    let rest = exists_key os name schema type in if has_key o name schema type then true else rest

-- The object, which is also the last one of the array, or `none` for `NULL`. Where the array cannot
-- grow, its pointer is lost, and the object is destroyed with the data that the caller handed over.
unfoldable pub metadata_create :
    ℕ
    → Memory
    → MetadataManager
    → Bytes
    → Option Bytes
    → ℕ
    → Option ℕ
    → Option (Memory × MetadataManager × Option Metadata)
metadata_create now mem m name schema type contents = do
  os ← m.objects
  let (mem₁, one) = malloc mem
  let (mem₂, two) = malloc mem₁
  let o = create_metadata_object now name schema type active contents
  if exists_key os name schema type
      then some (mem, m, none)
      else if one
      then if two
        then some (
          mem₂,
          record m {
            objects = some (os ++ o ∷ []);
            object_count = (m.object_count + 1) % 2 ^ 64;
            dirty = true;
          },
          some o,
        )
        else (free_data mem₂ type contents >>= λ mem'.
            some (mem', record m { objects = if m.object_count == 0 then some [] else none }, none))
      else some (mem₁, m, none)

-- the first active object with a key, and its place
unfoldable pub find_active : List Metadata → Bytes → Option Bytes → ℕ → Option (ℕ × Metadata)
find_active [] name schema type = none
find_active (o ∷ os) name schema type =
    let rest = find_active os name schema type >>= λ r. some (suc r.0, r.1) in
    if has_key o name schema type && is_active o then some (0, o) else rest

unfoldable pub metadata_get : MetadataManager → Bytes → Option Bytes → ℕ → Option (Option Metadata)
metadata_get m name schema type =
    m.objects >>= λ os. some (find_active os name schema type >>= λ r. some r.1)

unfoldable pub metadata_update :
    ℕ
    → Memory
    → MetadataManager
    → Bytes
    → Option Bytes
    → ℕ
    → Option ℕ
    → Option (Memory × MetadataManager × Bool)
metadata_update now mem m name schema type contents = m.objects >>= λ os.
    elim (find_active os name schema type) [
      | none ↦ some (mem, m, false)
      | some (i, o) ↦ free_data mem type o.contents >>= λ mem'. some (
        mem',
        record m {
          objects = some (set os i (record o { contents = contents; updated_at = now }));
          dirty = true;
        },
        true,
      )
    ]

unfoldable pub metadata_delete :
    ℕ → MetadataManager → Bytes → Option Bytes → ℕ → Option (MetadataManager × Bool)
metadata_delete now m name schema type = m.objects >>= λ os.
    elim (find_active os name schema type) [
      | none ↦ some (m, false)
      | some (i, o) ↦ some (
        record m {
          objects = some (set os i (record o { status = deleted; updated_at = now }));
          dirty = true;
        },
        true,
      )
    ]

-- The objects that a test selects: the test may read freed memory.
unfoldable pub select : (Metadata → Option Bool) → List Metadata → Option (List Metadata)
select test [] = some []
select test (o ∷ os) = do
  here ← test o
  rest ← select test os
  some (if here then o ∷ rest else rest)

-- What a listing returns: the number, and the array if it can be had.
unfoldable pub listing : Memory → List Metadata → Memory × ℕ × Option (List Metadata)
listing mem os =
    let (mem', granted) = malloc mem in
    if granted then (mem', length os, some os) else (mem', 0, none)

unfoldable pub metadata_list :
    Memory → MetadataManager → ℕ → Option (Memory × ℕ × Option (List Metadata))
metadata_list mem m type = m.objects >>= λ os.
    select (λ o. some ((o.type == type) && is_active o)) os >>= λ r. some (listing mem r)
