-- ===== src/MemoryEngine.antt =====
-- src/storage/memory_engine.c: tables whose rows stand in a hash table by row number. `none` outside
-- is what C leaves undefined: a division by 0, an access past an array or a value, a loop that does
-- not end. A bucket is the list of its rows in the order of the next fields. The names of tables are
-- their bytes before the final 0, and no table is persistent, as the only constructor makes them.
pub mod Rollback
pub mod Rows
pub mod Selection
mod Examples
use micro_meow_db.Prelude.{
  ℕ, zero, suc, ◌+◌, ◌-◌, ◌*◌, ◌/◌, ◌%◌, ◌^◌, Bool, true, false, Option, none, some, List, [], ◌∷◌,
  ◌++◌, Bytes, bytes_eq, length, get_or, get_elem?, set, replicate, ltb, leb, ◌==◌, if◌then◌else◌,
  ◌>>=◌,
}

-- `value_count` is the length of `values`, and a `NULL` among them is `none`.
pub record Row : Type 0 where
  pub values : List (Option Bytes)
  pub deleted : Bool
  pub version : ℕ

pub record Table : Type 0 where
  pub name : Bytes
  pub row_count : ℕ

pub record MemoryEngineRow : Type 0 where
  pub row : Row
  pub row_id : ℕ

pub record MemoryEngineTableData : Type 0 where
  pub table : Table
  pub rows : List (List MemoryEngineRow)
  pub row_count : ℕ
  pub capacity : ℕ
  pub next_row_id : ℕ
  pub transaction_id : ℕ
  pub in_transaction : Bool

-- `table_count` is the length of `tables`.
pub record MemoryEngineData : Type 0 where
  pub tables : List MemoryEngineTableData
  pub next_transaction_id : ℕ

unfoldable pub memory_engine_hash : ℕ → ℕ → ℕ
memory_engine_hash row_id capacity = row_id % capacity

unfoldable pub create_memory_engine : Bool → Option MemoryEngineData
create_memory_engine granted =
    if granted then some (record { tables = []; next_transaction_id = 1 }) else none

unfoldable pub memory_engine_get_table_data :
    List MemoryEngineTableData → Bytes → Option MemoryEngineTableData
memory_engine_get_table_data [] name = none
memory_engine_get_table_data (t ∷ ts) name =
    if bytes_eq t.table.name name then some t else memory_engine_get_table_data ts name

-- the search for a table, then what a call does to it; `false` where there is none
unfoldable pub on_table :
    (MemoryEngineTableData → Option (MemoryEngineTableData × Bool))
    → List MemoryEngineTableData
    → Bytes
    → Option (List MemoryEngineTableData × Bool)
on_table f [] name = some ([], false)
on_table f (t ∷ ts) name =
    if bytes_eq t.table.name name
    then (f t >>= λ r. some (r.0 ∷ ts, r.1))
    else (on_table f ts name >>= λ r. some (t ∷ r.0, r.1))

-- the bucket of a row number
unfoldable pub bucket : MemoryEngineTableData → ℕ → Option (List MemoryEngineRow)
bucket t row_id =
    if t.capacity == 0 then none else get_elem? t.rows (memory_engine_hash row_id t.capacity)

-- a row put in front of its bucket
unfoldable pub push_row :
    List (List MemoryEngineRow) → ℕ → MemoryEngineRow → List (List MemoryEngineRow)
push_row rows capacity r =
    let hash = memory_engine_hash r.row_id capacity in set rows hash (r ∷ get_or rows hash [])

unfoldable pub rehash_bucket :
    ℕ → List MemoryEngineRow → List (List MemoryEngineRow) → List (List MemoryEngineRow)
rehash_bucket capacity [] rows = rows
rehash_bucket capacity (r ∷ rs) rows = rehash_bucket capacity rs (push_row rows capacity r)

unfoldable pub rehash :
    ℕ → List (List MemoryEngineRow) → List (List MemoryEngineRow) → List (List MemoryEngineRow)
rehash capacity [] rows = rows
rehash capacity (b ∷ bs) rows = rehash capacity bs (rehash_bucket capacity b rows)

unfoldable pub memory_engine_expand_table :
    Bool → MemoryEngineTableData → ℕ → MemoryEngineTableData × Bool
memory_engine_expand_table granted t new_capacity =
    if leb new_capacity t.capacity
    then (t, false)
    else if granted
    then (
      record t {
        rows = rehash new_capacity t.rows (replicate new_capacity []);
        capacity = new_capacity;
      },
      true,
    )
    else (t, false)

-- `granted` stands for the allocations of the table data, of its buckets and of the longer list.
unfoldable pub memory_engine_create_table :
    Bool → MemoryEngineData → Table → MemoryEngineData × Bool
memory_engine_create_table granted engine table =
    elim (memory_engine_get_table_data engine.tables table.name) [
      | some t ↦ (engine, false)
      | none ↦
          if granted
          then (
            record engine {
              tables =
                  engine.tables
                  ++ record {
                    table = table;
                    rows = replicate 1024 [];
                    row_count = 0;
                    capacity = 1024;
                    next_row_id = 1;
                    transaction_id = 0;
                    in_transaction = false;
                  }
                    ∷ [];
            },
            true,
          )
          else (engine, false)
    ]

unfoldable pub drop_from : List MemoryEngineTableData → Bytes → List MemoryEngineTableData × Bool
drop_from [] name = ([], false)
drop_from (t ∷ ts) name =
    let rest = drop_from ts name in
    if bytes_eq t.table.name name then (ts, true) else (t ∷ rest.0, rest.1)

unfoldable pub memory_engine_drop_table : MemoryEngineData → Bytes → MemoryEngineData × Bool
memory_engine_drop_table engine name =
    let r = drop_from engine.tables name in (record engine { tables = r.0 }, r.1)

unfoldable pub memory_engine_get_table : MemoryEngineData → Bytes → Option Table
memory_engine_get_table engine name =
    memory_engine_get_table_data engine.tables name >>= λ t. some t.table

-- the part of an insertion that gives the row a number and puts it into its bucket
unfoldable pub add_row : Bool → MemoryEngineTableData → Row → Option (MemoryEngineTableData × Bool)
add_row granted t row = do
  let row_id = t.next_row_id
  let next = record t { next_row_id = (t.next_row_id + 1) % 2 ^ 64 }
  old ← bucket t row_id
  some (
      if granted
      then (
        record next { rows = push_row t.rows t.capacity (record { row = row; row_id = row_id }) },
        true,
      )
      else (next, false))

-- the new number of rows, in the table data and in the table
unfoldable pub count_rows : MemoryEngineTableData → ℕ → MemoryEngineTableData
count_rows t n = record t { row_count = n; table = record t.table { row_count = n } }

-- `row_count >= capacity * 0.75`, exact in a double for numbers below 2 ^ 51
unfoldable pub is_full : ℕ → ℕ → Bool
is_full row_count capacity = leb (3 * capacity) (4 * row_count)

-- `granted` answers for the buckets of an enlarged table and for the row.
unfoldable pub insert_row :
    Bool × Bool → Row → MemoryEngineTableData → Option (MemoryEngineTableData × Bool)
insert_row granted row t =
    let room =
      if is_full t.row_count t.capacity
      then memory_engine_expand_table granted.0 t (t.capacity * 2 % 2 ^ 64)
      else (t, true) in
    if room.1
    then (add_row granted.1 room.0 row >>= λ r.
        some (if r.1 then count_rows r.0 ((r.0.row_count + 1) % 2 ^ 64) else r.0, r.1))
    else some (room.0, false)

unfoldable pub memory_engine_insert :
    Bool × Bool → MemoryEngineData → Bytes → Option Row → Option (MemoryEngineData × Bool)
memory_engine_insert granted engine name none = some (engine, false)
memory_engine_insert granted engine name (some row) =
    on_table (insert_row granted row) engine.tables name >>= λ r.
    some (record engine { tables = r.0 }, r.1)

-- the loop that doubles the capacity, on fuel
unfoldable pub grow_capacity : ℕ → ℕ → ℕ → Option ℕ
grow_capacity zero needed capacity = none
grow_capacity (suc fuel) needed capacity =
    let rest = grow_capacity fuel needed (capacity * 2 % 2 ^ 64) in
    if is_full needed capacity then rest else some capacity

-- the loop over the rows of a batch
unfoldable pub add_rows :
    (ℕ → Bool) → ℕ → List Row → MemoryEngineTableData → Option (MemoryEngineTableData × Bool)
add_rows granted i [] t = some (t, true)
add_rows granted i (row ∷ rows) t = do
  (next, done) ← add_row (granted i) t row
  if done then add_rows granted (i + 1) rows next else some (next, false)

unfoldable pub insert_rows :
    ℕ → Bool × (ℕ → Bool) → List Row → MemoryEngineTableData → Option (MemoryEngineTableData × Bool)
insert_rows fuel granted rows t = do
  let needed = (t.row_count + length rows) % 2 ^ 64
  (room, wide) ←
      if is_full needed t.capacity
      then (grow_capacity fuel needed t.capacity >>= λ c.
          some (memory_engine_expand_table granted.0 t c))
      else some (t, true)
  if wide
      then (add_rows granted.1 0 rows room >>= λ r.
          some (if r.1 then count_rows r.0 needed else r.0, r.1))
      else some (room, false)

unfoldable pub memory_engine_batch_insert :
    ℕ → Bool × (ℕ → Bool) → MemoryEngineData → Bytes → List Row → Option (MemoryEngineData × Bool)
memory_engine_batch_insert fuel granted engine name [] = some (engine, false)
memory_engine_batch_insert fuel granted engine name (row ∷ rows) =
    on_table (insert_rows fuel granted (row ∷ rows)) engine.tables name >>= λ r.
    some (record engine { tables = r.0 }, r.1)

unfoldable pub find_row : List MemoryEngineRow → ℕ → Option Row
find_row [] row_id = none
find_row (r ∷ rs) row_id = if r.row_id == row_id then some r.row else find_row rs row_id

unfoldable pub replace_row : List MemoryEngineRow → ℕ → Row → List MemoryEngineRow × Bool
replace_row [] row_id row = ([], false)
replace_row (r ∷ rs) row_id row =
    let rest = replace_row rs row_id row in
    if r.row_id == row_id then (record r { row = row } ∷ rs, true) else (r ∷ rest.0, rest.1)

unfoldable pub remove_row : List MemoryEngineRow → ℕ → List MemoryEngineRow × Bool
remove_row [] row_id = ([], false)
remove_row (r ∷ rs) row_id =
    let rest = remove_row rs row_id in
    if r.row_id == row_id then (rs, true) else (r ∷ rest.0, rest.1)

unfoldable pub update_row : ℕ → Row → MemoryEngineTableData → Option (MemoryEngineTableData × Bool)
update_row row_id row t = do
  old ← bucket t row_id
  let new = replace_row old row_id row
  some (record t { rows = set t.rows (memory_engine_hash row_id t.capacity) new.0 }, new.1)

unfoldable pub memory_engine_update :
    MemoryEngineData → Bytes → ℕ → Option Row → Option (MemoryEngineData × Bool)
memory_engine_update engine name row_id none = some (engine, false)
memory_engine_update engine name row_id (some row) =
    on_table (update_row row_id row) engine.tables name >>= λ r.
    some (record engine { tables = r.0 }, r.1)

unfoldable pub delete_row : ℕ → MemoryEngineTableData → Option (MemoryEngineTableData × Bool)
delete_row row_id t = do
  old ← bucket t row_id
  let new = remove_row old row_id
  let next = record t { rows = set t.rows (memory_engine_hash row_id t.capacity) new.0 }
  some (if new.1 then count_rows next ((t.row_count + (2 ^ 64 - 1)) % 2 ^ 64) else next, new.1)

unfoldable pub memory_engine_delete :
    MemoryEngineData → Bytes → ℕ → Option (MemoryEngineData × Bool)
memory_engine_delete engine name row_id = on_table (delete_row row_id) engine.tables name >>= λ r.
    some (record engine { tables = r.0 }, r.1)

-- `memcpy` of the first bytes of a value
unfoldable pub first_bytes : ℕ → Bytes → Bytes
first_bytes zero v = []
first_bytes (suc n) [] = []
first_bytes (suc n) (b ∷ v) = b ∷ first_bytes n v

-- A copy takes 64 bytes of every value, however many it has.
unfoldable pub copy_values : (ℕ → Bool) → ℕ → List (Option Bytes) → Option (List (Option Bytes))
copy_values granted i [] = some []
copy_values granted i (none ∷ vs) = do rest ← copy_values granted (i + 1) vs; some (none ∷ rest)
copy_values granted i (some v ∷ vs) = do
  rest ← copy_values granted (i + 1) vs
  if granted i
      then (if ltb (length v) 64 then none else some (some (first_bytes 64 v) ∷ rest))
      else some (none ∷ rest)

-- the outer `none` undefined behaviour, the inner one the `NULL` that is returned
unfoldable pub memory_engine_select :
    Bool × (ℕ → Bool) → MemoryEngineData → Bytes → ℕ → Option (Option Row)
memory_engine_select granted engine name row_id =
    elim (memory_engine_get_table_data engine.tables name) [
      | none ↦ some none
      | some t ↦ do
        rows ← bucket t row_id
        elim (find_row rows row_id) [
          | none ↦ some none
          | some row ↦
              if granted.0
              then (copy_values granted.1 0 row.values >>= λ vs.
                  some (some (record row { values = vs })))
              else some none
        ]
    ]

unfoldable pub begin_tables : ℕ → List MemoryEngineTableData → List MemoryEngineTableData
begin_tables id [] = []
begin_tables id (t ∷ ts) =
    record t { transaction_id = id; in_transaction = true } ∷ begin_tables id ts

unfoldable pub memory_engine_begin_transaction : MemoryEngineData → MemoryEngineData
memory_engine_begin_transaction engine = record {
  tables = begin_tables engine.next_transaction_id engine.tables;
  next_transaction_id = (engine.next_transaction_id + 1) % 2 ^ 64;
}

unfoldable pub end_tables : List MemoryEngineTableData → List MemoryEngineTableData
end_tables [] = []
end_tables (t ∷ ts) = record t { in_transaction = false } ∷ end_tables ts

unfoldable pub memory_engine_commit_transaction : MemoryEngineData → MemoryEngineData
memory_engine_commit_transaction engine = record engine { tables = end_tables engine.tables }

unfoldable pub memory_engine_rollback_transaction : MemoryEngineData → MemoryEngineData
memory_engine_rollback_transaction engine = record engine { tables = end_tables engine.tables }

unfoldable pub optimize_table : Bool → MemoryEngineTableData → Option (MemoryEngineTableData × Bool)
optimize_table granted t =
    if ltb (4 * t.row_count) t.capacity
    then (let half = t.capacity / 2 in
        let new_capacity = if ltb half 1024 then 1024 else half in
        some ((memory_engine_expand_table granted t new_capacity).0, true))
    else some (t, true)

unfoldable pub memory_engine_optimize :
    Bool → MemoryEngineData → Bytes → Option (MemoryEngineData × Bool)
memory_engine_optimize granted engine name =
    on_table (optimize_table granted) engine.tables name >>= λ r.
    some (record engine { tables = r.0 }, r.1)
