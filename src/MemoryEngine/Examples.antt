-- ===== src/MemoryEngine/Examples.antt =====
-- Concrete runs of the memory engine.
use micro_meow_db.Prelude.{
  ◌≡◌, refl, Bool, true, false, none, some, [], ◌∷◌, replicate, set, get_or, bytes_eq, ◌∙◌,
  length-set, length-replicate, arith,
}
use micro_meow_db.MemoryEngine.{
  Row, MemoryEngineTableData, MemoryEngineData, memory_engine_rollback_transaction,
  memory_engine_select, insert_row, is_full, memory_engine_get_table_data, find_row,
}
use micro_meow_db.MemoryEngine.Rollback.{select-rollback}
use micro_meow_db.MemoryEngine.Selection.{select-lookup}
use micro_meow_db.MemoryEngine.Rows.{IsTable, lookup, Puts, insert_row-Puts}

abbrev users : MemoryEngineTableData
users = record {
  table = record { name = 117 ∷ []; row_count = 0 };
  rows = replicate 1024 [];
  row_count = 0;
  capacity = 1024;
  next_row_id = 1;
  transaction_id = 0;
  in_transaction = false;
}

abbrev engine : MemoryEngineData
engine = record { tables = users ∷ []; next_transaction_id = 1 }

abbrev row : Row
row = record { values = none ∷ []; deleted = false; version = 0 }

users-IsTable : IsTable users
users-IsTable = record { positive = omega arith; sized = length-replicate 1024 [] }

select-rollback_example :
    memory_engine_select (true, λ _. true) (memory_engine_rollback_transaction engine) (117 ∷ []) 1
    ≡ memory_engine_select (true, λ _. true) engine (117 ∷ []) 1
select-rollback_example = select-rollback (true, λ _. true) engine (117 ∷ []) 1

insert_row-Puts_example :
    (r : MemoryEngineTableData × Bool) × (insert_row (true, true) row users ≡ some r)
    × (r.1 ≡ true)
    × Puts users 1 row r
unfolding is_full
insert_row-Puts_example = insert_row-Puts (true, true) users row users-IsTable refl

abbrev filled : MemoryEngineTableData
filled = record users { rows = set users.rows 1 (record { row = row; row_id = 1 } ∷ []) }

filled-IsTable : IsTable filled
filled-IsTable = record {
  positive = omega arith;
  sized = length-set (replicate 1024 []) 1 _ ∙ length-replicate 1024 [];
}

abbrev filled_engine : MemoryEngineData
filled_engine = record { tables = filled ∷ []; next_transaction_id = 1 }

filled_table : memory_engine_get_table_data filled_engine.tables (117 ∷ []) ≡ some filled
unfolding memory_engine_get_table_data bytes_eq
filled_table = refl

filled_row : lookup filled 1 ≡ some row
unfolding find_row get_or set replicate
filled_row = refl

select-lookup_example :
    memory_engine_select (true, λ _. true) filled_engine (117 ∷ []) 1
    ≡ some (some (record row { values = none ∷ [] }))
select-lookup_example =
    select-lookup filled_engine (117 ∷ []) 1 filled row filled_table filled-IsTable filled_row
