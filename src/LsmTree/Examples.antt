-- ===== src/LsmTree/Examples.antt =====
-- Runs of the tables of src/index/lsm_tree.c.
use micro_meow_db.Prelude.{
  ℕ, ◌≡◌, refl, Bytes, bytes_eq, some, none, [], ◌∷◌, ◌++◌, bytes_eq_refl, true, false, replicate,
  length, length-replicate, arith, ◌>>=◌,
}
use micro_meow_db.LsmTree.{
  LsmTree, LsmMemtable, FlushAnswers, Files, lsm_tree_create, lsm_tree_insert, lsm_tree_delete,
  lsm_tree_get, generate_sstable_filename, entry, put32, read_file, decimal, sstable_get,
  memtable_create, put_active, memtable_put, or_else, memtable_get, find_entry, get32, behind,
  has_key, first,
}
use micro_meow_db.LsmTree.Entries.{Entries, encode}
use micro_meow_db.LsmTree.Tables.{Tables, Stores}
use micro_meow_db.LsmTree.Insertion.{Adds, insert-Adds, deleted_found}
use micro_meow_db.LsmTree.Truncation.{long_file_loses}
use micro_meow_db.LsmTree.Flushing.{meta_of}

abbrev answers : FlushAnswers
answers = record { now = 1700000000; filename = true; opened = true; meta = true; grown = true }

abbrev cat : Bytes
cat = 99 ∷ 97 ∷ 116 ∷ []

abbrev dog : Bytes
dog = 100 ∷ 111 ∷ 103 ∷ []

-- a second insertion under a key, then a search
insert_twice :
    (lsm_tree_create true true [] >>= λ t. lsm_tree_insert true answers [] t cat (1 ∷ []) >>= λ r.
    lsm_tree_insert true answers r.0 r.1 cat (2 ∷ 3 ∷ []) >>= λ s.
    lsm_tree_get true true s.0 s.1 cat)
    ≡ some (some (1 ∷ []))
unfolding lsm_tree_create lsm_tree_insert lsm_tree_get memtable_create put_active memtable_put entry
    put32 or_else memtable_get find_entry get32 behind has_key first bytes_eq
insert_twice = refl

-- the name of a file, `/0_1700000000.sst`
abbrev name : Bytes
name = 47 ∷ 48 ∷ 95 ∷ 49 ∷ 55 ∷ 48 ∷ 48 ∷ 48 ∷ 48 ∷ 48 ∷ 48 ∷ 48 ∷ 48 ∷ 46 ∷ 115 ∷ 115 ∷ 116 ∷ []

file_name : generate_sstable_filename true 1700000000 [] 0 ≡ some name
unfolding generate_sstable_filename decimal
file_name = refl

-- a file with an old value, and a new value in memory
abbrev old_entries : Entries
old_entries = (cat, 1 ∷ []) ∷ []

abbrev entries : Entries
entries = (cat, 2 ∷ []) ∷ []

abbrev files : Files
files = (111 ∷ [], 1 ∷ 0 ∷ 0 ∷ 0 ∷ 3 ∷ 0 ∷ 0 ∷ 0 ∷ 1 ∷ 0 ∷ 0 ∷ 0 ∷ 99 ∷ 97 ∷ 116 ∷ 1 ∷ []) ∷ []

abbrev tables : Tables
tables = (meta_of (111 ∷ []) old_entries, old_entries) ∷ []

abbrev table : LsmMemtable
table = record {
  content = 3 ∷ 0 ∷ 0 ∷ 0 ∷ 1 ∷ 0 ∷ 0 ∷ 0 ∷ 99 ∷ 97 ∷ 116 ∷ 2 ∷ [];
  capacity = 10485760;
  immutable = false;
}

abbrev tree : LsmTree
tree = record {
  active_memtable = some table;
  immutable_memtable = none;
  level0 = record { tables = some (meta_of (111 ∷ []) old_entries ∷ []); count = 1 };
  level1 = record { tables = none; count = 0 };
  level2 = record { tables = none; count = 0 };
  base_dir = [];
}

tree-Stores : Stores files tree entries [] tables
unfolding entry put32 read_file bytes_eq
tree-Stores = record {
  active = table;
  is_active = refl;
  holds = record { content = refl; within = omega arith; capacity = refl };
  mutable = refl;
  frozen = refl;
  tables = refl;
  kept = ((refl, omega arith), tt);
  count = refl;
  few = omega arith;
  none1 = refl;
  none2 = refl;
}

insert-Adds_example :
    Adds files tree entries [] tables dog
      (7 ∷ [])
      (lsm_tree_insert true answers files tree dog (7 ∷ []))
unfolding tree-Stores
insert-Adds_example =
    insert-Adds true answers files tree entries [] tables dog (7 ∷ []) tree-Stores (omega arith)

deleted_found_example :
    (tree' : LsmTree) × (lsm_tree_delete true answers files tree cat ≡ some (files, tree', true))
    × (lsm_tree_get true true files tree' cat ≡ some (some (2 ∷ [])))
unfolding bytes_eq tree-Stores
deleted_found_example =
    deleted_found true answers files tree entries [] tables cat tree-Stores (omega arith)

abbrev long : Bytes
long = replicate 10485740 0

-- a file with a value of 2 ^ 20 bytes in front of another entry
abbrev zeros : Bytes
zeros = replicate 1048576 0

length-zeros : length zeros ≡ 1048576
length-zeros = length-replicate {A = ℕ} 1048576 0

abbrev long_file : Bytes
long_file = put32 2 ++ encode ((dog, zeros) ∷ (cat, 1 ∷ []) ∷ [])

name_found : read_file ((name, long_file) ∷ []) name ≡ some long_file
unfolding read_file
name_found = rw (bytes_eq_refl name) refl

long_file_loses_example : sstable_get true true ((name, long_file) ∷ []) name cat ≡ some none
unfolding bytes_eq
long_file_loses_example =
    long_file_loses ((name, long_file) ∷ []) name 2 [] dog zeros ((cat, 1 ∷ []) ∷ []) cat name_found
      (omega arith) (omega (arith, length-zeros)) (omega (arith, length-zeros)) refl
