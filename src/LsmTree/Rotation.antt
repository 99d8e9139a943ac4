-- ===== src/LsmTree/Rotation.antt =====
-- An insertion of src/index/lsm_tree.c for which the active table is full, and what searches find
-- after it.
use micro_meow_db.Prelude.{
  ◌+◌, ◌-◌, ◌^◌, ◌≤◌, ◌<◌, ◌≡◌, Bool, true, false, Option, none, some, [], ◌∷◌, ◌++◌, Bytes,
  bytes_eq, length,
}
use micro_meow_db.LsmTree.{
  LsmTree, LsmMemtable, Files, FlushAnswers, put32, read_file, write_file, lsm_tree_get,
}
use micro_meow_db.LsmTree.Entries.{Entries, encode, prefer, first_value}
use micro_meow_db.LsmTree.Tables.{Tables, first_table, Stores}
use micro_meow_db.LsmTree.Flushing.{Succeeds, meta_of}

-- a tree whose active table has no room for an entry, and a flush of it that succeeds
pub record Turns (a : FlushAnswers) (files : Files) (tree : LsmTree) (es : Entries) (ts : Tables)
    (key value name : Bytes) : Type 0 where
  pub stores : Stores files tree es [] ts
  pub no_frozen : tree.immutable_memtable ≡ none
  pub full : stores.active.capacity < length stores.active.content + length key + length value + 8
  pub fits : length key + length value + 8 ≤ 10485760
  pub readable : length (encode es) ≤ 1048576
  pub few : length ts < 2 ^ 32 - 2
  pub succeeds : Succeeds a tree name
  pub fresh : read_file files name ≡ none

abbrev fresh_table : LsmMemtable
fresh_table = record { content = []; capacity = 10485760; immutable = false }

-- the tree before its new active table gets the entry
abbrev turned : LsmTree → LsmMemtable → LsmTree
turned tree t = record tree {
  immutable_memtable = some (record t { immutable = true });
  active_memtable = some fresh_table;
}

abbrev new_files : Files → Bytes → Entries → Files
new_files files name es = write_file files name (put32 (length es) ++ encode es)

-- what an insertion into a full table leaves to the searches
pub record Revives (files : Files) (es : Entries) (ts : Tables) (key value name : Bytes)
    (r : Option (Files × LsmTree × Bool)) : Type 0 where
  pub tree' : LsmTree
  pub done : r ≡ some (new_files files name es, tree', true)
  pub stores :
      Stores
        (new_files files name es)
        tree'
        ((key, value) ∷ [])
        []
        (ts ++ (meta_of name es, es) ∷ [])
  pub own : lsm_tree_get true true (new_files files name es) tree' key ≡ some (some value)
  pub others :
      (wanted : Bytes)
      → bytes_eq key wanted ≡ false
      → lsm_tree_get true true (new_files files name es) tree' wanted
        ≡ some (prefer (first_table ts wanted) (first_value es wanted))
