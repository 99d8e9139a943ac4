-- ===== src/BPlusTree/Examples.antt =====
-- Runs of the tree of src/index/b_plus_tree.c.
use micro_meow_db.Prelude.{
  ℕ, ◌≡◌, refl, true, Option, none, some, List, [], ◌∷◌, replicate, if◌then◌else◌, ◌>>=◌, ltb, ◌==◌,
  arith, set,
}
use micro_meow_db.BPlusTree.{
  Order, less, same, greater, BPlusTree, read, write, copy_slot, load, store, modify, modify_any,
  b_plus_tree_create_node, b_plus_tree_create, b_plus_tree_node_is_full, search,
  b_plus_tree_find_key_index, descend, b_plus_tree_find_leaf, is_at, b_plus_tree_find, shift_up,
  move_slots, divide, grow_root, b_plus_tree_split_node, put_in, choose_leaf, b_plus_tree_insert,
}
use micro_meow_db.BPlusTree.Search.{IsOrder}
use micro_meow_db.BPlusTree.Leaf.{leaf_of, Holds}
use micro_meow_db.BPlusTree.History.{insert_all, find-insert_all}
use micro_meow_db.BPlusTree.Full.{find-full_insert}

abbrev by_size : ℕ → ℕ → Order
by_size a b = if ltb a b then less else if a == b then same else greater

by_size-IsOrder : IsOrder by_size
by_size-IsOrder = record {
  self = λ a. ground arith;
  same_left = λ a b c e. ground arith;
  same_right = λ a b c e. ground arith;
  chain = λ a b c e f. ground arith;
  turn = λ a b e. ground arith;
  turn_back = λ a b e. ground arith;
}

abbrev new_tree : BPlusTree ℕ ℕ
new_tree = record {
  memory = record {
    cells = some (leaf_of by_size 4 [] (replicate 4 none) (replicate 4 none)) ∷ [];
    grants = λ n. true;
    asked = 1;
  };
  root = 0;
  first_leaf = 0;
  last_leaf = 0;
  height = 1;
  node_capacity = 4;
  compare = by_size;
}

abbrev some_pairs : List (ℕ × Option ℕ)
some_pairs = (5, some 50) ∷ (3, some 30) ∷ (5, some 51) ∷ []

find-insert_all_example :
    (insert_all some_pairs new_tree >>= λ t. b_plus_tree_find t 5) ≡ some (some 51)
unfolding b_plus_tree_create b_plus_tree_create_node
find-insert_all_example =
    find-insert_all by_size by_size-IsOrder true (λ n. true) 4 4 new_tree some_pairs 5 refl
      (omega arith)

abbrev four : List (ℕ × Option ℕ)
four = (2, some 20) ∷ (4, some 40) ∷ (6, some 60) ∷ (8, some 80) ∷ []

abbrev full_tree : BPlusTree ℕ ℕ
full_tree = record new_tree {
  memory = record {
    cells = some (leaf_of by_size 4 four [] []) ∷ [];
    grants = λ n. true;
    asked = 1;
  };
}

full_tree-Holds : Holds by_size full_tree 4 four
unfolding load
full_tree-Holds = record {
  spare_keys = [];
  spare_values = [];
  compares = refl;
  stored = refl;
  room_keys = refl;
  room_values = refl;
  sorted = ((refl, (refl, (refl, tt))), ((refl, (refl, tt)), ((refl, tt), (tt, tt))));
}

-- the insertion under a small key returns `true`
insert_run : (b_plus_tree_insert full_tree 1 (some 10) >>= λ r. some r.1) ≡ some true
unfolding b_plus_tree_insert b_plus_tree_find_leaf descend load b_plus_tree_find_key_index search
    read is_at b_plus_tree_node_is_full b_plus_tree_split_node b_plus_tree_create_node replicate
    divide move_slots copy_slot write set store modify modify_any grow_root choose_leaf put_in
    shift_up
insert_run = refl

find-full_insert_example :
    (b_plus_tree_insert full_tree 1 (some 10) >>= λ r. b_plus_tree_find r.0 6) ≡ none
find-full_insert_example =
    find-full_insert by_size by_size-IsOrder full_tree 4 four 1 (some 10) 6 (λ n. refl)
      full_tree-Holds refl (λ e. cc, (λ e. cc, (λ e. cc, (λ e. cc, tt))))
