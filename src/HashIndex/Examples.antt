-- ===== src/HashIndex/Examples.antt =====
-- src/index/hash_index.c on a small table, and the theorems at concrete inputs.
use micro_meow_db.Prelude.{
  ◌^◌, ◌≡◌, refl, true, ◌==◌, none, some, List, [], ◌∷◌, bytes_eq, get_or, set, replicate, not,
  arith,
}
use micro_meow_db.HashIndex.{
  HashIndex, Alloc, hash_loop, hash_function, hash_node_create, hash_index_create, find_node,
  update_node, unlink_node, hash_index_insert, hash_index_get, hash_index_delete, hash_index_size,
}
use micro_meow_db.HashIndex.Laws.{IsValid, empty}
use micro_meow_db.HashIndex.History.{Call, insert, delete, apply, run, replay, get-run}

abbrev granted : Alloc
granted i = true

-- the copy of the value cannot be allocated
abbrev third_refused : Alloc
third_refused i = not (i == 2)

program : Unit {0}
unfolding hash_loop hash_function hash_node_create hash_index_create find_node update_node
    unlink_node hash_index_insert hash_index_get hash_index_delete hash_index_size apply run replay
    bytes_eq get_or set replicate
program = tt

abbrev calls : List Call
calls =
    insert granted (97 ∷ []) (1 ∷ [])
    ∷ insert granted (99 ∷ []) (2 ∷ 3 ∷ [])
    ∷ insert third_refused (101 ∷ []) (4 ∷ [])
    ∷ insert granted (97 ∷ []) (5 ∷ [])
    ∷ delete (99 ∷ [])
    ∷ []

-- 193485963 is the hash of "abc" in 32 bits
hash_of_abc : hash_function (97 ∷ 98 ∷ 99 ∷ []) (2 ^ 32) ≡ 193485963
unfolding program
hash_of_abc = refl

-- a byte above 127 is added as a negative char
hash_of_high_byte : hash_function (255 ∷ []) (2 ^ 32) ≡ 177572
unfolding program
hash_of_high_byte = refl

calls_view : replay calls (empty 2) (λ _. none) (97 ∷ []) ≡ some (5 ∷ [])
unfolding program
calls_view = refl

get-run_example :
    (index' : HashIndex) × (run calls (empty 2) ≡ some index')
    × IsValid index'
    × (hash_index_get granted index' (some (97 ∷ [])) ≡ (some 1, some (5 ∷ [])))
unfolding program
get-run_example =
    get-run granted granted 2 (empty 2) calls (97 ∷ []) refl
      (omega arith, (omega arith, (omega arith, (omega arith, (tt, tt)))))
