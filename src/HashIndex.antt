-- ===== src/HashIndex.antt =====
-- src/index/hash_index.c: a table of chains, each newest first. A chain of nodes is a list, and the
-- answers of the allocator within one call are a function from the call's number: 0 for the
-- first `malloc` or `realloc` of the operation on its path, and so on.
pub mod Chain
pub mod Laws
pub mod History
mod Examples
use micro_meow_db.Prelude.{
  ℕ, zero, ◌+◌, ◌-◌, ◌*◌, ◌%◌, ◌^◌, Bool, true, false, ◌&&◌, Option, none, some, List, [], ◌∷◌,
  Bytes, bytes_eq, length, get_or, set, replicate, ltb, ◌==◌, if◌then◌else◌,
}

pub record HashNode : Type 0 where
  pub key : Bytes
  pub value : Bytes

pub record HashIndex : Type 0 where
  pub buckets : List (List HashNode)
  pub bucket_count : ℕ
  pub item_count : ℕ

-- `key[i]` is a signed char, widened to 32 bits
abbrev pub sign_extend : ℕ → ℕ
sign_extend c = if ltb c 128 then c else c + (2 ^ 32 - 256)

hash_loop : ℕ → Bytes → ℕ
hash_loop hash [] = hash
hash_loop hash (c ∷ cs) =
    hash_loop (((hash * 32 % 2 ^ 32 + hash) % 2 ^ 32 + sign_extend c) % 2 ^ 32) cs

unfoldable pub hash_function : Bytes → ℕ → ℕ
unfolding hash_loop
hash_function key bucket_count = hash_loop 5381 key % bucket_count

-- the answers of the allocator
abbrev pub Alloc : Type 0
Alloc = ℕ → Bool

unfoldable pub hash_node_create : Alloc → Bytes → Bytes → Option HashNode
hash_node_create m key value =
    if m 0 && m 1 && m 2 then some (record { key = key; value = value }) else none

unfoldable pub hash_index_create : Alloc → ℕ → Option HashIndex
hash_index_create m bucket_count =
    let n = if bucket_count == 0 then 1024 else bucket_count in
    if m 0 && m 1
    then some (record { buckets = replicate n []; bucket_count = n; item_count = 0 })
    else none

-- the search loop: the node that `current` stops at
unfoldable pub find_node : Bytes → List HashNode → Option HashNode
find_node key [] = none
find_node key (node ∷ rest) = if bytes_eq node.key key then some node else find_node key rest

-- the write of a new value to the node that the loop stops at
unfoldable pub update_node : Bytes → Bytes → List HashNode → List HashNode
update_node key value [] = []
update_node key value (node ∷ rest) =
    if bytes_eq node.key key
    then record node { value = value } ∷ rest
    else node ∷ update_node key value rest

-- the node is unlinked from behind `prev`, or from the bucket
unfoldable pub unlink_node : Bytes → List HashNode → List HashNode
unlink_node key [] = []
unlink_node key (node ∷ rest) = if bytes_eq node.key key then rest else node ∷ unlink_node key rest

abbrev pub bucket : HashIndex → ℕ → List HashNode
bucket index i = get_or index.buckets i []

-- A key that is there gets the new value, by one `realloc`; else a new node goes to the front. Outside,
-- `none` is a `realloc` to no bytes, where the node has a value: C leaves to the library what it does,
-- and where it frees the value and returns `NULL`, the node keeps a pointer to freed memory.
unfoldable pub hash_index_insert :
    Alloc → HashIndex → Option Bytes → Bytes → Option (HashIndex × Bool)
hash_index_insert m index none value = some (index, false)
hash_index_insert m index (some key) value =
    let i = hash_function key index.bucket_count in
    let chain = bucket index i in
    elim (find_node key chain) [
      | some _ ↦
          if length value == 0
          then none
          else some (
              if m 0
              then (
                record index { buckets = set index.buckets i (update_node key value chain) },
                true,
              )
              else (index, false))
      | none ↦ some (elim (hash_node_create m key value) [
        | none ↦ (index, false)
        | some node ↦ (
          record index {
            buckets = set index.buckets i (node ∷ chain);
            item_count = (index.item_count + 1) % 2 ^ 32;
          },
          true,
        )
      ])
    ]

-- What is written to `*value_size`, and the copy that is returned, if its `malloc` succeeds.
unfoldable pub hash_index_get : Alloc → HashIndex → Option Bytes → Option ℕ × Option Bytes
hash_index_get m index none = (none, none)
hash_index_get m index (some key) =
    elim (find_node key (bucket index (hash_function key index.bucket_count))) [
      | none ↦ (none, none)
      | some node ↦ (some (length node.value), if m 0 then some node.value else none)
    ]

unfoldable pub hash_index_delete : HashIndex → Option Bytes → HashIndex × Bool
hash_index_delete index none = (index, false)
hash_index_delete index (some key) =
    let i = hash_function key index.bucket_count in
    let chain = bucket index i in
    elim (find_node key chain) [
      | none ↦ (index, false)
      | some _ ↦ (
        record index {
          buckets = set index.buckets i (unlink_node key chain);
          item_count = (index.item_count + 2 ^ 32 - 1) % 2 ^ 32;
        },
        true,
      )
    ]

unfoldable pub hash_index_size : HashIndex → ℕ
hash_index_size index = index.item_count
