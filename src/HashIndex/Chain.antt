-- ===== src/HashIndex/Chain.antt =====
-- One chain of src/index/hash_index.c: what the update, the new node and the unlinking do to a
-- search, and chains that hold a key once.
use micro_meow_db.Prelude.{
  ◌+◌, ◌≡◌, refl, Option, none, some, List, [], ◌∷◌, arith, Bytes, bytes_eq, bytes_eq_iff, length,
  if◌then◌else◌,
}
use micro_meow_db.HashIndex.{HashNode, find_node, update_node, unlink_node}

-- the value that a search reads
abbrev pub value_of : Option HashNode → Option Bytes
value_of none = none
value_of (some node) = some node.value

-- No two nodes have the same key.
abbrev pub IsDistinct : List HashNode → Type 0
IsDistinct [] = Unit {0}
IsDistinct (node ∷ rest) = (find_node node.key rest ≡ none) × IsDistinct rest

module _ (k q : Bytes) where
  pub find-update :
      (v : Bytes) (c : List HashNode) (old : HashNode)
      → find_node k c ≡ some old
      → value_of (find_node q (update_node k v c))
        ≡ (if bytes_eq q k then some v else value_of (find_node q c))
  unfolding find_node update_node
  find-update v [] old h = ground arith
  find-update v (n ∷ c) old h =
      ground
        (arith, find-update v c old, bytes_eq_iff n.key k, bytes_eq_iff n.key q, bytes_eq_iff q k)

  pub find-update-none :
      (v : Bytes) (c : List HashNode)
      → find_node q c ≡ none
      → find_node q (update_node k v c) ≡ none
  unfolding find_node update_node
  find-update-none v [] h = refl
  find-update-none v (n ∷ c) h = ground (arith, find-update-none v c)

  pub find-unlink-none :
      (c : List HashNode) → find_node q c ≡ none → find_node q (unlink_node k c) ≡ none
  unfolding find_node unlink_node
  find-unlink-none [] h = refl
  find-unlink-none (n ∷ c) h = ground (arith, find-unlink-none c)

  pub find-unlink :
      (c : List HashNode)
      → IsDistinct c
      → value_of (find_node q (unlink_node k c))
        ≡ (if bytes_eq q k then none else value_of (find_node q c))
  unfolding find_node unlink_node
  find-unlink [] h = ground arith
  find-unlink (n ∷ c) h =
      ground
        (arith, find-unlink c h.1, bytes_eq_iff n.key k, bytes_eq_iff n.key q, bytes_eq_iff q k)

  pub find-cons :
      (v : Bytes) (c : List HashNode)
      → value_of (find_node q (record { key = k; value = v } ∷ c))
        ≡ (if bytes_eq q k then some v else value_of (find_node q c))
  unfolding find_node
  find-cons v c = ground (arith, bytes_eq_iff k q, bytes_eq_iff q k)

module _ (k : Bytes) where
  pub update-IsDistinct :
      (v : Bytes) (c : List HashNode) → IsDistinct c → IsDistinct (update_node k v c)
  unfolding update_node
  update-IsDistinct v [] h = tt
  update-IsDistinct v (n ∷ c) h =
      ground (arith, update-IsDistinct v c h.1, find-update-none k n.key v c)

  pub unlink-IsDistinct : (c : List HashNode) → IsDistinct c → IsDistinct (unlink_node k c)
  unfolding unlink_node
  unlink-IsDistinct [] h = tt
  unlink-IsDistinct (n ∷ c) h = ground (arith, unlink-IsDistinct c h.1, find-unlink-none k n.key c)

  pub length-update : (v : Bytes) (c : List HashNode) → length (update_node k v c) ≡ length c
  unfolding update_node
  length-update v [] = refl
  length-update v (n ∷ c) = ground (arith, length-update v c)

  pub length-unlink :
      (c : List HashNode) (old : HashNode)
      → find_node k c ≡ some old
      → length (unlink_node k c) + 1 ≡ length c
  unfolding unlink_node find_node
  length-unlink [] old h = ground arith
  length-unlink (n ∷ c) old h = ground (arith, length-unlink c old)
