-- ===== src/BPlusTree/Leaf.antt =====
-- Trees of src/index/b_plus_tree.c that are one leaf: its pairs are sorted, in arrays with room.
use micro_meow_db.Prelude.{
  ℕ, suc, ◌+◌, ◌<◌, ◌≡◌, refl, ap, true, false, Option, none, some, List, [], ◌∷◌, ◌++◌, length,
  length-append, ltb, arith, inl, inr,
}
use micro_meow_db.BPlusTree.{
  Order, less, Slot, leaf, Node, Memory, BPlusTree, read, load, b_plus_tree_find_key_index, descend,
  b_plus_tree_find_leaf, is_at, b_plus_tree_find,
}
use micro_meow_db.BPlusTree.Search.{IsOrder, Sorted, Place, get-bound, search-Place}
use micro_meow_db.BPlusTree.Entries.{
  value_of, keys_of, At, To, cut, key_slots, value_slots, key_slots-Written,
}

module _ {K V : Type 0} (compare : K → K → Order) where
  -- a leaf without siblings that has the pairs, before slots that are spare
  abbrev pub leaf_of : ℕ → List (K × Option V) → List (Slot K) → List (Slot V) → Node K V
  leaf_of capacity es ks vs = record {
    type = leaf;
    key_count = length es;
    capacity = capacity;
    keys = key_slots compare es ++ ks;
    children = [];
    values = value_slots compare es ++ vs;
    parent = none;
    prev = none;
    next = none;
  }

  pub record Holds (tree : BPlusTree K V) (capacity : ℕ) (es : List (K × Option V)) : Type 0 where
    pub spare_keys : List (Slot K)
    pub spare_values : List (Slot V)
    pub compares : tree.compare ≡ compare
    pub stored : load tree.memory tree.root ≡ some (leaf_of capacity es spare_keys spare_values)
    pub room_keys : length es + length spare_keys ≡ capacity
    pub room_values : length es + length spare_values ≡ capacity
    pub sorted : Sorted compare (keys_of compare es)

  length-keys_of : (es : List (K × Option V)) → length (keys_of compare es) ≡ length es
  length-keys_of [] = refl
  length-keys_of (e ∷ es) = ap suc (length-keys_of es)

  descend-leaf :
      (fuel : ℕ) (mem : Memory K V) (p : ℕ) (key : K) (capacity : ℕ) (es : List (K × Option V))
      (ks : List (Slot K)) (vs : List (Slot V))
      → load mem p ≡ some (leaf_of capacity es ks vs)
      → descend (suc fuel) mem compare p key ≡ some p
  unfolding descend
  descend-leaf fuel mem p key capacity es ks vs e = rw (descend, e) refl

  pub find_leaf-root :
      (tree : BPlusTree K V) (capacity : ℕ) (es : List (K × Option V)) (key : K)
      → Holds tree capacity es
      → b_plus_tree_find_leaf tree key ≡ some tree.root
  unfolding b_plus_tree_find_leaf
  find_leaf-root tree capacity es key h =
      let more : length tree.memory.cells + 1 ≡ suc (length tree.memory.cells) = omega arith in
      rw (more, h.compares)
        (descend-leaf (length tree.memory.cells) tree.memory tree.root key capacity es h.spare_keys
          h.spare_values h.stored)

  -- where the search of a leaf ends
  pub find_key_index-Place :
      (o : IsOrder compare) (capacity : ℕ) (es : List (K × Option V)) (ks : List (Slot K))
      (vs : List (Slot V)) (key : K)
      → Sorted compare (keys_of compare es)
      → (i : ℕ) × (b_plus_tree_find_key_index (leaf_of capacity es ks vs) key compare ≡ some i)
        × Place compare (keys_of compare es) key i
  unfolding b_plus_tree_find_key_index
  find_key_index-Place o capacity es ks vs key s =
      let count = length-keys_of es in
      search-Place compare o (length es + 1) (key_slots compare es ++ ks) (keys_of compare es) key 0
        (length es) (key_slots-Written compare es ks) s (omega arith) (omega (arith, count))
        (omega arith) (λ j k l g. absurd (omega (arith, l)))
        (λ j k l g. absurd (omega (arith, l, count, get-bound compare (keys_of compare es) j k g)))

  read-key :
      (before after : List (K × Option V)) (e : K × Option V) (ks : List (Slot K))
      → read (key_slots compare (before ++ e ∷ after) ++ ks) (length before) ≡ some (some e.0)
  unfolding read
  read-key [] after e ks = refl
  read-key (x ∷ before) after e ks = read-key before after e ks

  read-value :
      (before after : List (K × Option V)) (e : K × Option V) (vs : List (Slot V))
      → read (value_slots compare (before ++ e ∷ after) ++ vs) (length before) ≡ some e.1
  unfolding read
  read-value [] after e vs = refl
  read-value (x ∷ before) after e vs = read-value before after e vs

  length-at :
      (before after : List (K × Option V)) (e : K × Option V)
      → length before < length (before ++ e ∷ after)
  length-at before after e = omega (arith, length-append before (e ∷ after))

  pub at-is_at :
      (capacity : ℕ) (es : List (K × Option V)) (ks : List (Slot K)) (vs : List (Slot V)) (key : K)
      (i : ℕ)
      → At compare es key i
      → is_at (leaf_of capacity es ks vs) i key compare ≡ some true
  unfolding is_at
  at-is_at capacity es ks vs key i a =
      let l = length-at a.before a.after a.entry in
      let inside : ltb (length a.before) (length (a.before ++ a.entry ∷ a.after)) ≡ true =
        ground (arith, l) in
      rw (← a.place, a.split, inside, read-key a.before a.after a.entry ks, a.equal) refl

  before-is_at :
      (capacity : ℕ) (before after : List (K × Option V)) (ks : List (Slot K)) (vs : List (Slot V))
      (key : K)
      → ((e : K × Option V) (rest : List (K × Option V))
          → after ≡ e ∷ rest
          → compare key e.0 ≡ less)
      → is_at (leaf_of capacity (before ++ after) ks vs) (length before) key compare ≡ some false
  unfolding is_at
  before-is_at capacity before [] ks vs key next =
      let outside : ltb (length before) (length (before ++ [])) ≡ false =
        ground (arith, length-append before []) in
      rw outside refl
  before-is_at capacity before (e ∷ after) ks vs key next =
      let l = length-at before after e in
      let inside : ltb (length before) (length (before ++ e ∷ after)) ≡ true = ground (arith, l) in
      rw (inside, read-key before after e ks, next e after refl) refl

  pub to-is_at :
      (capacity : ℕ) (es : List (K × Option V)) (ks : List (Slot K)) (vs : List (Slot V)) (key : K)
      (i : ℕ)
      → To compare es key i
      → is_at (leaf_of capacity es ks vs) i key compare ≡ some false
  to-is_at capacity es ks vs key i a =
      rw (← a.place, a.split) (before-is_at capacity a.before a.after ks vs key a.next)

  -- A search in a tree that is one leaf finds the value of the key.
  pub find-value_of :
      (o : IsOrder compare) (tree : BPlusTree K V) (capacity : ℕ) (es : List (K × Option V))
      (key : K)
      → Holds tree capacity es
      → b_plus_tree_find tree key ≡ some (value_of compare key es)
  unfolding b_plus_tree_find
  find-value_of o tree capacity es key h =
      let (i, index, p) =
        find_key_index-Place o capacity es h.spare_keys h.spare_values key h.sorted in
      let root = find_leaf-root tree capacity es key h in
      elim (cut compare es key i p) [
        | inl a ↦
            let there = at-is_at capacity es h.spare_keys h.spare_values key i a in
            let value : read (value_slots compare es ++ h.spare_values) i ≡ some a.entry.1 =
              rw (← a.place, a.split) (read-value a.before a.after a.entry h.spare_values) in
            rw (root, h.stored, h.compares, index, there, value, a.value) refl
        | inr a ↦
            let there = to-is_at capacity es h.spare_keys h.spare_values key i a in
            rw (root, h.stored, h.compares, index, there, a.value) refl
      ]
