-- ===== src/BPlusTree/History.antt =====
-- Insertions into a new tree of src/index/b_plus_tree.c, while its first leaf has room.
use micro_meow_db.Prelude.{
  ℕ, ◌+◌, ◌≤◌, ◌≡◌, refl, ap, ◌∙◌, Bool, true, false, Option, none, some, List, [], ◌∷◌, length,
  replicate, length-replicate, if◌then◌else◌, ◌>>=◌, arith, Bool-cases, inl, inr,
}
use mathlib.Core.Path.{subst}
use micro_meow_db.BPlusTree.{
  Order, Slot, BPlusTree, load, b_plus_tree_create_node, b_plus_tree_create, b_plus_tree_find,
  b_plus_tree_insert,
}
use micro_meow_db.BPlusTree.Search.{IsOrder, Order-cases}
use micro_meow_db.BPlusTree.Entries.{value_of, put, put_value, value_of-put}
use micro_meow_db.BPlusTree.Leaf.{leaf_of, Holds, find-value_of}
use micro_meow_db.BPlusTree.Insertion.{b_plus_tree_insert-Inserts}

module _ {K V : Type 0} where
  -- Pairs are inserted one after the other.
  unfoldable pub insert_all : List (K × Option V) → BPlusTree K V → Option (BPlusTree K V)
  insert_all [] tree = some tree
  insert_all (e ∷ es) tree =
      b_plus_tree_insert tree e.0 e.1 >>= λ r. if r.1 then insert_all es r.0 else none

module _ {K V : Type 0} (compare : K → K → Order) where
  -- the value that the last of the pairs with the key has, or else one from before
  abbrev pub told : List (K × Option V) → K → Option V → Option V
  told [] q before = before
  told (e ∷ es) q before = told es q (put_value compare e.0 e.1 before q)

  length-put :
      (es : List (K × Option V)) (key : K) (v : Option V)
      → length (put compare key v es) ≤ length es + 1
  length-put [] key v = omega arith
  length-put (e ∷ es) key v = elim (Order-cases (compare key e.0)) [
    | inl c ↦ rw (put, c) (omega arith)
    | inr d ↦ elim d [
      | inl c ↦ rw (put, c) (omega arith)
      | inr c ↦ rw (put, c) (omega (arith, length-put es key v))
    ]
  ]

  record Grows (pairs : List (K × Option V)) (tree : BPlusTree K V) (capacity : ℕ)
      (es : List (K × Option V)) : Type 0 where
    tree' : BPlusTree K V
    es' : List (K × Option V)
    done : insert_all pairs tree ≡ some tree'
    holds : Holds compare tree' capacity es'
    values : (q : K) → value_of compare q es' ≡ told pairs q (value_of compare q es)

  insert_all-Grows :
      (o : IsOrder compare) (pairs : List (K × Option V)) (tree : BPlusTree K V) (capacity : ℕ)
      (es : List (K × Option V))
      → Holds compare tree capacity es
      → length es + length pairs ≤ capacity
      → Grows pairs tree capacity es
  unfolding insert_all
  insert_all-Grows o [] tree capacity es h l = record {
    tree' = tree;
    es' = es;
    done = refl;
    holds = h;
    values = λ q. refl;
  }
  insert_all-Grows o (e ∷ pairs) tree capacity es h l =
      let s = b_plus_tree_insert-Inserts compare o tree capacity es e.0 e.1 h (omega (arith, l)) in
      let g =
        insert_all-Grows o pairs s.tree' capacity (put compare e.0 e.1 es) s.holds
          (omega (arith, l, length-put es e.0 e.1)) in
      record {
        tree' = g.tree';
        es' = g.es';
        done = rw (insert_all, s.done) g.done;
        holds = g.holds;
        values = λ q. g.values q ∙ ap (told pairs q) (value_of-put compare o e.0 q e.1 es);
      }

  -- the tree that a creation returns
  abbrev first_tree : (ℕ → Bool) → ℕ → ℕ → BPlusTree K V
  first_tree grants held node_capacity = record {
    memory = record {
      cells = some (leaf_of compare held [] (replicate held none) (replicate held none)) ∷ [];
      grants = grants;
      asked = 1;
    };
    root = 0;
    first_leaf = 0;
    last_leaf = 0;
    height = 1;
    node_capacity = node_capacity;
    compare = compare;
  }

  first_tree-Holds :
      (grants : ℕ → Bool) (held node_capacity : ℕ)
      → Holds compare (first_tree grants held node_capacity) held []
  unfolding load
  first_tree-Holds grants held node_capacity = record {
    spare_keys = replicate held none;
    spare_values = replicate held none;
    compares = refl;
    stored = refl;
    room_keys = omega (arith, length-replicate {A = Slot K} held none);
    room_values = omega (arith, length-replicate {A = Slot V} held none);
    sorted = tt;
  }

  create-Holds :
      (granted : Bool) (grants : ℕ → Bool) (held node_capacity : ℕ) (tree : BPlusTree K V)
      → b_plus_tree_create granted grants held node_capacity compare ≡ some tree
      → Holds compare tree held []
  unfolding b_plus_tree_create b_plus_tree_create_node
  create-Holds false grants held node_capacity tree e = cc
  create-Holds true grants held node_capacity tree e = elim (Bool-cases (grants 0)) [
    | inr g ↦ let nothing = rw g at e in cc
    | inl g ↦
        let made : some (first_tree grants held node_capacity) ≡ some tree = rw g at e in
        let one : first_tree grants held node_capacity ≡ tree = cc in
        subst (λ t. Holds compare t held []) one (first_tree-Holds grants held node_capacity)
  ]

  -- In a new tree, where the keys are compared by an order and its first leaf, whose capacity is what
  -- memory held, has room for all pairs that are inserted: the insertions are defined and return
  -- `true`, and a search for any key then finds the value of the last pair with that key, or nothing
  -- if there is none.
  pub find-insert_all :
      (o : IsOrder compare) (granted : Bool) (grants : (ℕ → Bool)) (held node_capacity : ℕ)
      (tree : BPlusTree K V) (pairs : List (K × Option V)) (q : K)
      → b_plus_tree_create granted grants held node_capacity compare ≡ some tree
      → length pairs ≤ held
      → (insert_all pairs tree >>= λ t. b_plus_tree_find t q) ≡ some (told pairs q none)
  find-insert_all o granted grants held node_capacity tree pairs q e l =
      let g =
        insert_all-Grows o pairs tree held []
          (create-Holds granted grants held node_capacity tree e) (omega (arith, l)) in
      rw g.done (find-value_of compare o g.tree' held g.es' q g.holds ∙ ap some (g.values q))
