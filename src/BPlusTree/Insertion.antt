-- ===== src/BPlusTree/Insertion.antt =====
-- Insertions into trees of src/index/b_plus_tree.c that are one leaf.
use micro_meow_db.Prelude.{
  ℕ, zero, suc, ◌+◌, ◌-◌, ◌<◌, ◌≡◌, refl, sym, ap, ◌∙◌, true, false, Option, some, List, [], ◌∷◌,
  ◌++◌, length, length-append, get_elem?, set, ◌>>=◌, leb, arith, Option-cases, inl, inr,
}
use micro_meow_db.BPlusTree.{
  Order, Slot, Node, Memory, BPlusTree, write, load, store, b_plus_tree_find_key_index, is_at,
  shift_up, put_in, b_plus_tree_node_is_full, b_plus_tree_insert,
}
use micro_meow_db.BPlusTree.Search.{IsOrder}
use micro_meow_db.BPlusTree.Arrays.{write-at, shift_up-write}
use micro_meow_db.BPlusTree.Entries.{put, At, To, cut, put-Sorted, key_slots, value_slots}
use micro_meow_db.BPlusTree.Leaf.{
  leaf_of, Holds, find_leaf-root, find_key_index-Place, at-is_at, to-is_at,
}

module _ {ℓ} {A : Type ℓ} where
  get-set_same :
      (xs : List A) (i : ℕ) (a b : A) → get_elem? xs i ≡ some b → get_elem? (set xs i a) i ≡ some a
  unfolding set
  get-set_same [] i a b e = cc
  get-set_same (x ∷ xs) zero a b e = refl
  get-set_same (x ∷ xs) (suc i) a b e = get-set_same xs i a b e

  -- the two parts of an insertion into an array
  shifted :
      (n i : ℕ) (xs ys : List (Slot A)) (new : Slot A)
      → (shift_up n i xs >>= λ zs. write zs i new) ≡ some ys
      → (zs : List (Slot A)) × (shift_up n i xs ≡ some zs) × (write zs i new ≡ some ys)
  shifted n i xs ys new h = elim (Option-cases (shift_up n i xs)) [
    | inl e ↦ let nothing = rw e at h in cc
    | inr (zs, e) ↦ (zs, e, rw e at h)
  ]

  append_assoc_lem :
      (xs : List A) (y : A) (ys zs : List A) → xs ++ y ∷ ys ++ zs ≡ xs ++ y ∷ (ys ++ zs)
  append_assoc_lem [] y ys zs = refl
  append_assoc_lem (x ∷ xs) y ys zs = ap (λ t. x ∷ t) (append_assoc_lem xs y ys zs)

  spare :
      (xs : List A) (n capacity : ℕ)
      → n + length xs ≡ capacity
      → n < capacity
      → (x : A) × (ys : List A) × (xs ≡ x ∷ ys)
  spare [] n capacity e l = absurd (omega arith)
  spare (x ∷ xs) n capacity e l = (x, xs, refl)

module _ {K V : Type 0} (compare : K → K → Order) where
  load-store :
      (mem : Memory K V) (p : ℕ) (n n' : Node K V)
      → load mem p ≡ some n
      → (mem' : Memory K V) × (store mem p n' ≡ some mem') × (load mem' p ≡ some n')
  unfolding load store
  load-store mem p n n' e = elim (Option-cases (get_elem? mem.cells p)) [
    | inl g ↦ let nothing = rw g at e in cc
    | inr (cell, g) ↦
        let found : cell ≡ some n = rw g at e in
        (
          record mem { cells = set mem.cells p (some n') },
          rw (g, found) refl,
          rw (get-set_same mem.cells p (some n') cell g) refl,
        )
  ]

  key_slots-append :
      (xs ys : List (K × Option V))
      → key_slots compare (xs ++ ys) ≡ key_slots compare xs ++ key_slots compare ys
  key_slots-append [] ys = refl
  key_slots-append (x ∷ xs) ys = ap (λ t. some (some x.0) ∷ t) (key_slots-append xs ys)

  value_slots-append :
      (xs ys : List (K × Option V))
      → value_slots compare (xs ++ ys) ≡ value_slots compare xs ++ value_slots compare ys
  value_slots-append [] ys = refl
  value_slots-append (x ∷ xs) ys = ap (λ t. some x.1 ∷ t) (value_slots-append xs ys)

  length-key_slots : (es : List (K × Option V)) → length (key_slots compare es) ≡ length es
  length-key_slots [] = refl
  length-key_slots (e ∷ es) = ap suc (length-key_slots es)

  length-value_slots : (es : List (K × Option V)) → length (value_slots compare es) ≡ length es
  length-value_slots [] = refl
  length-value_slots (e ∷ es) = ap suc (length-value_slots es)

  -- a key put in among the slots, and a value
  insert_key :
      (before after : List (K × Option V)) (last : Slot K) (rest : List (Slot K)) (key : K)
      (v : Option V)
      → (shift_up
            (length after)
            (length before)
            (key_slots compare (before ++ after) ++ last ∷ rest)
          >>= λ xs. write xs (length before) (some (some key)))
        ≡ some (key_slots compare (before ++ (key, v) ∷ after) ++ rest)
  insert_key before after last rest key v =
      rw
        (
          key_slots-append before after,
          key_slots-append before ((key, v) ∷ after),
          ← length-key_slots before,
          ← length-key_slots after,
        )
        (shift_up-write (key_slots compare before) (key_slots compare after) last rest
          (some (some key)))

  insert_value :
      (before after : List (K × Option V)) (last : Slot V) (rest : List (Slot V)) (key : K)
      (v : Option V)
      → (shift_up
            (length after)
            (length before)
            (value_slots compare (before ++ after) ++ last ∷ rest)
          >>= λ xs. write xs (length before) (some v))
        ≡ some (value_slots compare (before ++ (key, v) ∷ after) ++ rest)
  insert_value before after last rest key v =
      rw
        (
          value_slots-append before after,
          value_slots-append before ((key, v) ∷ after),
          ← length-value_slots before,
          ← length-value_slots after,
        )
        (shift_up-write (value_slots compare before) (value_slots compare after) last rest (some v))

  -- what an insertion leaves
  pub record Inserts (tree : BPlusTree K V) (capacity : ℕ) (es : List (K × Option V)) (key : K)
      (v : Option V) : Type 0 where
    pub tree' : BPlusTree K V
    pub done : b_plus_tree_insert tree key v ≡ some (tree', true)
    pub holds : Holds compare tree' capacity (put compare key v es)

  put_in-leaf :
      (tree : BPlusTree K V) (p capacity : ℕ) (before after : List (K × Option V)) (key : K)
      (v : Option V) (last_key : Slot K) (ks : List (Slot K)) (last_value : Slot V)
      (vs : List (Slot V))
      → load tree.memory p
        ≡ some (leaf_of compare capacity (before ++ after) (last_key ∷ ks) (last_value ∷ vs))
      → (mem' : Memory K V) × (put_in tree p (length before) key v
          ≡ some (record tree { memory = mem' }))
        × (load mem' p ≡ some (leaf_of compare capacity (before ++ (key, v) ∷ after) ks vs))
  unfolding put_in
  put_in-leaf tree p capacity before after key v last_key ks last_value vs e =
      let n' = leaf_of compare capacity (before ++ (key, v) ∷ after) ks vs in
      let (mem', stored, loaded) = load-store tree.memory p _ n' e in
      let moved : length (before ++ after) - length before ≡ length after =
        omega (arith, length-append before after) in
      let more : length (before ++ after) + 1 ≡ length (before ++ (key, v) ∷ after) =
        omega (arith, length-append before after, length-append before ((key, v) ∷ after)) in
      let (keys, shifted_keys, written_keys) =
        shifted (length after) (length before) _ _ _ (insert_key before after last_key ks key v) in
      let (values, shifted_values, written_values) =
        shifted (length after) (length before) _ _ _
          (insert_value before after last_value vs key v) in
      (
        mem',
        rw (e, moved, shifted_keys, shifted_values, written_keys, written_values, more, stored)
            refl,
        loaded,
      )

  write-value :
      (before after : List (K × Option V)) (e : K × Option V) (v : Option V) (vs : List (Slot V))
      → write (value_slots compare (before ++ e ∷ after) ++ vs) (length before) (some v)
        ≡ some (value_slots compare (before ++ (e.0, v) ∷ after) ++ vs)
  write-value before after e v vs =
      rw
        (
          value_slots-append before (e ∷ after),
          value_slots-append before ((e.0, v) ∷ after),
          ← length-value_slots before,
        )
        (ap (λ (t : List (Slot V)). write t (length (value_slots compare before)) (some v))
            (append_assoc_lem (value_slots compare before) (some e.1) (value_slots compare after)
              vs)
          ∙ write-at (value_slots compare before) (value_slots compare after ++ vs) (some e.1)
              (some v)
          ∙ ap some (
              sym (
                append_assoc_lem (value_slots compare before) (some v) (value_slots compare after)
                  vs)))

  same_keys :
      (before after : List (K × Option V)) (e : K × Option V) (v : Option V)
      → key_slots compare (before ++ (e.0, v) ∷ after) ≡ key_slots compare (before ++ e ∷ after)
  same_keys [] after e v = refl
  same_keys (x ∷ before) after e v = ap (λ t. some (some x.0) ∷ t) (same_keys before after e v)

  same_length :
      (before after : List (K × Option V)) (e e' : K × Option V)
      → length (before ++ e ∷ after) ≡ length (before ++ e' ∷ after)
  same_length [] after e e' = refl
  same_length (x ∷ before) after e e' = ap suc (same_length before after e e')

  -- An insertion under a key that is there puts its value in the place of the other.
  at-Inserts :
      (o : IsOrder compare) (tree : BPlusTree K V) (capacity : ℕ) (es : List (K × Option V))
      (key : K) (v : Option V) (i : ℕ)
      → (h : Holds compare tree capacity es)
      → b_plus_tree_find_key_index
          (leaf_of compare capacity es h.spare_keys h.spare_values)
          key
          compare
        ≡ some i
      → At compare es key i
      → Inserts tree capacity es key v
  unfolding b_plus_tree_insert
  at-Inserts o tree capacity es key v i h index a =
      let n = leaf_of compare capacity es h.spare_keys h.spare_values in
      let es' : List (K × Option V) = a.before ++ (a.entry.0, v) ∷ a.after in
      let n' = record n { values = value_slots compare es' ++ h.spare_values } in
      let (mem', stored, loaded) = load-store tree.memory tree.root n n' h.stored in
      let root = find_leaf-root compare tree capacity es key h in
      let there = at-is_at compare capacity es h.spare_keys h.spare_values key i a in
      let written : write (value_slots compare es ++ h.spare_values) i (some v)
          ≡ some (value_slots compare es' ++ h.spare_values) =
        rw (← a.place, a.split) (write-value a.before a.after a.entry v h.spare_values) in
      let count : length es ≡ length es' =
        rw a.split (same_length a.before a.after a.entry (a.entry.0, v)) in
      let keys : key_slots compare es ≡ key_slots compare es' =
        rw a.split (sym (same_keys a.before a.after a.entry v)) in
      let result : n' ≡ leaf_of compare capacity es' h.spare_keys h.spare_values =
        rw (count, keys) refl in
      record {
        tree' = record tree { memory = mem' };
        done = rw (root, h.stored, h.compares, index, there, written, stored) refl;
        holds = record {
          spare_keys = h.spare_keys;
          spare_values = h.spare_values;
          compares = h.compares;
          stored = rw (a.change v) (loaded ∙ ap some result);
          room_keys = rw (a.change v, ← count) h.room_keys;
          room_values = rw (a.change v, ← count) h.room_values;
          sorted = put-Sorted compare o key v es h.sorted;
        };
      }

  -- An insertion under a new key finds a slot for it in a leaf that is not full.
  to-Inserts :
      (o : IsOrder compare) (tree : BPlusTree K V) (capacity : ℕ) (es : List (K × Option V))
      (key : K) (v : Option V) (i : ℕ)
      → (h : Holds compare tree capacity es)
      → b_plus_tree_find_key_index
          (leaf_of compare capacity es h.spare_keys h.spare_values)
          key
          compare
        ≡ some i
      → To compare es key i
      → (k : Slot K) (ks : List (Slot K)) (w : Slot V) (ws : List (Slot V)) → h.spare_keys ≡ k ∷ ks
      → h.spare_values ≡ w ∷ ws
      → Inserts tree capacity es key v
  unfolding b_plus_tree_insert b_plus_tree_node_is_full
  to-Inserts o tree capacity es key v i h index a k ks w ws sk sv =
      let es' : List (K × Option V) = a.before ++ (key, v) ∷ a.after in
      let cell : load tree.memory tree.root
          ≡ some (leaf_of compare capacity (a.before ++ a.after) (k ∷ ks) (w ∷ ws)) =
        rw (← a.split, ← sk, ← sv) h.stored in
      let (mem', done, loaded) =
        put_in-leaf tree tree.root capacity a.before a.after key v k ks w ws cell in
      let root = find_leaf-root compare tree capacity es key h in
      let n = leaf_of compare capacity es h.spare_keys h.spare_values in
      let searched : b_plus_tree_find_key_index n key tree.compare ≡ some i = rw h.compares index in
      let there : is_at n i key tree.compare ≡ some false =
        rw h.compares (to-is_at compare capacity es h.spare_keys h.spare_values key i a) in
      let room₁ : length es + suc (length ks) ≡ capacity = rw sk at h.room_keys in
      let room₂ : length es + suc (length ws) ≡ capacity = rw sv at h.room_values in
      let open_leaf : leb capacity (length es) ≡ false = ground arith in
      let put_here : put_in tree tree.root i key v ≡ some (record tree { memory = mem' }) =
        rw (← a.place) done in
      let count : length es' ≡ suc (length es) = rw a.split (
        omega
          (arith, length-append a.before a.after, length-append a.before ((key, v) ∷ a.after))) in
      record {
        tree' = record tree { memory = mem' };
        done = rw (root, h.stored, searched, there, open_leaf, put_here) refl;
        holds = record {
          spare_keys = ks;
          spare_values = ws;
          compares = h.compares;
          stored = rw (a.change v) loaded;
          room_keys = rw (a.change v) (omega (arith, count, room₁));
          room_values = rw (a.change v) (omega (arith, count, room₂));
          sorted = put-Sorted compare o key v es h.sorted;
        };
      }

  -- An insertion into a tree that is one leaf with room is defined and returns `true`, and the tree is
  -- one leaf still, with the value under the key.
  pub b_plus_tree_insert-Inserts :
      (o : IsOrder compare) (tree : BPlusTree K V) (capacity : ℕ) (es : List (K × Option V))
      (key : K) (v : Option V)
      → Holds compare tree capacity es
      → length es < capacity
      → Inserts tree capacity es key v
  b_plus_tree_insert-Inserts o tree capacity es key v h l =
      let (i, index, p) =
        find_key_index-Place compare o capacity es h.spare_keys h.spare_values key h.sorted in
      elim (cut compare es key i p) [
        | inl a ↦ at-Inserts o tree capacity es key v i h index a
        | inr a ↦
            let (k, ks, sk) = spare h.spare_keys (length es) capacity h.room_keys l in
            let (w, ws, sv) = spare h.spare_values (length es) capacity h.room_values l in
            to-Inserts o tree capacity es key v i h index a k ks w ws sk sv
      ]
