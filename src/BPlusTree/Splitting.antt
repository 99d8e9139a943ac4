-- ===== src/BPlusTree/Splitting.antt =====
-- What the split of a full leaf in src/index/b_plus_tree.c leaves.
use micro_meow_db.Prelude.{
  ℕ, zero, suc, ◌+◌, ◌-◌, ◌/◌, ◌<◌, ◌≡◌, ◌≢◌, refl, sym, ap, ◌∙◌, Bool, true, Option, none, some,
  List, [], ◌∷◌, ◌++◌, length, get_elem?, arith, Option-cases, inl, inr,
}
use micro_meow_db.BPlusTree.Entries.{key_slots}
use micro_meow_db.BPlusTree.Leaf.{leaf_of, Holds}
use micro_meow_db.BPlusTree.{
  Order, Slot, internal, leaf, Node, Memory, BPlusTree, read, write, copy_slot, load, store, modify,
  modify_any, b_plus_tree_create_node, move_slots, divide, grow_root, b_plus_tree_split_node,
}
use micro_meow_db.BPlusTree.Nodes.{
  bound, goes_on, through, get-below, write-here, move_slots-first, store-here, store-Keeps,
  modify-Keeps, create_node-Made, Broken,
}

-- what the division of a leaf leaves in the place of the key that goes up
record Divided {K V : Type 0} (tree t : BPlusTree K V) (p : ℕ) : Type 0 where
  node : Node K V
  at : load t.memory p ≡ some node
  null : (s : Slot K) → get_elem? node.keys node.key_count ≡ some s → s ≡ some none
  size : length t.memory.cells ≡ length tree.memory.cells
  answers : t.memory.grants ≡ tree.memory.grants

module _ {K : Type 0} where
  half_null :
      (n : ℕ) (keys fresh : List (Slot K)) (r : List (Slot K) × List (Slot K) × ℕ)
      → (n ≡ 0 → keys ≡ [])
      → move_slots (n - n / 2) (n / 2) keys fresh 0 ≡ some r
      → (s : Slot K) → get_elem? r.0 (n / 2) ≡ some s
      → s ≡ some none
  unfolding move_slots
  half_null zero keys fresh r h e s g =
      let unmoved : keys ≡ r.0 =
        ap
          (λ (t : Option (List (Slot K) × List (Slot K) × ℕ)). elim t [
            | none ↦ keys
            | some q ↦ q.0
          ])
          e in
      let nowhere : get_elem? r.0 0 ≡ none = rw (← unmoved, h refl) refl in
      let clash : none ≡ some s = sym nowhere ∙ g in cc
  half_null (suc n) keys fresh r h e s g =
      let more : suc n - suc n / 2 ≡ suc (suc n - suc n / 2 - 1) = omega arith in
      let first =
        move_slots-first (suc n - suc n / 2 - 1) (suc n / 2) 0 keys fresh r (rw more at e) in
      let k : some s ≡ some (some none) = sym g ∙ first in cc

  -- What is copied to the first slot is `NULL` if all that may be copied is.
  copied_null :
      (from to ks : List (Slot K)) (i : ℕ)
      → copy_slot from i to 0 ≡ some ks
      → ((s : Slot K) → get_elem? from i ≡ some s → s ≡ some none)
      → read ks 0 ≡ some none
  unfolding copy_slot read
  copied_null from to ks i e null =
      let (s, e₁, f₁) = bound (get_elem? from i) _ _ e in rw (write-here to ks 0 s f₁) (null s e₁)

module _ {K V : Type 0} (compare : K → K → Order) where
  divide-Divided :
      (tree t : BPlusTree K V) (p q capacity : ℕ) (es : List (K × Option V)) (ks : List (Slot K))
      (vs : List (Slot V))
      → load tree.memory p ≡ some (leaf_of compare capacity es ks vs)
      → (length es ≡ 0 → key_slots compare es ++ ks ≡ [])
      → divide tree p q ≡ some t
      → Divided tree t p
  unfolding divide modify_any
  divide-Divided tree t p q capacity es ks vs known empty e =
      let f₀ = rw known at e in
      let n = leaf_of compare capacity es ks vs in
      let mid : ℕ = length es / 2 in
      let (fresh, e₁, f₁) = bound (load tree.memory q) _ _ f₀ in
      let (kr, e₂, f₂) = bound (move_slots (length es - mid) mid n.keys fresh.keys 0) _ _ f₁ in
      let (vr, e₃, f₃) =
        bound (move_slots (length es - mid) mid n.values fresh.values kr.2) _ _ f₂ in
      let (mem₁, e₄, f₄) = bound (store tree.memory q _) _ _ f₃ in
      let n' = record n { keys = kr.0; values = vr.0; key_count = mid; next = some q } in
      let (mem₂, e₅, f₅) = bound (store mem₁ p n') _ _ f₄ in
      let k₁ = store-Keeps tree.memory mem₁ q _ e₄ in
      let k₂ = store-Keeps mem₁ mem₂ p n' e₅ in
      let memory : mem₂ ≡ t.memory =
        ap (λ (x : Option (BPlusTree K V)). elim x [ none ↦ mem₂ | some y ↦ y.memory ]) f₅ in
      record {
        node = n';
        at = ap (λ (x : Memory K V). load x p) (sym memory) ∙ store-here mem₁ mem₂ p n' e₅;
        null = half_null (length es) n.keys fresh.keys kr empty e₂;
        size = ap (λ (x : Memory K V). length x.cells) (sym memory) ∙ k₂.size ∙ k₁.size;
        answers = ap (λ (x : Memory K V). x.grants) (sym memory) ∙ k₂.answers ∙ k₁.answers;
      }

module _ {K V : Type 0} where
  -- what the changes of a new root, and of the nodes below, leave
  raised-Broken :
      (tree t : BPlusTree K V) (p q r : ℕ) (mem₀ mem₁ mem₂ mem₃ : Memory K V)
      (above below : Node K V) (f : Node K V → Node K V)
      → above.type ≡ internal
      → above.key_count ≡ 1
      → read above.keys 0 ≡ some none
      → p ≢ r
      → q ≢ r
      → store mem₀ r above ≡ some mem₁
      → store mem₁ p below ≡ some mem₂
      → modify mem₂ q f ≡ some mem₃
      → t.memory ≡ mem₃
      → t.root ≡ r
      → Broken t
  raised-Broken tree t p q r mem₀ mem₁ mem₂ mem₃ above below f kind one null dp dq e₁ e₂ e₃ memory
        root =
      let k₂ = store-Keeps mem₁ mem₂ p below e₂ in
      let k₃ = modify-Keeps mem₂ mem₃ q f e₃ in
      record {
        node = above;
        at = rw (memory, root) (k₃.other r dq ∙ k₂.other r dp ∙ store-here mem₀ mem₁ r above e₁);
        kind = kind;
        one = one;
        null = null;
      }

  -- A new root above a divided node has `NULL` for its key.
  grow_root-Broken :
      (tree t : BPlusTree K V) (p q : ℕ) (made : Option ℕ) (n : Node K V)
      → ((x : ℕ) → tree.memory.grants x ≡ true)
      → load tree.memory p ≡ some n
      → ((s : Slot K) → get_elem? n.keys n.key_count ≡ some s → s ≡ some none)
      → p < length tree.memory.cells
      → q < length tree.memory.cells
      → grow_root tree p q ≡ some (t, made)
      → Broken t × (t.root ≡ length tree.memory.cells) × (made ≡ some q)
  unfolding grow_root
  grow_root-Broken tree t p q made n g at null lp lq e =
      let m = create_node-Made tree.memory tree.node_capacity internal g in
      through
        (load (b_plus_tree_create_node tree.memory tree.node_capacity internal).0
          (length tree.memory.cells))
        _ _ (rw (grow_root, m.given) at e)
        (λ root e₁ f₁.
          through (load (b_plus_tree_create_node tree.memory tree.node_capacity internal).0 p) _ _
            f₁
            (λ n' e₂ f₂. through (copy_slot n'.keys n'.key_count root.keys 0) _ _ f₂ (λ ks e₃ f₃.
              through (write n'.keys n'.key_count (some none)) _ _ f₃ (λ emptied e₄ f₄.
                through (write root.children 0 (some (some p))) _ _ f₄ (λ first e₅ f₅.
                  through (write first 1 (some (some q))) _ _ f₅ (λ both e₆ f₆.
                    through
                      (store _ (length tree.memory.cells)
                        (record root { keys = ks; children = both; key_count = 1 }))
                      _ _ f₆
                      (λ mem₁ e₇ f₇.
                        through
                          (store mem₁ p (record n' {
                            keys = emptied;
                            parent = some (length tree.memory.cells);
                          }))
                          _ _ f₇
                          (λ mem₂ e₈ f₈.
                            through
                              (modify mem₂ q (λ (x : Node K V). record x {
                                parent = some (length tree.memory.cells);
                              }))
                              _ _ f₈
                              (λ mem₃ e₉ f₉.
                                let old : n ≡ n' = let k = sym (m.other p lp ∙ at) ∙ e₂ in cc in
                                let fresh : m.node ≡ root = let k = sym m.fresh ∙ e₁ in cc in
                                let root_at : t.root ≡ length tree.memory.cells =
                                  ap
                                    (λ (x : Option (BPlusTree K V × Option ℕ)). elim x [
                                      | none ↦ 0
                                      | some y ↦ y.0.root
                                    ])
                                    (sym f₉) in
                                let memory : t.memory ≡ mem₃ =
                                  ap
                                    (λ (x : Option (BPlusTree K V × Option ℕ)). elim x [
                                      | none ↦ mem₃
                                      | some y ↦ y.0.memory
                                    ])
                                    (sym f₉) in
                                (
                                  raised-Broken tree t p q (length tree.memory.cells) _ mem₁ mem₂
                                      mem₃ _ _ _
                                      (ap (λ (x : Node K V). x.type) (sym fresh) ∙ m.kind) refl
                                      (copied_null n'.keys root.keys ks n'.key_count e₃
                                        (rw (← old) null))
                                      (omega arith) (omega arith) e₇ e₈ e₉ memory root_at,
                                  root_at,
                                  ap
                                      (λ (x : Option (BPlusTree K V × Option ℕ)). elim x [
                                        | none ↦ none
                                        | some y ↦ y.1
                                      ])
                                      (sym f₉),
                                ))))))))))

module _ {K V : Type 0} (compare : K → K → Order) where
  pub load-bound :
      (mem : Memory K V) (p : ℕ) (n : Node K V) → load mem p ≡ some n → p < length mem.cells
  unfolding load
  load-bound mem p n e = elim (Option-cases (get_elem? mem.cells p)) [
    | inl g ↦ let nothing = rw g at e in cc
    | inr (cell, g) ↦ get-below mem.cells p cell g
  ]

  -- A full leaf without entries has no slots.
  empty_slots :
      (capacity : ℕ) (es : List (K × Option V)) (ks : List (Slot K))
      → length es ≡ capacity
      → length es + length ks ≡ capacity
      → length es ≡ 0
      → key_slots compare es ++ ks ≡ []
  empty_slots capacity [] [] f r z = refl
  empty_slots capacity [] (k ∷ ks) f r z = absurd (omega arith)
  empty_slots capacity (e ∷ es) ks f r z = absurd (omega arith)

  -- A split of a full leaf that is the whole tree leaves a broken one.
  pub split-Broken :
      (fuel : ℕ) (tree t : BPlusTree K V) (capacity : ℕ) (es : List (K × Option V))
      (made : Option ℕ)
      → ((x : ℕ) → tree.memory.grants x ≡ true)
      → Holds compare tree capacity es
      → length es ≡ capacity
      → b_plus_tree_split_node (suc fuel) tree tree.root ≡ some (t, made)
      → Broken t
        × (t.root ≡ length tree.memory.cells + 1)
        × (made ≡ some (length tree.memory.cells))
  unfolding b_plus_tree_split_node
  split-Broken fuel tree t capacity es made g h full e =
      let m = create_node-Made tree.memory tree.node_capacity leaf g in
      let tree₀ : BPlusTree K V = record tree {
        memory = (b_plus_tree_create_node tree.memory tree.node_capacity leaf).0;
      } in
      let low = load-bound tree.memory tree.root _ h.stored in
      let known : load tree₀.memory tree.root
          ≡ some (leaf_of compare capacity es h.spare_keys h.spare_values) =
        m.other tree.root low ∙ h.stored in
      let loaded = goes_on (load tree.memory tree.root) _ _ _ e h.stored in
      let given = rw m.given at loaded in
      through (divide tree₀ tree.root (length tree.memory.cells)) _ _ given (λ t₁ e₁ f₁.
        let d =
          divide-Divided compare tree₀ t₁ tree.root (length tree.memory.cells) capacity es
            h.spare_keys h.spare_values known
            (empty_slots capacity es h.spare_keys full h.room_keys) e₁ in
        let size : length t₁.memory.cells ≡ length tree.memory.cells + 1 = d.size ∙ m.size in
        let (broken, root, new) =
          grow_root-Broken t₁ t tree.root (length tree.memory.cells) made d.node
            (λ x. ap (λ (k : ℕ → Bool). k x) (d.answers ∙ m.answers) ∙ g x) d.at d.null
            (omega (arith, low, size)) (omega (arith, size)) f₁ in
        (broken, root ∙ size, new))
