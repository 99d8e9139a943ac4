-- ===== src/BPlusTree/Full.antt =====
-- Insertions into a full leaf of src/index/b_plus_tree.c.
use micro_meow_db.Prelude.{
  ℕ, suc, ◌+◌, ◌-◌, ◌%◌, ◌^◌, ◌≡◌, ◌≢◌, ◌⊎◌, refl, sym, ap, Bool, true, false, Option, none, some,
  List, [], ◌∷◌, ◌++◌, length, All, ◌>>=◌, leb, arith, Option-cases, inl, inr,
}
use mathlib.Core.Path.{subst}
use micro_meow_db.BPlusTree.{
  Order, same, BPlusTree, load, b_plus_tree_find_key_index, b_plus_tree_find_leaf, is_at,
  b_plus_tree_find, b_plus_tree_split_node, choose_leaf, put_in, b_plus_tree_node_is_full,
  b_plus_tree_insert, read,
}
use micro_meow_db.BPlusTree.Search.{IsOrder, Order-cases}
use micro_meow_db.BPlusTree.Entries.{cut}
use micro_meow_db.BPlusTree.Leaf.{leaf_of, Holds, find_leaf-root, find_key_index-Place, to-is_at}
use micro_meow_db.BPlusTree.Nodes.{goes_on, through, Broken, find-Broken, put_in-Broken}
use micro_meow_db.BPlusTree.Splitting.{split-Broken, load-bound}

module _ {K V : Type 0} (compare : K → K → Order) where
  -- No pair has the key.
  abbrev pub New : K → List (K × Option V) → Type 0
  New key es = All (λ e. compare key e.0 ≢ same) es

  New-middle :
      (key : K) (before after : List (K × Option V)) (e : K × Option V)
      → New key (before ++ e ∷ after)
      → compare key e.0 ≢ same
  New-middle key [] after e n = n.0
  New-middle key (x ∷ before) after e n = New-middle key before after e n.1

  choose_leaf-cases :
      (tree : BPlusTree K V) (p q i : ℕ) (key : K) (r : ℕ × ℕ)
      → choose_leaf tree p q i key ≡ some r
      → (r.0 ≡ p) ⊎ (r.0 ≡ q)
  unfolding choose_leaf
  choose_leaf-cases tree p q i key r e = through (load tree.memory p) _ _ e (λ n e₁ f₁.
      through (read n.keys ((n.key_count + (2 ^ 32 - 1)) % 2 ^ 32)) _ _ f₁ (λ k e₂ f₂.
        through k _ _ f₂ (λ last e₃ f₃. elim (Order-cases (tree.compare key last)) [
          | inl c ↦
              let r' = rw c at f₃ in
              inl (ap (λ (t : Option (ℕ × ℕ)). elim t [ none ↦ p | some y ↦ y.0 ]) (sym r'))
          | inr d ↦ elim d [
            | inl c ↦
                let r' = rw c at f₃ in
                inl (ap (λ (t : Option (ℕ × ℕ)). elim t [ none ↦ p | some y ↦ y.0 ]) (sym r'))
            | inr c ↦
                let r' = rw c at f₃ in
                inr (ap (λ (t : Option (ℕ × ℕ)). elim t [ none ↦ q | some y ↦ y.0 ]) (sym r'))
          ]
        ])))

  insert-Broken :
      (o : IsOrder compare) (tree : BPlusTree K V) (capacity : ℕ) (es : List (K × Option V))
      (key : K) (v : Option V) (r : BPlusTree K V × Bool)
      → ((x : ℕ) → tree.memory.grants x ≡ true)
      → Holds compare tree capacity es
      → length es ≡ capacity
      → New key es
      → b_plus_tree_insert tree key v ≡ some r
      → Broken r.0
  unfolding b_plus_tree_insert b_plus_tree_node_is_full
  insert-Broken o tree capacity es key v r g h full new e =
      let (i, index, place) =
        find_key_index-Place compare o capacity es h.spare_keys h.spare_values key h.sorted in
      let n = leaf_of compare capacity es h.spare_keys h.spare_values in
      let searched : b_plus_tree_find_key_index n key tree.compare ≡ some i = rw h.compares index in
      elim (cut compare es key i place) [
        | inl a ↦ absurd (New-middle key a.before a.after a.entry (rw a.split at new) a.equal)
        | inr a ↦
            let there : is_at n i key tree.compare ≡ some false =
              rw h.compares (to-is_at compare capacity es h.spare_keys h.spare_values key i a) in
            let e₁ =
              goes_on (b_plus_tree_find_leaf tree key) _ _ _ e
                (find_leaf-root compare tree capacity es key h) in
            let e₂ = goes_on (load tree.memory tree.root) _ _ _ e₁ h.stored in
            let e₃ = goes_on (b_plus_tree_find_key_index n key tree.compare) _ _ _ e₂ searched in
            let e₄ = goes_on (is_at n i key tree.compare) _ _ _ e₃ there in
            let is_full : leb capacity (length es) ≡ true = ground arith in
            let e₅ = rw is_full at e₄ in
            let more : length tree.memory.cells + 1 ≡ suc (length tree.memory.cells) =
              omega arith in
            through (b_plus_tree_split_node (length tree.memory.cells + 1) tree tree.root) _ _ e₅
              (λ s e₆ f₆.
                let low = load-bound compare tree.memory tree.root n h.stored in
                let (broken, root, made) =
                  split-Broken compare (length tree.memory.cells) tree s.0 capacity es s.1 g h full
                    (rw more at e₆) in
                let f₇ = rw made at f₆ in
                through (choose_leaf s.0 tree.root (length tree.memory.cells) i key) _ _ f₇
                  (λ c e₈ f₈. through (put_in s.0 c.0 c.1 key v) _ _ f₈ (λ t e₉ f₉.
                    let apart : c.0 ≢ s.0.root = λ k.
                      elim (choose_leaf-cases s.0 tree.root (length tree.memory.cells) i key c e₈) [
                        | inl z ↦ absurd (omega arith)
                        | inr z ↦ absurd (omega arith)
                      ] in
                    let result : t ≡ r.0 =
                      ap (λ (x : Option (BPlusTree K V × Bool)). elim x [ none ↦ t | some y ↦ y.0 ])
                        f₉ in
                    subst Broken result (put_in-Broken s.0 t c.0 c.1 key v e₉ apart broken))))
      ]

  -- In a tree that is one full leaf, where the keys are compared by an order and memory can be had: an
  -- insertion under a new key is undefined, or every search after it is.
  pub find-full_insert :
      (o : IsOrder compare) (tree : BPlusTree K V) (capacity : ℕ) (es : List (K × Option V))
      (key : K) (v : Option V) (q : K)
      → ((x : ℕ) → tree.memory.grants x ≡ true)
      → Holds compare tree capacity es
      → length es ≡ capacity
      → New key es
      → (b_plus_tree_insert tree key v >>= λ r. b_plus_tree_find r.0 q) ≡ none
  find-full_insert o tree capacity es key v q g h full new =
      elim (Option-cases (b_plus_tree_insert tree key v)) [
        | inl e ↦ rw e refl
        | inr (r, e) ↦
            rw e (find-Broken r.0 q (insert-Broken o tree capacity es key v r g h full new e))
      ]
