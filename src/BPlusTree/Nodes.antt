-- ===== src/BPlusTree/Nodes.antt =====
-- What the changes of single nodes of src/index/b_plus_tree.c leave of the others.
use micro_meow_db.Prelude.{
  ℕ, zero, suc, ◌+◌, ◌-◌, ◌<◌, ◌≡◌, ◌≢◌, refl, ap, ◌∙◌, true, Option, none, some, List, [], ◌∷◌,
  ◌++◌, length, length-append, get_elem?, set, replicate, ◌>>=◌, ltb, arith, Bool-cases,
  Option-cases, inl, inr,
}
use mathlib.Core.Path.{subst}
use micro_meow_db.BPlusTree.{
  Order, NodeType, Slot, internal, leaf, Node, Memory, BPlusTree, read, write, copy_slot, load,
  store, modify, b_plus_tree_create_node, search, b_plus_tree_find_key_index, descend,
  b_plus_tree_find_leaf, b_plus_tree_find, move_slots, shift_up, put_in,
}

module _ {ℓ κ} {A : Type ℓ} {B : Type κ} where
  -- what a chain that has a result has done first
  pub bound :
      (x : Option A) (f : A → Option B) (b : B)
      → (x >>= f) ≡ some b
      → (a : A) × (x ≡ some a) × (f a ≡ some b)
  bound none f b e = cc
  bound (some a) f b e = (a, refl, e)

  -- what a chain goes on with
  pub goes_on :
      (x : Option A) (f : A → Option B) (b : B) (a : A)
      → (x >>= f) ≡ some b
      → x ≡ some a
      → f a ≡ some b
  goes_on none f b a e h = cc
  goes_on (some y) f b a e h = let here : y ≡ a = cc in rw (← here) e

module _ {ℓ κ ι} {A : Type ℓ} {B : Type κ} {P : Type ι} where
  -- the same, for what is to be shown of it
  pub through :
      (x : Option A) (f : A → Option B) (b : B)
      → (x >>= f) ≡ some b
      → ((a : A) → x ≡ some a → f a ≡ some b → P)
      → P
  through none f b e k = cc
  through (some a) f b e k = k a refl e

module _ {ℓ} {A : Type ℓ} where
  get-set_other :
      (xs : List A) (i j : ℕ) (a : A) → i ≢ j → get_elem? (set xs i a) j ≡ get_elem? xs j
  unfolding set
  get-set_other [] i j a n = refl
  get-set_other (x ∷ xs) zero zero a n = absurd (n refl)
  get-set_other (x ∷ xs) zero (suc j) a n = refl
  get-set_other (x ∷ xs) (suc i) zero a n = refl
  get-set_other (x ∷ xs) (suc i) (suc j) a n = get-set_other xs i j a (λ e. n (ap suc e))

  get-set_here : (xs : List A) (i : ℕ) (a : A) → i < length xs → get_elem? (set xs i a) i ≡ some a
  unfolding set
  get-set_here [] i a l = absurd (omega arith)
  get-set_here (x ∷ xs) zero a l = refl
  get-set_here (x ∷ xs) (suc i) a l = get-set_here xs i a (omega (arith, l))

  length-set_lem : (xs : List A) (i : ℕ) (a : A) → length (set xs i a) ≡ length xs
  unfolding set
  length-set_lem [] i a = refl
  length-set_lem (x ∷ xs) zero a = refl
  length-set_lem (x ∷ xs) (suc i) a = ap suc (length-set_lem xs i a)

  get-append_front :
      (xs ys : List A) (i : ℕ) → i < length xs → get_elem? (xs ++ ys) i ≡ get_elem? xs i
  get-append_front [] ys i l = absurd (omega arith)
  get-append_front (x ∷ xs) ys zero l = refl
  get-append_front (x ∷ xs) ys (suc i) l = get-append_front xs ys i (omega (arith, l))

  get-append_back : (xs : List A) (a : A) → get_elem? (xs ++ a ∷ []) (length xs) ≡ some a
  get-append_back [] a = refl
  get-append_back (x ∷ xs) a = get-append_back xs a

  pub get-below : (xs : List A) (i : ℕ) (a : A) → get_elem? xs i ≡ some a → i < length xs
  get-below [] i a e = cc
  get-below (x ∷ xs) zero a e = omega arith
  get-below (x ∷ xs) (suc i) a e = omega (arith, get-below xs i a e)

module _ {ℓ} {A : Type ℓ} where
  pub write-here :
      (xs ys : List (Slot A)) (i : ℕ) (s : Slot A)
      → write xs i s ≡ some ys
      → get_elem? ys i ≡ some s
  unfolding write
  write-here xs ys i s e = elim (Bool-cases (ltb i (length xs))) [
    | inl l ↦
        let made : set xs i s ≡ ys = let k = rw l at e in cc in
        rw (← made) (get-set_here xs i s (ground arith))
    | inr l ↦ let nothing = rw l at e in cc
  ]

  write-other :
      (xs ys : List (Slot A)) (i j : ℕ) (s : Slot A)
      → write xs i s ≡ some ys
      → i ≢ j
      → get_elem? ys j ≡ get_elem? xs j
  unfolding write
  write-other xs ys i j s e n = elim (Bool-cases (ltb i (length xs))) [
    | inl l ↦
        let made : set xs i s ≡ ys = let k = rw l at e in cc in
        rw (← made) (get-set_other xs i j s n)
    | inr l ↦ let nothing = rw l at e in cc
  ]

  -- The slots in front of those that move stay, and the first that moves is `NULL` then.
  move_slots-before :
      (n i j count : ℕ) (xs ys : List (Slot A)) (r : List (Slot A) × List (Slot A) × ℕ)
      → move_slots n i xs ys count ≡ some r
      → j < i
      → get_elem? r.0 j ≡ get_elem? xs j
  unfolding move_slots
  move_slots-before zero i j count xs ys r e l =
      let same_slots : xs ≡ r.0 =
        ap (λ (t : Option (List (Slot A) × List (Slot A) × ℕ)). elim t [ none ↦ xs | some q ↦ q.0 ])
          e in
      rw (← same_slots) refl
  move_slots-before (suc n) i j count xs ys r e l =
      let (ys', e₁, e₂) =
        bound (copy_slot xs i ys count)
          (λ zs. write xs i (some none) >>= λ us. move_slots n (i + 1) us zs (count + 1)) r e in
      let (xs', e₃, e₄) =
        bound (write xs i (some none)) (λ zs. move_slots n (i + 1) zs ys' (count + 1)) r e₂ in
      move_slots-before n (i + 1) j (count + 1) xs' ys' r e₄ (omega (arith, l))
      ∙ write-other xs xs' i j (some none) e₃ (omega (arith, l))

  pub move_slots-first :
      (n i count : ℕ) (xs ys : List (Slot A)) (r : List (Slot A) × List (Slot A) × ℕ)
      → move_slots (suc n) i xs ys count ≡ some r
      → get_elem? r.0 i ≡ some (some none)
  unfolding move_slots
  move_slots-first n i count xs ys r e =
      let (ys', e₁, e₂) =
        bound (copy_slot xs i ys count)
          (λ zs. write xs i (some none) >>= λ us. move_slots n (i + 1) us zs (count + 1)) r e in
      let (xs', e₃, e₄) =
        bound (write xs i (some none)) (λ zs. move_slots n (i + 1) zs ys' (count + 1)) r e₂ in
      move_slots-before n (i + 1) i (count + 1) xs' ys' r e₄ (omega arith)
      ∙ write-here xs xs' i (some none) e₃

-- what a change of one node leaves of the others
pub record Keeps {K V : Type 0} (mem mem' : Memory K V) (p : ℕ) : Type 0 where
  pub other : (r : ℕ) → p ≢ r → load mem' r ≡ load mem r
  pub size : length mem'.cells ≡ length mem.cells
  pub answers : mem'.grants ≡ mem.grants

module _ {K V : Type 0} where
  pub store-here :
      (mem mem' : Memory K V) (p : ℕ) (n : Node K V)
      → store mem p n ≡ some mem'
      → load mem' p ≡ some n
  unfolding store load
  store-here mem mem' p n e = elim (Option-cases (get_elem? mem.cells p)) [
    | inl g ↦ let nothing = rw g at e in cc
    | inr (cell, g) ↦ elim (Option-cases cell) [
      | inl f ↦ let nothing = rw (g, f) at e in cc
      | inr (old, f) ↦
          let made : record mem { cells = set mem.cells p (some n) } ≡ mem' =
            let k = rw (g, f) at e in cc in
          rw (← made, get-set_here mem.cells p (some n) (get-below mem.cells p cell g)) refl
    ]
  ]

  pub store-Keeps :
      (mem mem' : Memory K V) (p : ℕ) (n : Node K V) → store mem p n ≡ some mem' → Keeps mem mem' p
  unfolding store load
  store-Keeps mem mem' p n e = elim (Option-cases (get_elem? mem.cells p)) [
    | inl g ↦ let nothing = rw g at e in cc
    | inr (cell, g) ↦ elim (Option-cases cell) [
      | inl f ↦ let nothing = rw (g, f) at e in cc
      | inr (old, f) ↦
          let made : record mem { cells = set mem.cells p (some n) } ≡ mem' =
            let k = rw (g, f) at e in cc in
          record {
            other = λ r d. rw (← made, get-set_other mem.cells p r (some n) d) refl;
            size = rw (← made) (length-set_lem mem.cells p (some n));
            answers = rw (← made) refl;
          }
    ]
  ]

  pub modify-Keeps :
      (mem mem' : Memory K V) (p : ℕ) (f : Node K V → Node K V)
      → modify mem p f ≡ some mem'
      → Keeps mem mem' p
  unfolding modify
  modify-Keeps mem mem' p f e = elim (Option-cases (load mem p)) [
    | inl g ↦ let nothing = rw g at e in cc
    | inr (n, g) ↦ store-Keeps mem mem' p (f n) (rw g at e)
  ]

-- a new node behind the others
pub record Made {K V : Type 0} (mem : Memory K V) (c : ℕ) (t : NodeType) : Type 0 where
  pub node : Node K V
  pub given : (b_plus_tree_create_node mem c t).1 ≡ some (length mem.cells)
  pub fresh : load (b_plus_tree_create_node mem c t).0 (length mem.cells) ≡ some node
  pub kind : node.type ≡ t
  pub other :
      (r : ℕ) → r < length mem.cells → load (b_plus_tree_create_node mem c t).0 r ≡ load mem r
  pub size : length (b_plus_tree_create_node mem c t).0.cells ≡ length mem.cells + 1
  pub answers : (b_plus_tree_create_node mem c t).0.grants ≡ mem.grants

-- A tree whose root has one key, which is `NULL`.
pub record Broken {K V : Type 0} (tree : BPlusTree K V) : Type 0 where
  pub node : Node K V
  pub at : load tree.memory tree.root ≡ some node
  pub kind : node.type ≡ internal
  pub one : node.key_count ≡ 1
  pub null : read node.keys 0 ≡ some none

module _ {K : Type 0} where
  search-null :
      (compare : K → K → Order) (keys : List (Slot K)) (key : K)
      → read keys 0 ≡ some none
      → search 2 compare keys key 0 1 ≡ none
  unfolding search
  search-null compare keys key e = rw (search, e) refl

module _ {K V : Type 0} where
  pub create_node-Made :
      (mem : Memory K V) (c : ℕ) (t : NodeType) → ((x : ℕ) → mem.grants x ≡ true) → Made mem c t
  unfolding b_plus_tree_create_node load
  create_node-Made mem c t g =
      let n : Node K V = record {
        type = t;
        key_count = 0;
        capacity = c;
        keys = replicate c none;
        children = elim t [ internal ↦ replicate (c + 1) none | leaf ↦ [] ];
        values = elim t [ internal ↦ [] | leaf ↦ replicate c none ];
        parent = none;
        prev = none;
        next = none;
      } in
      record {
        node = n;
        given = rw (g mem.asked) refl;
        fresh = rw (g mem.asked, get-append_back mem.cells (some n)) refl;
        kind = refl;
        other = λ r l. rw (g mem.asked, get-append_front mem.cells (some n ∷ []) r l) refl;
        size = rw (g mem.asked) (length-append mem.cells (some n ∷ []));
        answers = rw (g mem.asked) refl;
      }

  index-null :
      (n : Node K V) (compare : K → K → Order) (key : K)
      → n.key_count ≡ 1
      → read n.keys 0 ≡ some none
      → b_plus_tree_find_key_index n key compare ≡ none
  unfolding b_plus_tree_find_key_index
  index-null n compare key one e = rw one (search-null compare n.keys key e)

  descend-null :
      (fuel : ℕ) (tree : BPlusTree K V) (key : K)
      → Broken tree
      → descend fuel tree.memory tree.compare tree.root key ≡ none
  unfolding descend
  descend-null zero tree key b = refl
  descend-null (suc fuel) tree key b =
      rw (descend, b.at, b.kind, index-null b.node tree.compare key b.one b.null) refl

  -- Every search in a broken tree is undefined.
  pub find-Broken :
      (tree : BPlusTree K V) (key : K) → Broken tree → b_plus_tree_find tree key ≡ none
  unfolding b_plus_tree_find b_plus_tree_find_leaf
  find-Broken tree key b = rw (descend-null (length tree.memory.cells + 1) tree key b) refl

  Keeps-Broken :
      (tree : BPlusTree K V) (mem' : Memory K V) (p : ℕ)
      → Keeps tree.memory mem' p
      → p ≢ tree.root
      → Broken tree
      → Broken (record tree { memory = mem' })
  Keeps-Broken tree mem' p k d b = record {
    node = b.node;
    at = k.other tree.root d ∙ b.at;
    kind = b.kind;
    one = b.one;
    null = b.null;
  }

  -- An insertion elsewhere leaves a tree broken.
  pub put_in-Broken :
      (tree tree' : BPlusTree K V) (p i : ℕ) (key : K) (v : Option V)
      → put_in tree p i key v ≡ some tree'
      → p ≢ tree.root
      → Broken tree
      → Broken tree'
  unfolding put_in
  put_in-Broken tree tree' p i key v e d b =
      let (n, e₀, f₀) = bound (load tree.memory p) _ _ e in
      let (ks, e₁, f₁) = bound (shift_up (n.key_count - i) i n.keys) _ _ f₀ in
      let (vs, e₂, f₂) = bound (shift_up (n.key_count - i) i n.values) _ _ f₁ in
      let (ks', e₃, f₃) = bound (write ks i (some (some key))) _ _ f₂ in
      let (vs', e₄, f₄) = bound (write vs i (some v)) _ _ f₃ in
      let (mem, e₅, f₅) =
        bound
          (store tree.memory p (record n { keys = ks'; values = vs'; key_count = n.key_count + 1 }))
          _ _ f₄ in
      let made : record tree { memory = mem } ≡ tree' = cc in
      subst Broken made (Keeps-Broken tree mem p (store-Keeps tree.memory mem p _ e₅) d b)
