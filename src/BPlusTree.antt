-- ===== src/BPlusTree.antt =====
-- src/index/b_plus_tree.c: nodes with arrays of keys, and of values or children. The nodes stand in a
-- memory of cells, where a freed cell is `none`, since they point to parents and siblings. A slot of
-- an array is `none` until it is written, then a pointer, which is `none` for `NULL`. Outside, `none`
-- is what C leaves undefined: an access past an array, a read of a slot that was never written, a
-- comparison with `NULL`, a walk without end. The trees have no functions to destroy keys or values,
-- and fewer than 2 ^ 31 keys in a node.
pub mod Search
pub mod Arrays
pub mod Entries
pub mod Leaf
pub mod Insertion
pub mod History
pub mod Nodes
pub mod Splitting
pub mod Full
mod Examples
use micro_meow_db.Prelude.{
  ℕ, zero, suc, ◌+◌, ◌-◌, ◌/◌, ◌%◌, ◌^◌, Bool, true, false, ◌&&◌, not, Option, none, some, List, [],
  ◌∷◌, ◌++◌, length, get_elem?, set, replicate, ltb, leb, ◌==◌, if◌then◌else◌, ◌>>=◌,
}

pub data NodeType : Type 0 where
  internal leaf : NodeType

-- the sign of a comparison
pub data Order : Type 0 where
  less same greater : Order

-- a slot of an array of pointers
abbrev pub Slot {ℓ} : Type ℓ → Type ℓ
Slot A = Option (Option A)

-- The union has an array of children or of values: the other one is empty here.
pub record Node (K V : Type 0) : Type 0 where
  pub type : NodeType
  pub key_count : ℕ
  pub capacity : ℕ
  pub keys : List (Slot K)
  pub children : List (Slot ℕ)
  pub values : List (Slot V)
  pub parent : Option ℕ
  pub prev : Option ℕ
  pub next : Option ℕ

-- The cells by address, and the answers of the allocator: the next one is at `asked`.
pub record Memory (K V : Type 0) : Type 0 where
  pub cells : List (Option (Node K V))
  pub grants : ℕ → Bool
  pub asked : ℕ

pub record BPlusTree (K V : Type 0) : Type 0 where
  pub memory : Memory K V
  pub root : ℕ
  pub first_leaf : ℕ
  pub last_leaf : ℕ
  pub height : ℕ
  pub node_capacity : ℕ
  pub compare : K → K → Order

-- a slot that is read
unfoldable pub read {ℓ} : {A : Type ℓ} → List (Slot A) → ℕ → Option (Option A)
read xs i = get_elem? xs i >>= λ slot. slot

-- a slot that is written
unfoldable pub write {ℓ} : {A : Type ℓ} → List (Slot A) → ℕ → Slot A → Option (List (Slot A))
write xs i slot = if ltb i (length xs) then some (set xs i slot) else none

-- One slot is written with what another has, whatever that is.
unfoldable pub copy_slot {ℓ} :
    {A : Type ℓ} → List (Slot A) → ℕ → List (Slot A) → ℕ → Option (List (Slot A))
copy_slot from i to j = get_elem? from i >>= λ slot. write to j slot

unfoldable pub load : {K V : Type 0} → Memory K V → ℕ → Option (Node K V)
load mem p = get_elem? mem.cells p >>= λ cell. cell

unfoldable pub store : {K V : Type 0} → Memory K V → ℕ → Node K V → Option (Memory K V)
store mem p n = load mem p >>= λ old. some (record mem { cells = set mem.cells p (some n) })

-- a change of one node, and of one that may be `NULL`
unfoldable pub modify :
    {K V : Type 0} → Memory K V → ℕ → (Node K V → Node K V) → Option (Memory K V)
modify mem p f = load mem p >>= λ n. store mem p (f n)

unfoldable pub modify_any :
    {K V : Type 0} → Memory K V → Option ℕ → (Node K V → Node K V) → Option (Memory K V)
modify_any mem none f = some mem
modify_any mem (some p) f = modify mem p f

-- One answer stands for the three allocations of a node: if one of them fails, the others are undone.
unfoldable pub b_plus_tree_create_node :
    {K V : Type 0} → Memory K V → ℕ → NodeType → Memory K V × Option ℕ
b_plus_tree_create_node {K} {V} mem node_capacity type =
    let n : Node K V = record {
      type = type;
      key_count = 0;
      capacity = node_capacity;
      keys = replicate node_capacity none;
      children = elim type [ internal ↦ replicate (node_capacity + 1) none | leaf ↦ [] ];
      values = elim type [ internal ↦ [] | leaf ↦ replicate node_capacity none ];
      parent = none;
      prev = none;
      next = none;
    } in
    if mem.grants mem.asked
    then (
      record mem { cells = mem.cells ++ some n ∷ []; asked = mem.asked + 1 },
      some (length mem.cells),
    )
    else (record mem { asked = mem.asked + 1 }, none)

-- The root is made before the capacity of its nodes is set: it has what the memory of the tree held.
unfoldable pub b_plus_tree_create :
    {K V : Type 0} → Bool → (ℕ → Bool) → ℕ → ℕ → (K → K → Order) → Option (BPlusTree K V)
b_plus_tree_create granted grants held node_capacity compare =
    let made =
      b_plus_tree_create_node (record { cells = []; grants = grants; asked = 0 }) held leaf in
    if granted
    then (made.1 >>= λ root. some (record {
      memory = made.0;
      root = root;
      first_leaf = root;
      last_leaf = root;
      height = 1;
      node_capacity = node_capacity;
      compare = compare;
    }))
    else none

unfoldable pub b_plus_tree_node_is_full : {K V : Type 0} → Node K V → Bool
b_plus_tree_node_is_full n = leb n.capacity n.key_count

-- The loop of the binary search over the places from `left` on, below `bound`, which is one more than
-- `right`. Fuel above the number of places is enough.
unfoldable pub search : {K : Type 0} → ℕ → (K → K → Order) → List (Slot K) → K → ℕ → ℕ → Option ℕ
search zero compare keys key left bound = none
search (suc fuel) compare keys key left bound =
    let mid : ℕ = (left + (bound - 1)) / 2 in
    let below : Option ℕ = search fuel compare keys key left mid in
    let above : Option ℕ = search fuel compare keys key (mid + 1) bound in
    if ltb left bound
    then (read keys mid >>= λ k.
        k >>= λ k'. elim (compare key k') [ less ↦ below | same ↦ some mid | greater ↦ above ])
    else some left

unfoldable pub b_plus_tree_find_key_index :
    {K V : Type 0} → Node K V → K → (K → K → Order) → Option ℕ
b_plus_tree_find_key_index n key compare = search (n.key_count + 1) compare n.keys key 0 n.key_count

-- The walk to a leaf: one that is longer than the number of cells comes back to a node.
unfoldable pub descend : {K V : Type 0} → ℕ → Memory K V → (K → K → Order) → ℕ → K → Option ℕ
descend zero mem compare p key = none
descend (suc fuel) mem compare p key = load mem p >>= λ n. elim n.type [
  | leaf ↦ some p
  | internal ↦ do
    i ← b_plus_tree_find_key_index n key compare
    child ← read n.children i
    p' ← child
    descend fuel mem compare p' key
]

unfoldable pub b_plus_tree_find_leaf : {K V : Type 0} → BPlusTree K V → K → Option ℕ
b_plus_tree_find_leaf tree key =
    descend (length tree.memory.cells + 1) tree.memory tree.compare tree.root key

-- whether a place has the key
unfoldable pub is_at : {K V : Type 0} → Node K V → ℕ → K → (K → K → Order) → Option Bool
is_at n i key compare =
    if ltb i n.key_count
    then (read n.keys i >>= λ k.
        k >>= λ k'. some (elim (compare key k') [ less ↦ false | same ↦ true | greater ↦ false ]))
    else some false

-- the value, or `none` for `NULL`
unfoldable pub b_plus_tree_find : {K V : Type 0} → BPlusTree K V → K → Option (Option V)
b_plus_tree_find tree key = do
  p ← b_plus_tree_find_leaf tree key
  n ← load tree.memory p
  i ← b_plus_tree_find_key_index n key tree.compare
  found ← is_at n i key tree.compare
  if found then read n.values i else some none

-- The loop that moves slots up by one, from the last one down to a place.
unfoldable pub shift_up {ℓ} : {A : Type ℓ} → ℕ → ℕ → List (Slot A) → Option (List (Slot A))
shift_up zero i xs = some xs
shift_up (suc left) i xs = do ys ← copy_slot xs (i + left) xs (i + left + 1); shift_up left i ys

-- The loop of a split that moves slots to the end of a new array, which it counts with the keys.
unfoldable pub move_slots {ℓ} :
    {A : Type ℓ}
    → ℕ
    → ℕ
    → List (Slot A)
    → List (Slot A)
    → ℕ
    → Option (List (Slot A) × List (Slot A) × ℕ)
move_slots zero i xs ys count = some (xs, ys, count)
move_slots (suc left) i xs ys count = do
  ys' ← copy_slot xs i ys count
  xs' ← write xs i (some none)
  move_slots left (i + 1) xs' ys' (count + 1)

-- The children that were moved get their new parent.
unfoldable pub adopt : {K V : Type 0} → ℕ → ℕ → Memory K V → List (Slot ℕ) → ℕ → Option (Memory K V)
adopt zero i mem children p = some mem
adopt (suc left) i mem children p = do
  child ← read children i
  c ← child
  mem' ← modify mem c (λ n. record n { parent = some p })
  adopt left (i + 1) mem' children p

-- The second half of a node goes to a new one.
unfoldable pub divide : {K V : Type 0} → BPlusTree K V → ℕ → ℕ → Option (BPlusTree K V)
divide tree p q = do
  n ← load tree.memory p
  fresh ← load tree.memory q
  let mid : ℕ = n.key_count / 2
  let moved : ℕ = n.key_count - mid
  ks ← move_slots moved mid n.keys fresh.keys 0
  elim n.type [
    | internal ↦ do
      cs ← move_slots (moved + 1) mid n.children fresh.children ks.2
      mem₁ ← store tree.memory p (record n { keys = ks.0; children = cs.0; key_count = mid })
      mem₂ ← store mem₁ q (record fresh { keys = ks.1; children = cs.1; key_count = cs.2 - 1 })
      mem₃ ← adopt (moved + 1) ks.2 mem₂ cs.1 q
      some (record tree { memory = mem₃ })
    | leaf ↦ do
      vs ← move_slots moved mid n.values fresh.values ks.2
      mem₁ ← store tree.memory q (record fresh {
        keys = ks.1;
        values = vs.1;
        key_count = vs.2;
        prev = some p;
        next = n.next;
      })
      mem₂ ← modify_any mem₁ n.next (λ x. record x { prev = some q })
      mem₃ ← store mem₂ p (record n { keys = ks.0; values = vs.0; key_count = mid; next = some q })
      some (record tree {
        memory = mem₃;
        last_leaf = if tree.last_leaf == p then q else tree.last_leaf;
      })
  ]

-- The search for what a slot has: it compares nothing in a node without keys.
unfoldable pub find_slot : {K V : Type 0} → Node K V → Slot K → (K → K → Order) → Option ℕ
find_slot n slot compare =
    if n.key_count == 0
    then some 0
    else (slot >>= λ k. k >>= λ k'. b_plus_tree_find_key_index n k' compare)

-- the children of a node that are not `NULL`, those of its first slots
unfoldable pub some_children : ℕ → List (Slot ℕ) → Option (List ℕ)
some_children zero slots = some []
some_children (suc left) slots = do
  c ← read slots left
  cs ← some_children left slots
  some (elim c [ none ↦ cs | some p ↦ p ∷ cs ])

-- Nodes are freed with all that is below them: each takes one unit of the fuel.
unfoldable pub b_plus_tree_destroy_node :
    {K V : Type 0} → ℕ → Memory K V → List ℕ → Option (Memory K V)
b_plus_tree_destroy_node fuel mem [] = some mem
b_plus_tree_destroy_node zero mem (p ∷ ps) = none
b_plus_tree_destroy_node (suc fuel) mem (p ∷ ps) = do
  n ← load mem p
  cs ← elim n.type [ leaf ↦ some [] | internal ↦ some_children (n.key_count + 1) n.children ]
  b_plus_tree_destroy_node fuel (record mem { cells = set mem.cells p none }) (cs ++ ps)

-- The root above the two halves. Where it cannot be allocated, the new node is destroyed.
unfoldable pub grow_root :
    {K V : Type 0} → BPlusTree K V → ℕ → ℕ → Option (BPlusTree K V × Option ℕ)
grow_root tree p q = do
  let (mem, made) = b_plus_tree_create_node tree.memory tree.node_capacity internal
  elim made [
    | none ↦ do
      mem' ← b_plus_tree_destroy_node (length mem.cells + 1) mem (q ∷ [])
      some (record tree { memory = mem' }, none)
    | some r ↦ do
      root ← load mem r
      n ← load mem p
      ks ← copy_slot n.keys n.key_count root.keys 0
      emptied ← write n.keys n.key_count (some none)
      first ← write root.children 0 (some (some p))
      both ← write first 1 (some (some q))
      mem₁ ← store mem r (record root { keys = ks; children = both; key_count = 1 })
      mem₂ ← store mem₁ p (record n { keys = emptied; parent = some r })
      mem₃ ← modify mem₂ q (λ x. record x { parent = some r })
      some (record tree { memory = mem₃; root = r; height = (tree.height + 1) % 2 ^ 32 }, some q)
  ]

-- The new node behind the old one in their parent, under the key that was the first to be moved.
unfoldable pub enter_parent : {K V : Type 0} → BPlusTree K V → ℕ → ℕ → ℕ → Option (BPlusTree K V)
enter_parent tree p q r = do
  n ← load tree.memory p
  above ← load tree.memory r
  slot ← get_elem? n.keys n.key_count
  i ← find_slot above slot tree.compare
  ks ← shift_up (above.key_count - i) i above.keys
  cs ← shift_up (above.key_count - i) (i + 1) above.children
  ks' ← write ks i slot
  cs' ← write cs (i + 1) (some (some q))
  emptied ← write n.keys n.key_count (some none)
  mem₁ ←
      store tree.memory r
        (record above { keys = ks'; children = cs'; key_count = above.key_count + 1 })
  mem₂ ← modify mem₁ p (λ x. record x { keys = emptied })
  mem₃ ← modify mem₂ q (λ x. record x { parent = some r })
  some (record tree { memory = mem₃ })

-- The halves of a node, then its parent, which is split in turn if it is full. On fuel, for as many
-- nodes as there are above.
unfoldable pub b_plus_tree_split_node :
    {K V : Type 0} → ℕ → BPlusTree K V → ℕ → Option (BPlusTree K V × Option ℕ)
b_plus_tree_split_node zero tree p = none
b_plus_tree_split_node (suc fuel) tree p = do
  n ← load tree.memory p
  let (mem, made) = b_plus_tree_create_node tree.memory tree.node_capacity n.type
  elim made [
    | none ↦ some (record tree { memory = mem }, none)
    | some q ↦ do
      tree₁ ← divide (record tree { memory = mem }) p q
      elim n.parent [
        | none ↦ grow_root tree₁ p q
        | some r ↦ do
          tree₂ ← enter_parent tree₁ p q r
          above ← load tree₂.memory r
          let higher = b_plus_tree_split_node fuel tree₂ r
          tree₃ ← if b_plus_tree_node_is_full above then (higher >>= λ t. some t.0) else some tree₂
          some (tree₃, some q)
      ]
  ]

-- A pair is put in at a place of a leaf.
unfoldable pub put_in :
    {K V : Type 0} → BPlusTree K V → ℕ → ℕ → K → Option V → Option (BPlusTree K V)
put_in tree p i key value = do
  n ← load tree.memory p
  ks ← shift_up (n.key_count - i) i n.keys
  vs ← shift_up (n.key_count - i) i n.values
  ks' ← write ks i (some (some key))
  vs' ← write vs i (some value)
  mem ← store tree.memory p (record n { keys = ks'; values = vs'; key_count = n.key_count + 1 })
  some (record tree { memory = mem })

-- The last key of the old leaf tells the leaf that takes a new key: in the new one, it is the first.
unfoldable pub choose_leaf : {K V : Type 0} → BPlusTree K V → ℕ → ℕ → ℕ → K → Option (ℕ × ℕ)
choose_leaf tree p q i key = do
  n ← load tree.memory p
  k ← read n.keys ((n.key_count + (2 ^ 32 - 1)) % 2 ^ 32)
  last ← k
  some (elim (tree.compare key last) [ less ↦ (p, i) | same ↦ (p, i) | greater ↦ (q, 0) ])

unfoldable pub b_plus_tree_insert :
    {K V : Type 0} → BPlusTree K V → K → Option V → Option (BPlusTree K V × Bool)
b_plus_tree_insert tree key value = do
  p ← b_plus_tree_find_leaf tree key
  n ← load tree.memory p
  i ← b_plus_tree_find_key_index n key tree.compare
  found ← is_at n i key tree.compare
  if found
      then (do
        vs ← write n.values i (some value)
        mem ← store tree.memory p (record n { values = vs })
        some (record tree { memory = mem }, true))
      else if b_plus_tree_node_is_full n
      then (do
        (tree', made) ← b_plus_tree_split_node (length tree.memory.cells + 1) tree p
        elim made [
          | none ↦ some (tree', false)
          | some q ↦ do
            (p', i') ← choose_leaf tree' p q i key
            tree'' ← put_in tree' p' i' key value
            some (tree'', true)
        ])
      else (put_in tree p i key value >>= λ tree'. some (tree', true))
