-- ===== src/BPlusTree/Search.antt =====
-- The binary search of src/index/b_plus_tree.c among sorted keys.
use micro_meow_db.Prelude.{
  ℕ, zero, suc, ◌+◌, ◌-◌, ◌/◌, ◌≤◌, ◌<◌, ◌≡◌, ◌⊎◌, refl, sym, ap, ◌∙◌, some, List, [], ◌∷◌, length,
  get_elem?, All, ltb, arith, Bool-cases, inl, inr,
}
use micro_meow_db.BPlusTree.{Order, less, same, greater, Slot, read, search}

-- what the search takes from the comparison
pub record IsOrder {K : Type 0} (compare : K → K → Order) : Type 0 where
  pub self : (a : K) → compare a a ≡ same
  pub same_left : (a b c : K) → compare a b ≡ same → compare a c ≡ compare b c
  pub same_right : (a b c : K) → compare a b ≡ same → compare c a ≡ compare c b
  pub chain : (a b c : K) → compare a b ≡ less → compare b c ≡ less → compare a c ≡ less
  pub turn : (a b : K) → compare a b ≡ less → compare b a ≡ greater
  pub turn_back : (a b : K) → compare a b ≡ greater → compare b a ≡ less

pub Order-cases : (o : Order) → (o ≡ less) ⊎ ((o ≡ same) ⊎ (o ≡ greater))
Order-cases less = inl refl
Order-cases same = inr (inl refl)
Order-cases greater = inr (inr refl)

module _ {K : Type 0} (compare : K → K → Order) where
  abbrev pub Sorted : List K → Type 0
  Sorted [] = Unit
  Sorted (k ∷ ks) = All (λ x. compare k x ≡ less) ks × Sorted ks

  pub All-chain :
      (o : IsOrder compare) (a b : K) (ks : List K)
      → compare a b ≡ less
      → All (λ x. compare b x ≡ less) ks
      → All (λ x. compare a x ≡ less) ks
  All-chain o a b [] l all = tt
  All-chain o a b (k ∷ ks) l all = (o.chain a b k l all.0, All-chain o a b ks l all.1)

  pub get-bound : (ks : List K) (j : ℕ) (k : K) → get_elem? ks j ≡ some k → j < length ks
  get-bound [] j k e = cc
  get-bound (x ∷ ks) zero k e = omega arith
  get-bound (x ∷ ks) (suc j) k e = omega (arith, get-bound ks j k e)

  All-at :
      (k : K) (ks : List K) (j : ℕ) (b : K)
      → All (λ x. compare k x ≡ less) ks
      → get_elem? ks j ≡ some b
      → compare k b ≡ less
  All-at k [] j b all e = cc
  All-at k (x ∷ ks) zero b all e = let here : x ≡ b = cc in rw (← here) all.0
  All-at k (x ∷ ks) (suc j) b all e = All-at k ks j b all.1 e

  -- Of two places the earlier one has the smaller key.
  Sorted-at :
      (ks : List K) (i j : ℕ) (a b : K)
      → Sorted ks
      → i < j
      → get_elem? ks i ≡ some a
      → get_elem? ks j ≡ some b
      → compare a b ≡ less
  Sorted-at [] i j a b s l e f = cc
  Sorted-at (k ∷ ks) zero zero a b s l e f = absurd (omega arith)
  Sorted-at (k ∷ ks) zero (suc j) a b s l e f =
      let here : k ≡ a = cc in rw (← here) (All-at k ks j b s.0 f)
  Sorted-at (k ∷ ks) (suc i) zero a b s l e f = absurd (omega arith)
  Sorted-at (k ∷ ks) (suc i) (suc j) a b s l e f = Sorted-at ks i j a b s.1 (omega arith) e f

  -- where a key stands among others, or goes
  pub record Place (ks : List K) (key : K) (i : ℕ) : Type 0 where
    pub bound : i ≤ length ks
    pub before : (j : ℕ) (k : K) → j < i → get_elem? ks j ≡ some k → compare key k ≡ greater
    pub at :
        ((k : K) × (get_elem? ks i ≡ some k) × (compare key k ≡ same))
        ⊎ ((j : ℕ) (k : K) → i ≤ j → get_elem? ks j ≡ some k → compare key k ≡ less)

  there : (ks : List K) (j : ℕ) → j < length ks → (k : K) × (get_elem? ks j ≡ some k)
  there [] j l = absurd (omega arith)
  there (k ∷ ks) zero l = (k, refl)
  there (k ∷ ks) (suc j) l = there ks j (omega (arith, l))

  -- The slots of the keys have been written.
  abbrev pub Written : List (Slot K) → List K → Type 0
  Written slots ks = (j : ℕ) (k : K) → get_elem? ks j ≡ some k → read slots j ≡ some (some k)

  one_key :
      (ks : List K) (i j : ℕ) (a b : K)
      → i ≡ j
      → get_elem? ks i ≡ some a
      → get_elem? ks j ≡ some b
      → a ≡ b
  one_key ks i j a b e f g =
      let k : some a ≡ some b = sym f ∙ ap (λ (t : ℕ). get_elem? ks t) e ∙ g in cc

  -- what the comparison with one key tells of those on its sides
  module _ (o : IsOrder compare) (ks : List K) (s : Sorted ks) (key k : K) (mid : ℕ)
      (at : get_elem? ks mid ≡ some k) where
    less_from :
        compare key k ≡ less
        → (j : ℕ) (x : K) → mid ≤ j
        → get_elem? ks j ≡ some x
        → compare key x ≡ less
    less_from c j x l g = elim (Bool-cases (ltb mid j)) [
      | inl e ↦ o.chain key k x c (Sorted-at ks mid j k x s (ground arith) at g)
      | inr e ↦ let here = one_key ks mid j k x (ground arith) at g in rw (← here) c
    ]

    greater_before :
        compare key k ≡ same
        → (j : ℕ) (x : K) → j < mid
        → get_elem? ks j ≡ some x
        → compare key x ≡ greater
    greater_before c j x l g = o.same_left key k x c ∙ o.turn x k (Sorted-at ks j mid x k s l g at)

    greater_to :
        compare key k ≡ greater
        → (j : ℕ) (x : K) → j < mid + 1
        → get_elem? ks j ≡ some x
        → compare key x ≡ greater
    greater_to c j x l g = elim (Bool-cases (ltb j mid)) [
      | inl e ↦
          o.turn x key
            (o.chain x k key (Sorted-at ks j mid x k s (ground arith) g at) (o.turn_back key k c))
      | inr e ↦ let here = one_key ks mid j k x (ground arith) at g in rw (← here) c
    ]

  -- The search ends where the key stands, or where it goes.
  pub search-Place :
      (o : IsOrder compare) (fuel : ℕ) (slots : List (Slot K)) (ks : List K) (key : K)
      (left bound : ℕ)
      → Written slots ks
      → Sorted ks
      → left ≤ bound
      → bound ≤ length ks
      → bound < fuel + left
      → ((j : ℕ) (k : K) → j < left → get_elem? ks j ≡ some k → compare key k ≡ greater)
      → ((j : ℕ) (k : K) → bound ≤ j → get_elem? ks j ≡ some k → compare key k ≡ less)
      → (i : ℕ) × (search fuel compare slots key left bound ≡ some i) × Place ks key i
  unfolding search
  search-Place o zero slots ks key left bound w s lb bl f low high = absurd (omega arith)
  search-Place o (suc fuel) slots ks key left bound w s lb bl f low high =
      let mid : ℕ = (left + (bound - 1)) / 2 in
      elim (Bool-cases (ltb left bound)) [
        | inr e ↦ (
          left,
          rw (search, e) refl,
          record { bound = omega arith; before = low; at = inr (λ j k l. high j k (ground arith)) },
        )
        | inl e ↦
            let above : left ≤ mid = ground arith in
            let inside : mid < bound = ground arith in
            let (k, at) = there ks mid (omega arith) in
            elim (Order-cases (compare key k)) [
              | inl c ↦
                  let (i, r, p) =
                    search-Place o fuel slots ks key left mid w s above (omega arith) (omega arith)
                      low (less_from o ks s key k mid at c) in
                  (i, rw (search, e, w mid k at, c) r, p)
              | inr d ↦ elim d [
                | inl c ↦ (
                  mid,
                  rw (search, e, w mid k at, c) refl,
                  record {
                    bound = omega arith;
                    before = greater_before o ks s key k mid at c;
                    at = inl (k, at, c);
                  },
                )
                | inr c ↦
                    let (i, r, p) =
                      search-Place o fuel slots ks key (mid + 1) bound w s (omega arith) bl
                        (omega arith) (greater_to o ks s key k mid at c) high in
                    (i, rw (search, e, w mid k at, c) r, p)
              ]
            ]
      ]
