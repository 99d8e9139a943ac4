-- ===== src/BPlusTree/Entries.antt =====
-- The pairs of a leaf of src/index/b_plus_tree.c as a sorted list, and what an insertion and a search
-- make of them.
use micro_meow_db.Prelude.{
  ℕ, zero, suc, ◌≡◌, ◌⊎◌, refl, sym, ap, ◌∙◌, Option, none, some, List, [], ◌∷◌, ◌++◌, map, length,
  get_elem?, All, arith, inl, inr,
}
use micro_meow_db.BPlusTree.{Order, less, same, greater, Slot, read}
use micro_meow_db.BPlusTree.Search.{IsOrder, All-chain, Order-cases, Sorted, Place, Written}

module _ {K V : Type 0} (compare : K → K → Order) where
  -- the value of a key
  abbrev pub value_of : K → List (K × Option V) → Option V
  value_of key [] = none
  value_of key (e ∷ es) = elim (compare key e.0) [
    | less ↦ value_of key es
    | same ↦ e.1
    | greater ↦ value_of key es
  ]

  -- a pair put in where it belongs: a key that is there keeps its place
  abbrev pub put : K → Option V → List (K × Option V) → List (K × Option V)
  put key v [] = (key, v) ∷ []
  put key v (e ∷ es) = elim (compare key e.0) [
    | less ↦ (key, v) ∷ e ∷ es
    | same ↦ (e.0, v) ∷ es
    | greater ↦ e ∷ put key v es
  ]

  abbrev pub keys_of : List (K × Option V) → List K
  keys_of es = map (λ e. e.0) es

  -- a search after an insertion
  abbrev pub put_value : K → Option V → (Option V) → K → Option V
  put_value key v before q = elim (compare q key) [ less ↦ before | same ↦ v | greater ↦ before ]

  put_same :
      (o : IsOrder compare) (key q : K) (v : Option V) (es : List (K × Option V)) (e : K × Option V)
      → compare key e.0 ≡ same
      → elim (compare q e.0) [ less ↦ value_of q es | same ↦ v | greater ↦ value_of q es ]
        ≡ put_value key v
            (elim (compare q e.0) [ less ↦ value_of q es | same ↦ e.1 | greater ↦ value_of q es ])
            q
  put_same o key q v es e c =
      rw (put_value, o.same_right key e.0 q c)
        (elim (Order-cases (compare q e.0)) [
          | inl f ↦ rw (put_value, f, f) refl
          | inr g ↦ elim g [ inl f ↦ rw (put_value, f) refl | inr f ↦ rw (put_value, f, f) refl ]
        ])

  put_greater :
      (o : IsOrder compare) (key q : K) (v : Option V) (es : List (K × Option V)) (e : K × Option V)
      → compare key e.0 ≡ greater
      → value_of q (put key v es) ≡ put_value key v (value_of q es) q
      → elim (compare q e.0) [
        | less ↦ value_of q (put key v es)
        | same ↦ e.1
        | greater ↦ value_of q (put key v es)
      ]
        ≡ put_value key v
            (elim (compare q e.0) [ less ↦ value_of q es | same ↦ e.1 | greater ↦ value_of q es ])
            q
  put_greater o key q v es e c rest = elim (Order-cases (compare q e.0)) [
    | inl f ↦ rw f rest
    | inr g ↦ elim g [
      | inl f ↦ elim (Order-cases (compare q key)) [
        | inl h ↦ rw (f, put_value, h, f) refl
        | inr i ↦ elim i [
          | inl h ↦ let clash = sym (o.same_left q key e.0 h) ∙ f in let no = sym c ∙ clash in cc
          | inr h ↦ rw (f, put_value, h, f) refl
        ]
      ]
      | inr f ↦ rw f rest
    ]
  ]

  pub value_of-put :
      (o : IsOrder compare) (key q : K) (v : Option V) (es : List (K × Option V))
      → value_of q (put key v es) ≡ put_value key v (value_of q es) q
  value_of-put o key q v [] = refl
  value_of-put o key q v (e ∷ es) = elim (Order-cases (compare key e.0)) [
    | inl c ↦ rw (put, c, value_of) refl
    | inr d ↦ elim d [
      | inl c ↦ rw (put, c, value_of) (put_same o key q v es e c)
      | inr c ↦ rw (put, c, value_of) (put_greater o key q v es e c (value_of-put o key q v es))
    ]
  ]

  -- A key that is at a place.
  pub record At (es : List (K × Option V)) (key : K) (i : ℕ) : Type 0 where
    pub before : List (K × Option V)
    pub entry : K × Option V
    pub after : List (K × Option V)
    pub split : es ≡ before ++ entry ∷ after
    pub place : length before ≡ i
    pub equal : compare key entry.0 ≡ same
    pub value : value_of key es ≡ entry.1
    pub change : (v : Option V) → put key v es ≡ before ++ (entry.0, v) ∷ after

  -- A key that goes to a place.
  pub record To (es : List (K × Option V)) (key : K) (i : ℕ) : Type 0 where
    pub before : List (K × Option V)
    pub after : List (K × Option V)
    pub split : es ≡ before ++ after
    pub place : length before ≡ i
    pub value : value_of key es ≡ none
    pub change : (v : Option V) → put key v es ≡ before ++ (key, v) ∷ after
    pub next :
        (e : K × Option V) (rest : List (K × Option V)) → after ≡ e ∷ rest → compare key e.0 ≡ less

  -- all keys are larger
  not_there :
      (es : List (K × Option V)) (key : K)
      → ((j : ℕ) (k : K) → get_elem? (keys_of es) j ≡ some k → compare key k ≡ less)
      → value_of key es ≡ none
  not_there [] key h = refl
  not_there (e ∷ es) key h = rw (value_of, h 0 e.0 refl) (not_there es key (λ j k g. h (suc j) k g))

  pub cut :
      (es : List (K × Option V)) (key : K) (i : ℕ)
      → Place compare (keys_of es) key i
      → At es key i ⊎ To es key i
  cut [] key zero p = inr (record {
    before = [];
    after = [];
    split = refl;
    place = refl;
    value = refl;
    change = λ v. refl;
    next = λ e rest k. cc;
  })
  cut [] key (suc i) p = let b = p.bound in absurd (omega arith)
  cut (e ∷ es) key zero p = elim p.at [
    | inl f ↦
        let here : e.0 ≡ f.0 = let k = f.1 in cc in
        let equal : compare key e.0 ≡ same = ap (compare key) here ∙ f.2 in
        inl (record {
          before = [];
          entry = e;
          after = es;
          split = refl;
          place = refl;
          equal = equal;
          value = rw (value_of, equal) refl;
          change = λ v. rw (put, equal) refl;
        })
    | inr f ↦
        let smaller : compare key e.0 ≡ less = f 0 e.0 (omega arith) refl in
        inr (record {
          before = [];
          after = e ∷ es;
          split = refl;
          place = refl;
          value = rw (value_of, smaller) (not_there es key (λ j k g. f (suc j) k (omega arith) g));
          change = λ v. rw (put, smaller) refl;
          next = λ e' rest k. let here : e ≡ e' = cc in rw (← here) smaller;
        })
  ]
  cut (e ∷ es) key (suc i) p =
      let larger : compare key e.0 ≡ greater = p.before 0 e.0 (omega arith) refl in
      let b = p.bound in
      let rest : Place compare (keys_of es) key i = record {
        bound = omega arith;
        before = λ j k l g. p.before (suc j) k (omega (arith, l)) g;
        at = elim p.at [
          | inl f ↦ inl f
          | inr f ↦ inr (λ j k l g. f (suc j) k (omega (arith, l)) g)
        ];
      } in
      elim (cut es key i rest) [
        | inl a ↦ inl (record {
          before = e ∷ a.before;
          entry = a.entry;
          after = a.after;
          split = ap (λ t. e ∷ t) a.split;
          place = ap suc a.place;
          equal = a.equal;
          value = rw (value_of, larger) a.value;
          change = λ v. rw (put, larger) (ap (λ t. e ∷ t) (a.change v));
        })
        | inr a ↦ inr (record {
          before = e ∷ a.before;
          after = a.after;
          split = ap (λ t. e ∷ t) a.split;
          place = ap suc a.place;
          value = rw (value_of, larger) a.value;
          change = λ v. rw (put, larger) (ap (λ t. e ∷ t) (a.change v));
          next = a.next;
        })
      ]

  All-put :
      (a key : K) (v : Option V) (es : List (K × Option V))
      → compare a key ≡ less
      → All (λ x. compare a x ≡ less) (keys_of es)
      → All (λ x. compare a x ≡ less) (keys_of (put key v es))
  All-put a key v [] l all = (l, tt)
  All-put a key v (e ∷ es) l all = elim (Order-cases (compare key e.0)) [
    | inl c ↦ rw (put, c) (l, all)
    | inr d ↦ elim d [
      | inl c ↦ rw (put, c) all
      | inr c ↦ rw (put, c) (all.0, All-put a key v es l all.1)
    ]
  ]

  pub put-Sorted :
      (o : IsOrder compare) (key : K) (v : Option V) (es : List (K × Option V))
      → Sorted compare (keys_of es)
      → Sorted compare (keys_of (put key v es))
  put-Sorted o key v [] s = (tt, tt)
  put-Sorted o key v (e ∷ es) s = elim (Order-cases (compare key e.0)) [
    | inl c ↦ rw (put, c) ((c, All-chain compare o key e.0 (keys_of es) c s.0), s)
    | inr d ↦ elim d [
      | inl c ↦ rw (put, c) s
      | inr c ↦
          rw (put, c) (All-put e.0 key v es (o.turn_back key e.0 c) s.0, put-Sorted o key v es s.1)
    ]
  ]

  -- the slots of the keys, and of the values
  abbrev pub key_slots : List (K × Option V) → List (Slot K)
  key_slots es = map (λ e. some (some e.0)) es

  abbrev pub value_slots : List (K × Option V) → List (Slot V)
  value_slots es = map (λ e. some e.1) es

  pub key_slots-Written :
      (es : List (K × Option V)) (spare : List (Slot K))
      → Written compare (key_slots es ++ spare) (keys_of es)
  unfolding read
  key_slots-Written [] spare j k g = cc
  key_slots-Written (e ∷ es) spare zero k g = let here : e.0 ≡ k = cc in rw here refl
  key_slots-Written (e ∷ es) spare (suc j) k g = key_slots-Written es spare j k g
