-- ===== src/HashIndex/Laws.antt =====
-- The operations of src/index/hash_index.c as updates of a map from keys to values.
use micro_meow_db.Prelude.{
  ℕ, zero, suc, ◌+◌, ◌-◌, ◌%◌, ◌^◌, ◌≤◌, ◌<◌, ◌≡◌, refl, ◌∙◌, Bool, true, false, ◌&&◌, Option, none,
  some, List, [], ◌∷◌, arith, inl, inr, Bytes, bytes_eq, bytes_eq_iff, length, get_or, set,
  get_or-set, length-set, All, All-set, All-get_or, All-replicate, replicate, length-replicate,
  get_or-replicate, ◌==◌, if◌then◌else◌, Option-cases, Bool-cases,
}
use micro_meow_db.HashIndex.{
  HashNode, HashIndex, Alloc, bucket, hash_function, hash_node_create, find_node, update_node,
  unlink_node, hash_index_create, hash_index_insert, hash_index_get, hash_index_delete,
}
use micro_meow_db.HashIndex.Chain.{
  value_of, IsDistinct, find-update, find-unlink, find-cons, update-IsDistinct, unlink-IsDistinct,
  length-update, length-unlink,
}

-- the nodes of all chains
abbrev pub total : List (List HashNode) → ℕ
total [] = 0
total (c ∷ cs) = length c + total cs

-- The map that the table stands for.
abbrev pub view : HashIndex → Bytes → Option Bytes
view index key = value_of (find_node key (bucket index (hash_function key index.bucket_count)))

pub record IsValid (index : HashIndex) : Type 0 where
  pub width : length index.buckets ≡ index.bucket_count
  pub positive : 0 < index.bucket_count
  pub distinct : All IsDistinct index.buckets
  pub counted : index.item_count ≡ total index.buckets % 2 ^ 32

total-set :
    (bs : List (List HashNode)) (i : ℕ) (c : List HashNode)
    → i < length bs
    → total (set bs i c) + length (get_or bs i []) ≡ total bs + length c
unfolding set get_or
total-set [] i c h = absurd (omega arith)
total-set (b ∷ bs) zero c h = omega arith
total-set (b ∷ bs) (suc i) c h = omega (arith, total-set bs i c)

total-replicate : (n : ℕ) → total (replicate n []) ≡ 0
unfolding replicate
total-replicate zero = refl
total-replicate (suc n) = omega (arith, total-replicate n)

home-lt :
    (index : HashIndex) (key : Bytes)
    → IsValid index
    → hash_function key index.bucket_count < length index.buckets
unfolding hash_function
home-lt index key v = ground (arith, v.width, v.positive)

-- what replaces the chain of `k` decides the map
view-set :
    (index : HashIndex) (k q : Bytes) (c : List HashNode) (count : ℕ) (r : Option Bytes)
    → IsValid index
    → (value_of (find_node q c) ≡ (
        if bytes_eq q k
        then r
        else value_of (find_node q (bucket index (hash_function k index.bucket_count)))))
    → view
        (record index {
          buckets = set index.buckets (hash_function k index.bucket_count) c;
          item_count = count;
        })
        q
      ≡ (if bytes_eq q k then r else view index q)
view-set index k q c count r v e =
    rw (get_or-set index.buckets _ (hash_function q index.bucket_count) c [] (home-lt index k v))
      (ground (arith, bytes_eq_iff q k))

-- Every chain that replaces the chain of `k` keeps the table valid, if the counter follows.
replace-IsValid :
    (index : HashIndex) (k : Bytes) (c : List HashNode) (count : ℕ)
    → IsValid index
    → IsDistinct c
    → (let i = hash_function k index.bucket_count in
        count ≡ (total index.buckets + length c - length (bucket index i)) % 2 ^ 32)
    → IsValid (record index {
      buckets = set index.buckets (hash_function k index.bucket_count) c;
      item_count = count;
    })
replace-IsValid index k c count v d e =
    let i = hash_function k index.bucket_count in
    let moved = total-set index.buckets i c (home-lt index k v) in
    let sum : total (set index.buckets i c)
        ≡ total index.buckets + length c - length (bucket index i) =
      omega arith in
    record {
      width = length-set index.buckets i c ∙ v.width;
      positive = v.positive;
      distinct = All-set IsDistinct index.buckets i c v.distinct d;
      counted = rw sum e;
    }

-- the chain of a key fits in the total
bucket-le-total : (bs : List (List HashNode)) (i : ℕ) → length (get_or bs i []) ≤ total bs
unfolding get_or
bucket-le-total [] i = omega arith
bucket-le-total (b ∷ bs) zero = omega arith
bucket-le-total (b ∷ bs) (suc i) = omega (arith, bucket-le-total bs i)

bucket-IsDistinct : (index : HashIndex) (i : ℕ) → IsValid index → IsDistinct (bucket index i)
bucket-IsDistinct index i v = All-get_or IsDistinct index.buckets i [] v.distinct tt

-- the table of `n` empty chains
abbrev pub empty : ℕ → HashIndex
empty n = record { buckets = replicate n []; bucket_count = n; item_count = 0 }

-- A bucket count of 0 stands for 1024.
pub create-eq :
    (m : Alloc) (n : ℕ) (index : HashIndex)
    → hash_index_create m n ≡ some index
    → index ≡ empty (if n == 0 then 1024 else n)
unfolding hash_index_create
create-eq m n index e = ground arith

pub empty-IsValid : (n : ℕ) → 0 < n → IsValid (empty n)
empty-IsValid n h = record {
  width = length-replicate n [];
  positive = h;
  distinct = All-replicate IsDistinct n [] tt;
  counted = omega (arith, total-replicate n);
}

pub view-empty : (n : ℕ) (q : Bytes) → view (empty n) q ≡ none
unfolding find_node
view-empty n q = rw (get_or-replicate {A = List HashNode} n (hash_function q n) [])

-- The three ways out of an insertion of a value with bytes: nothing done, a value replaced, a node put
-- in front.
insert_cases {ℓ} :
    (P : HashIndex × Bool → Type ℓ) (m : Alloc) (index : HashIndex) (k v : Bytes)
    → (let i = hash_function k index.bucket_count in
        let c = bucket index i in
        0 < length v
        → P (index, false)
        → ((old : HashNode)
            → find_node k c ≡ some old
            → P (record index { buckets = set index.buckets i (update_node k v c) }, true))
        → (find_node k c ≡ none
            → P (
              record index {
                buckets = set index.buckets i (record { key = k; value = v } ∷ c);
                item_count = (index.item_count + 1) % 2 ^ 32;
              },
              true,
            ))
        → (r : HashIndex × Bool) × (hash_index_insert m index (some k) v ≡ some r) × P r)
unfolding hash_index_insert hash_node_create
insert_cases P m index k v some_bytes refused replaced added =
    let not_empty : (length v == 0) ≡ false = ground arith in
    elim (Option-cases (find_node k (bucket index (hash_function k index.bucket_count)))) [
      | inr (old, e) ↦ elim (Bool-cases (m 0)) [
        | inl t ↦ (_, rw (e, hash_index_insert, not_empty, t) refl, replaced old e)
        | inr f ↦ ((index, false), rw (e, hash_index_insert, not_empty, f) refl, refused)
      ]
      | inl e ↦ elim (Bool-cases (m 0 && m 1 && m 2)) [
        | inl t ↦ (_, rw (e, hash_index_insert, hash_node_create, t) refl, added e)
        | inr f ↦ ((index, false), rw (e, hash_index_insert, hash_node_create, f) refl, refused)
      ]
    ]

-- The two ways out of a deletion.
pub delete_cases {ℓ} :
    (P : HashIndex × Bool → Type ℓ) (index : HashIndex) (k : Bytes)
    → (let i = hash_function k index.bucket_count in
        let c = bucket index i in
        (find_node k c ≡ none → P (index, false))
        → ((old : HashNode)
            → find_node k c ≡ some old
            → P (
              record index {
                buckets = set index.buckets i (unlink_node k c);
                item_count = (index.item_count + 2 ^ 32 - 1) % 2 ^ 32;
              },
              true,
            ))
        → P (hash_index_delete index (some k)))
unfolding hash_index_delete
delete_cases P index k missing unlinked =
    elim (Option-cases (find_node k (bucket index (hash_function k index.bucket_count)))) [
      | inl e ↦ rw (e, hash_index_delete) (missing e)
      | inr (old, e) ↦ rw (e, hash_index_delete) (unlinked old e)
    ]

pub delete-IsValid :
    (index : HashIndex) (k : Option Bytes) → IsValid index → IsValid (hash_index_delete index k).0
unfolding hash_index_delete
delete-IsValid index none w = w
delete-IsValid index (some k) w =
    let i = hash_function k index.bucket_count in
    let c = bucket index i in
    let fits = bucket-le-total index.buckets i in
    delete_cases (λ r. IsValid r.0) index k (λ _. w)
      (λ old e.
        replace-IsValid index k _ _ w (unlink-IsDistinct k c (bucket-IsDistinct index i w))
          (omega (arith, w.counted, length-unlink k c old e)))

-- what a successful insertion makes of the map
abbrev pub put : Bytes → Bytes → (Bytes → Option Bytes) → Bytes → Option Bytes
put k v f q = if bytes_eq q k then some v else f q

abbrev pub remove : Bytes → (Bytes → Option Bytes) → Bytes → Option Bytes
remove k f q = if bytes_eq q k then none else f q

-- An insertion of a value with bytes is defined and keeps the table valid. It writes the key's value
-- and no other, or it fails and changes nothing.
pub insert_lem :
    (m : Alloc) (index : HashIndex) (k v : Bytes)
    → IsValid index
    → 0 < length v
    → (r : HashIndex × Bool) × (hash_index_insert m index (some k) v ≡ some r)
      × IsValid r.0
      × ((q : Bytes) → if r.1 then view r.0 q ≡ put k v (view index) q else r.0 ≡ index)
insert_lem m index k v w b =
    let i = hash_function k index.bucket_count in
    let c = bucket index i in
    let fits = bucket-le-total index.buckets i in
    let apart = bucket-IsDistinct index i w in
    let (r, done, kept) =
      insert_cases
        (λ r.
          IsValid r.0
          × ((q : Bytes) → if r.1 then view r.0 q ≡ put k v (view index) q else r.0 ≡ index))
        m index k v b (w, λ q. refl)
        (λ old e. (
          replace-IsValid index k _ _ w (update-IsDistinct k v c apart)
              (omega (arith, w.counted, length-update k v c)),
          λ q. view-set index k q _ index.item_count (some v) w (find-update k q v c old e),
        ))
        (λ e. (
          replace-IsValid index k _ _ w (e, apart) (omega (arith, w.counted)),
          λ q.
              view-set index k q _ ((index.item_count + 1) % 2 ^ 32) (some v) w (find-cons k q v c),
        )) in
    (r, done, kept.0, kept.1)

-- A deletion reports whether the key was there, and clears it and no other.
pub view-delete :
    (index : HashIndex) (k q : Bytes)
    → IsValid index
    → let r = hash_index_delete index (some k) in
      (view r.0 q ≡ remove k (view index) q)
      × (r.1 ≡ (elim (view index k) [ none ↦ false | some _ ↦ true ]))
view-delete index k q w =
    let i = hash_function k index.bucket_count in
    let c = bucket index i in
    delete_cases
      (λ r.
        (view r.0 q ≡ remove k (view index) q)
        × (r.1 ≡ (elim (view index k) [ none ↦ false | some _ ↦ true ])))
      index k (λ e. (ground (arith, bytes_eq_iff q k), rw e refl))
      (λ old e. (
        view-set index k q _ ((index.item_count + 2 ^ 32 - 1) % 2 ^ 32) none w
            (find-unlink k q c (bucket-IsDistinct index i w)),
        rw e refl,
      ))

abbrev pub size_of : Option Bytes → Option ℕ
size_of none = none
size_of (some v) = some (length v)

-- A search writes the size of the map's value, and returns the value if the copy is allocated.
pub get-view :
    (m : Alloc) (index : HashIndex) (k : Bytes)
    → hash_index_get m index (some k) ≡ (size_of (view index k), if m 0 then view index k else none)
unfolding hash_index_get
get-view m index k = ground arith
