-- ===== src/MemoryCache/Eviction.antt =====
-- Which item src/memory/memory_cache.c evicts, and that its loop of evictions ends.
use micro_meow_db.Prelude.{
  ℕ, zero, suc, ◌+◌, ◌-◌, ◌%◌, ◌^◌, ◌≤◌, ◌<◌, ◌≡◌, refl, ap, ◌∙◌, Bool, true, false, some, List, [],
  ◌∷◌, length, get_elem?, ltb, ◌⊎◌, All, ◌==◌, arith, Bool-cases, inl, inr,
}
use micro_meow_db.MemoryCache.{
  CacheItem, MemoryCache, size_of, remove_at, replaces, victim, memory_cache_evict,
}

-- the bytes of all items
abbrev pub total : List CacheItem → ℕ
total [] = 0
total (x ∷ xs) = size_of x + total xs

-- The counters say what the items are, and the limits hold.
pub record IsValid (cache : MemoryCache) : Type 0 where
  pub counted : cache.item_count ≡ length cache.items
  pub summed : cache.used ≡ total cache.items
  pub within : cache.used ≤ cache.capacity
  pub few : cache.item_count ≤ cache.max_item_count
  pub small : cache.capacity < 2 ^ 63
  pub short : cache.max_item_count < 2 ^ 63

pub total-remove :
    (xs : List CacheItem) (i : ℕ) (x : CacheItem)
    → get_elem? xs i ≡ some x
    → size_of x + total (remove_at xs i) ≡ total xs
unfolding remove_at
total-remove [] i x e = cc
total-remove (y ∷ xs) zero x e = ground arith
total-remove (y ∷ xs) (suc i) x e = omega (arith, total-remove xs i x e)

pub length-remove :
    (xs : List CacheItem) (i : ℕ) (x : CacheItem)
    → get_elem? xs i ≡ some x
    → suc (length (remove_at xs i)) ≡ length xs
unfolding remove_at
length-remove [] i x e = cc
length-remove (y ∷ xs) zero x e = refl
length-remove (y ∷ xs) (suc i) x e = ap suc (length-remove xs i x e)

replaces_trans :
    (x y z : CacheItem) → replaces x y ≡ false → replaces y z ≡ false → replaces x z ≡ false
unfolding replaces
replaces_trans x y z h k = ground arith

replaces_irrefl : (x : CacheItem) → replaces x x ≡ false
unfolding replaces
replaces_irrefl x = ground arith

replaces_asym : (x y : CacheItem) → replaces x y ≡ true → replaces y x ≡ false
unfolding replaces
replaces_asym x y h = ground arith

All-replaces :
    (xs : List CacheItem) (v w : CacheItem)
    → replaces v w ≡ false
    → All (λ y. replaces y v ≡ false) xs
    → All (λ y. replaces y w ≡ false) xs
All-replaces [] v w h a = tt
All-replaces (x ∷ xs) v w h a = (replaces_trans x v w a.0 h, All-replaces xs v w h a.1)

-- the order of eviction: fewer accesses, or as many and not used later
abbrev pub Before : CacheItem → CacheItem → Type 0
Before v y =
    (v.access_count < y.access_count)
    ⊎ ((v.access_count ≡ y.access_count) × (v.last_access_time ≤ y.last_access_time))

-- an item, with its position, that is before all items
pub record Least (xs : List CacheItem) (i : ℕ) (v : CacheItem) : Type 0 where
  pub at : get_elem? xs i ≡ some v
  pub least : All (Before v) xs

replaces-Before : (v y : CacheItem) → replaces y v ≡ false → Before v y
unfolding replaces
replaces-Before v y h = elim (Bool-cases (ltb v.access_count y.access_count)) [
  | inl e ↦ inl (ground arith)
  | inr e ↦ inr (ground arith, ground arith)
]

All-Before :
    (xs : List CacheItem) (v : CacheItem) → All (λ y. replaces y v ≡ false) xs → All (Before v) xs
All-Before [] v a = tt
All-Before (y ∷ xs) v a = (replaces-Before v y a.0, All-Before xs v a.1)

victim_lem :
    (x : CacheItem) (xs : List CacheItem)
    → (i : ℕ) × (v : CacheItem) × (victim (x ∷ xs) ≡ some (i, v))
      × (get_elem? (x ∷ xs) i ≡ some v)
      × All (λ y. replaces y v ≡ false) (x ∷ xs)
unfolding victim
victim_lem x [] = (0, x, refl, refl, (replaces_irrefl x, tt))
victim_lem x (y ∷ xs) =
    let (i, v, e, at, l) = victim_lem y xs in
    elim (Bool-cases (replaces x v)) [
      | inl r ↦ (
        0,
        x,
        rw (e, r) refl,
        refl,
        (replaces_irrefl x, All-replaces (y ∷ xs) v x (replaces_asym x v r) l),
      )
      | inr r ↦ (suc i, v, rw (e, r) refl, at, (r, l))
    ]

-- what an eviction from a cache with items does
pub record Evicts (cache : MemoryCache) (r : MemoryCache × Bool) : Type 0 where
  pub done : r.1 ≡ true
  pub valid : IsValid r.0
  pub chosen :
      (i : ℕ) × (v : CacheItem) × Least cache.items i v
      × (r.0 ≡ record cache {
        items = remove_at cache.items i;
        used = cache.used - size_of v;
        item_count = cache.item_count - 1;
      })

-- An eviction from a valid cache that has an item succeeds, and the cache stays valid. Just one item
-- goes, with its bytes and its place in the count: one that no item has fewer accesses than, and of
-- those with as few accesses none was used earlier.
pub evict-Evicts :
    (cache : MemoryCache) (x : CacheItem) (xs : List CacheItem)
    → IsValid cache
    → cache.items ≡ x ∷ xs
    → Evicts cache (memory_cache_evict cache)
unfolding memory_cache_evict
evict-Evicts cache x xs v e =
    let (i, y, f, there, l) = victim_lem x xs in
    let some_items : (cache.item_count == 0) ≡ false = ground (arith, v.counted, ap length e) in
    let found : victim cache.items ≡ some (i, y) = ap victim e ∙ f in
    let at : get_elem? cache.items i ≡ some y = ap (λ t. get_elem? t i) e ∙ there in
    let sum = total-remove cache.items i y at in
    let count = length-remove cache.items i y at in
    let used : (cache.used + 2 ^ 64 - size_of y) % 2 ^ 64 ≡ cache.used - size_of y =
      omega (arith, sum, v.summed, v.within, v.small) in
    let items : (cache.item_count + (2 ^ 64 - 1)) % 2 ^ 64 ≡ cache.item_count - 1 =
      omega (arith, count, v.counted, v.few, v.short) in
    rw (memory_cache_evict, some_items, found, used, items)
      (record {
        done = refl;
        valid = record {
          counted = omega (arith, count, v.counted);
          summed = omega (arith, sum, v.summed);
          within = omega (arith, v.within);
          few = omega (arith, v.few);
          small = v.small;
          short = v.short;
        };
        chosen = (i, y, record { at = at; least = rw e (All-Before (x ∷ xs) y l) }, refl);
      })

-- Without items there is nothing to evict.
pub evict_empty :
    (cache : MemoryCache)
    → IsValid cache
    → cache.items ≡ []
    → memory_cache_evict cache ≡ (cache, false)
unfolding memory_cache_evict
evict_empty cache v e =
    let no_items : (cache.item_count == 0) ≡ true = ground (arith, v.counted, ap length e) in
    rw (memory_cache_evict, no_items) refl
