-- ===== src/MemoryCache/Capacity.antt =====
-- A cache of src/memory/memory_cache.c stays within its limits, and returns what was put into it.
use micro_meow_db.Prelude.{
  ℕ, suc, ◌+◌, ◌-◌, ◌%◌, ◌^◌, ◌≤◌, ◌<◌, ◌≡◌, refl, ap, ◌⊎◌, Bool, true, false, ◌||◌, none, some,
  List, [], ◌∷◌, Bytes, bytes_eq, bytes_eq_refl, bytes_eq_iff, length, get_elem?, ◌==◌, arith,
  Bool-cases, inl, inr,
}
use micro_meow_db.MemoryPool.{PoolAlloc, MemoryPool}
use micro_meow_db.MemoryPool.Region.{Stays, alloc_region}
use micro_meow_db.MemoryCache.{
  CacheItem, MemoryCache, memory_cache_item_size, size_of, alive, allocate, memory_cache_find,
  memory_cache_update_access, memory_cache_move_to_head, add_item, update_item, memory_cache_set,
}
use micro_meow_db.MemoryCache.Loop.{evict_until-Rests}
use micro_meow_db.MemoryCache.Eviction.{IsValid, total-remove, length-remove}

-- what an allocation from the pool leaves of a cache, where the region stays
record Keeps (cache : MemoryCache) (next : MemoryCache) : Type 0 where
  alive : alive next ≡ true
  valid : IsValid next
  items : next.items ≡ cache.items
  home : next.home ≡ cache.home
  room : (next.used ≡ cache.used) × (next.item_count ≡ cache.item_count)
  limits : (next.capacity ≡ cache.capacity) × (next.max_item_count ≡ cache.max_item_count)

allocate-Keeps :
    (a : PoolAlloc) (cache : MemoryCache) (size : ℕ)
    → IsValid cache
    → alive cache ≡ true
    → Stays a cache.home
    → Keeps cache (allocate a cache size).0
unfolding allocate alive
allocate-Keeps a cache size v e s =
    let here : cache.home ≡ cache.memory_pool.large_memory = ground arith in
    let same = alloc_region a cache.memory_pool size (rw here at s) in
    record {
      alive = ground (arith, same);
      valid = record {
        counted = v.counted;
        summed = v.summed;
        within = v.within;
        few = v.few;
        small = v.small;
        short = v.short;
      };
      items = refl;
      home = refl;
      room = (refl, refl);
      limits = (refl, refl);
    }

still :
    (cache next : MemoryCache)
    → next.home ≡ cache.home
    → next.memory_pool ≡ cache.memory_pool
    → alive cache ≡ true
    → alive next ≡ true
unfolding alive
still cache next h p e = ground (arith, ap (λ (x : MemoryPool). x.large_memory) p)

-- A search finds a key where the list has it.
find-at :
    (xs : List CacheItem) (key : Bytes)
    → (memory_cache_find xs key ≡ none)
      ⊎ ((i : ℕ) × (x : CacheItem) × (memory_cache_find xs key ≡ some (i, x))
          × (get_elem? xs i ≡ some x)
          × (bytes_eq x.key key ≡ true))
unfolding memory_cache_find
find-at [] key = inl refl
find-at (y ∷ xs) key = elim (Bool-cases (bytes_eq y.key key)) [
  | inl e ↦ inr (0, y, rw e refl, refl, e)
  | inr e ↦ elim (find-at xs key) [
    | inl f ↦ inl (rw (e, f) refl)
    | inr (i, x, f, at, same) ↦ inr (suc i, x, rw (e, f) refl, at, same)
  ]
]

-- what a set leaves: a valid cache, whose first item is the one set if it returned true
pub record Stores (key value : Bytes) (r : MemoryCache × Bool) : Type 0 where
  pub valid : IsValid r.0
  pub alive : alive r.0 ≡ true
  pub stored :
      r.1 ≡ true
      → (item : CacheItem) × (memory_cache_find r.0.items key ≡ some (0, item))
        × (item.value ≡ value)

update-Stores :
    (a : PoolAlloc) (cache : MemoryCache) (i : ℕ) (item : CacheItem) (key value : Bytes)
    → IsValid cache
    → alive cache ≡ true
    → Stays a cache.home
    → get_elem? cache.items i ≡ some item
    → bytes_eq item.key key ≡ true
    → cache.used + memory_cache_item_size (length key) (length value) ≤ cache.capacity
    → (r : MemoryCache × Bool) × (update_item a cache i item value ≡ some r) × Stores key value r
unfolding update_item memory_cache_update_access memory_cache_move_to_head memory_cache_find
    allocate
update-Stores a cache i item key value v e s at same room =
    let k = allocate-Keeps a cache (length value) v e s in
    let next = (allocate a cache (length value)).0 in
    let sum = total-remove cache.items i item at in
    let count = length-remove cache.items i item at in
    let own : length item.key ≡ length key =
      ap (λ t. length t) ((bytes_eq_iff item.key key).0 same) in
    let new_size = memory_cache_item_size (length item.key) (length value) in
    let sizes : new_size ≡ memory_cache_item_size (length key) (length value) =
      ap (λ n. memory_cache_item_size n (length value)) own in
    let used : (cache.used + 2 ^ 64 - size_of item + new_size) % 2 ^ 64
        ≡ cache.used - size_of item + new_size =
      omega (arith, sum, v.summed, v.within, v.small, room, sizes) in
    elim (Bool-cases (allocate a cache (length value)).1) [
      | inr g ↦ (
        (next, false),
        rw (update_item, g) refl,
        record { valid = k.valid; alive = k.alive; stored = λ f. ground arith },
      )
      | inl g ↦ (
        (
          memory_cache_update_access (record next { used = cache.used - size_of item + new_size }) i
              (record item { value = value }),
          true,
        ),
        rw (update_item, g, k.alive, used) refl,
        record {
          valid = record {
            counted = omega (arith, count, v.counted);
            summed = omega (arith, sum, v.summed);
            within = omega (arith, sum, v.summed, room, sizes);
            few = v.few;
            small = v.small;
            short = v.short;
          };
          alive = still next _ refl refl k.alive;
          stored = λ f. (
            record item {
              value = value;
              access_count = (item.access_count + 1) % 2 ^ 32;
              last_access_time = cache.current_time;
            },
            rw same refl,
            refl,
          );
        },
      )
    ]

add-Stores :
    (a : PoolAlloc × PoolAlloc × PoolAlloc) (cache : MemoryCache) (key value : Bytes)
    → IsValid cache
    → alive cache ≡ true
    → Stays a.0 cache.home × Stays a.1 cache.home × Stays a.2 cache.home
    → cache.used + memory_cache_item_size (length key) (length value) ≤ cache.capacity
    → cache.item_count < cache.max_item_count
    → (r : MemoryCache × Bool) × (add_item a cache key value ≡ some r) × Stores key value r
unfolding add_item memory_cache_find allocate
add-Stores a cache key value v e s room fewer =
    let k₁ = allocate-Keeps a.0 cache 72 v e s.0 in
    let c₁ = (allocate a.0 cache 72).0 in
    let k₂ = allocate-Keeps a.1 c₁ (length key) k₁.valid k₁.alive s.1 in
    let c₂ = (allocate a.1 c₁ (length key)).0 in
    let k₃ = allocate-Keeps a.2 c₂ (length value) k₂.valid k₂.alive s.2 in
    let c₃ = (allocate a.2 c₂ (length value)).0 in
    let used : (cache.used + memory_cache_item_size (length key) (length value)) % 2 ^ 64
        ≡ cache.used + memory_cache_item_size (length key) (length value) =
      omega (arith, v.small) in
    let count : (cache.item_count + 1) % 2 ^ 64 ≡ cache.item_count + 1 = omega (arith, v.short) in
    elim (Bool-cases (allocate a.0 cache 72).1) [
      | inr f₁ ↦ (
        (c₁, false),
        rw (add_item, f₁) refl,
        record { valid = k₁.valid; alive = k₁.alive; stored = λ f. ground arith },
      )
      | inl g₁ ↦ elim (Bool-cases (allocate a.1 c₁ (length key)).1) [
        | inr f₂ ↦ (
          (c₂, false),
          rw (add_item, g₁, k₁.alive, f₂, k₂.alive) refl,
          record { valid = k₂.valid; alive = k₂.alive; stored = λ f. ground arith },
        )
        | inl g₂ ↦ elim (Bool-cases (allocate a.2 c₂ (length value)).1) [
          | inr f₃ ↦ (
            (c₃, false),
            rw (add_item, g₁, k₁.alive, g₂, k₂.alive, f₃, k₃.alive) refl,
            record { valid = k₃.valid; alive = k₃.alive; stored = λ f. ground arith },
          )
          | inl g₃ ↦
              let item : CacheItem = record {
                key = key;
                value = value;
                access_count = 1;
                last_access_time = cache.current_time;
              } in
              (
                (
                  record c₃ {
                    items = item ∷ cache.items;
                    used = cache.used + memory_cache_item_size (length key) (length value);
                    item_count = cache.item_count + 1;
                  },
                  true,
                ),
                rw (add_item, g₁, k₁.alive, g₂, k₂.alive, g₃, k₃.alive, used, count) refl,
                record {
                  valid = record {
                    counted = omega (arith, v.counted);
                    summed = omega (arith, v.summed);
                    within = room;
                    few = omega arith;
                    small = v.small;
                    short = v.short;
                  };
                  alive = still c₃ _ refl refl k₃.alive;
                  stored = λ f. (item, rw (bytes_eq_refl key) refl, refl);
                },
              )
        ]
      ]
    ]

-- A set of a key and a value that are not empty and have fewer than 2 ^ 62 bytes together, on a valid
-- cache that lies where it was made, comes to an end with more fuel than there are items, if
-- no allocation moves the region. Whether it returns true or false, the cache stays valid, within
-- its capacity and its number of items; if it returns true, the key is found first, with the value.
pub set-Stores :
    (fuel : ℕ) (a : PoolAlloc × PoolAlloc × PoolAlloc) (cache : MemoryCache) (key value : Bytes)
    → IsValid cache
    → alive cache ≡ true
    → Stays a.0 cache.home × Stays a.1 cache.home × Stays a.2 cache.home
    → 0 < length key
    → 0 < length value
    → length key + length value < 2 ^ 62
    → length cache.items < fuel
    → (r : MemoryCache × Bool) × (memory_cache_set fuel a cache key value ≡ some r)
      × Stores key value r
unfolding memory_cache_set memory_cache_item_size
set-Stores fuel a cache key value v e s hk hv short f =
    let size = memory_cache_item_size (length key) (length value) in
    let guard : ((length key == 0) || (length value == 0)) ≡ false = ground arith in
    let (rest, run, q) = evict_until-Rests fuel cache size v (omega arith) f in
    let e' : alive rest.0 ≡ true = still cache rest.0 q.home q.pool e in
    let s' : Stays a.0 rest.0.home × Stays a.1 rest.0.home × Stays a.2 rest.0.home = rw q.home s in
    elim (Bool-cases rest.1) [
      | inr d ↦ (
        (rest.0, false),
        rw (memory_cache_set, guard, e, run, d) refl,
        record { valid = q.valid; alive = e'; stored = λ f. ground arith },
      )
      | inl d ↦ elim (find-at rest.0.items key) [
        | inl n ↦
            let (r, done, st) =
              add-Stores a rest.0 key value q.valid e' s' (q.room d).0 (q.room d).1 in
            (r, rw (memory_cache_set, guard, e, run, d, n) done, st)
        | inr (i, item, n, at, same) ↦
            let (r, done, st) =
              update-Stores a.0 rest.0 i item key value q.valid e' s'.0 at same (q.room d).0 in
            (r, rw (memory_cache_set, guard, e, run, d, n) done, st)
      ]
    ]
