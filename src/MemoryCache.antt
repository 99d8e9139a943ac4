-- ===== src/MemoryCache.antt =====
-- src/memory/memory_cache.c: a cache whose items stand in a doubly linked list, the one used last in
-- front. The list of the model runs from the head; the walk from the tail is that of the prev fields.
-- Outside, `none` is what C leaves undefined: the cache, its items, keys and values lie in the region
-- of the memory pool, so after a growth that moves the region the next access reads freed memory.
-- Keys and values are never `NULL`. Freeing gives the pool nothing back.
pub mod Eviction
pub mod Loop
pub mod Capacity
pub mod Moving
mod Examples
use micro_meow_db.Prelude.{
  ℕ, zero, suc, ◌+◌, ◌-◌, ◌*◌, ◌%◌, ◌^◌, Bool, true, false, ◌&&◌, ◌||◌, Option, none, some, List,
  [], ◌∷◌, Bytes, bytes_eq, length, ltb, leb, ◌==◌, if◌then◌else◌, ◌>>=◌,
}
use micro_meow_db.MemoryPool.{MemoryPool, PoolAlloc, memory_pool_alloc}

-- `key_size` and `value_size` are the lengths.
pub record CacheItem : Type 0 where
  pub key : Bytes
  pub value : Bytes
  pub access_count : ℕ
  pub last_access_time : ℕ

-- `home` is the region in which the cache lies.
pub record MemoryCache : Type 0 where
  pub memory_pool : MemoryPool
  pub home : ℕ
  pub items : List CacheItem
  pub capacity : ℕ
  pub used : ℕ
  pub item_count : ℕ
  pub max_item_count : ℕ
  pub current_time : ℕ

-- `sizeof(CacheItem)` and `sizeof(MemoryCache)` with 64-bit pointers
abbrev pub item_overhead : ℕ
item_overhead = 72

unfoldable pub memory_cache_item_size : ℕ → ℕ → ℕ
memory_cache_item_size key_size value_size = (item_overhead + key_size + value_size) % 2 ^ 64

abbrev pub size_of : CacheItem → ℕ
size_of item = memory_cache_item_size (length item.key) (length item.value)

-- whether the cache still lies where it was made
unfoldable pub alive : MemoryCache → Bool
alive cache = cache.home == cache.memory_pool.large_memory

-- An allocation from the pool, and whether it gave a pointer.
unfoldable pub allocate : PoolAlloc → MemoryCache → ℕ → MemoryCache × Bool
allocate a cache size =
    let r = memory_pool_alloc a cache.memory_pool size in
    (record cache { memory_pool = r.0 }, elim r.1 [ none ↦ false | some p ↦ true ])

-- The configured sizes, in megabytes and in items, are not negative and do not overflow an `int`.
unfoldable pub memory_cache_init :
    PoolAlloc → Option (ℕ × ℕ) → ℕ → MemoryPool → MemoryPool × Option MemoryCache
memory_cache_init a config now pool =
    let capacity : ℕ = elim config [ none ↦ 1024 * 1024 * 1024 | some c ↦ c.0 * 1024 * 1024 ] in
    let max_items : ℕ = elim config [ none ↦ 100000 | some c ↦ c.1 ] in
    let r = memory_pool_alloc a pool 72 in
    (
      r.0,
      elim r.1 [
        | none ↦ none
        | some p ↦ some (record {
          memory_pool = r.0;
          home = p.region;
          items = [];
          capacity = if capacity == 0 then 1024 * 1024 * 1024 else capacity;
          used = 0;
          item_count = 0;
          max_item_count = if max_items == 0 then 100000 else max_items;
          current_time = now;
        })
      ],
    )

-- the position of the item with a key
unfoldable pub memory_cache_find : List CacheItem → Bytes → Option (ℕ × CacheItem)
memory_cache_find [] key = none
memory_cache_find (x ∷ xs) key =
    if bytes_eq x.key key
    then some (0, x)
    else (memory_cache_find xs key >>= λ r. some (suc r.0, r.1))

unfoldable pub remove_at : List CacheItem → ℕ → List CacheItem
remove_at [] i = []
remove_at (x ∷ xs) zero = xs
remove_at (x ∷ xs) (suc i) = x ∷ remove_at xs i

-- the item at a position, moved to the head
unfoldable pub memory_cache_move_to_head : List CacheItem → ℕ → CacheItem → List CacheItem
memory_cache_move_to_head items i item = item ∷ remove_at items i

unfoldable pub memory_cache_update_access : MemoryCache → ℕ → CacheItem → MemoryCache
memory_cache_update_access cache i item = record cache {
  items = memory_cache_move_to_head cache.items i (record item {
    access_count = (item.access_count + 1) % 2 ^ 32;
    last_access_time = cache.current_time;
  });
}

-- whether an item replaces the candidate of the walk from the tail
unfoldable pub replaces : CacheItem → CacheItem → Bool
replaces x best =
    ltb x.access_count best.access_count
    || ((x.access_count == best.access_count) && ltb x.last_access_time best.last_access_time)

-- The candidate of the walk from the tail to the head, with its position from the head.
unfoldable pub victim : List CacheItem → Option (ℕ × CacheItem)
victim [] = none
victim (x ∷ xs) = elim (victim xs) [
  | none ↦ some (0, x)
  | some r ↦ if replaces x r.1 then some (0, x) else some (suc r.0, r.1)
]

unfoldable pub memory_cache_evict : MemoryCache → MemoryCache × Bool
memory_cache_evict cache =
    if cache.item_count == 0 then (cache, false) else elim (victim cache.items) [
      | none ↦ (cache, false)
      | some r ↦ (
        record cache {
          items = remove_at cache.items r.0;
          used = (cache.used + 2 ^ 64 - size_of r.1) % 2 ^ 64;
          item_count = (cache.item_count + (2 ^ 64 - 1)) % 2 ^ 64;
        },
        true,
      )
    ]

-- The loop that evicts until there is room, on fuel: `none` where the fuel runs out.
unfoldable pub evict_until : ℕ → MemoryCache → ℕ → Option (MemoryCache × Bool)
evict_until zero cache item_size = none
evict_until (suc fuel) cache item_size =
    let r = memory_cache_evict cache in
    let rest = evict_until fuel r.0 item_size in
    if ltb cache.capacity ((cache.used + item_size) % 2 ^ 64)
      || leb cache.max_item_count cache.item_count
    then if r.1 then rest else some (r.0, false)
    else some (cache, true)

-- the last part of an insertion, where there is no item with the key
unfoldable pub add_item :
    PoolAlloc × PoolAlloc × PoolAlloc → MemoryCache → Bytes → Bytes → Option (MemoryCache × Bool)
add_item a cache key value =
    let first = allocate a.0 cache 72 in
    let second = allocate a.1 first.0 (length key) in
    let third = allocate a.2 second.0 (length value) in
    if first.1
    then if alive first.0
      then if second.1
        then if alive second.0
          then if third.1
            then if alive third.0
              then some (
                record third.0 {
                  items =
                      record {
                        key = key;
                        value = value;
                        access_count = 1;
                        last_access_time = cache.current_time;
                      }
                      ∷ cache.items;
                  used = (cache.used + memory_cache_item_size (length key) (length value)) % 2 ^ 64;
                  item_count = (cache.item_count + 1) % 2 ^ 64;
                },
                true,
              )
              else none
            else if alive third.0
            then some (third.0, false)
            else none
          else none
        else if alive second.0
        then some (second.0, false)
        else none
      else none
    else some (first.0, false)

-- the last part of an update of the item at a position
unfoldable pub update_item :
    PoolAlloc → MemoryCache → ℕ → CacheItem → Bytes → Option (MemoryCache × Bool)
update_item a cache i item value =
    let r = allocate a cache (length value) in
    if r.1
    then if alive r.0
      then some (
        memory_cache_update_access
            (record r.0 {
              used =
                  (cache.used
                    + 2 ^ 64
                    - size_of item
                    + memory_cache_item_size (length item.key) (length value))
                  % 2 ^ 64;
            })
            i (record item { value = value }),
        true,
      )
      else none
    else some (r.0, false)

unfoldable pub memory_cache_set :
    ℕ
    → PoolAlloc × PoolAlloc × PoolAlloc
    → MemoryCache
    → Bytes
    → Bytes
    → Option (MemoryCache × Bool)
memory_cache_set fuel a cache key value =
    if (length key == 0) || (length value == 0)
    then some (cache, false)
    else if alive cache
    then (evict_until fuel cache (memory_cache_item_size (length key) (length value)) >>= λ r.
        if r.1
        then (elim (memory_cache_find r.0.items key) [
          | some (i, item) ↦ update_item a.0 r.0 i item value
          | none ↦ add_item a r.0 key value
        ])
        else some (r.0, false))
    else none

-- the cache afterwards, the size that is written, and the copy that is returned
unfoldable pub memory_cache_get :
    PoolAlloc → ℕ → MemoryCache → Bytes → Option (MemoryCache × Option ℕ × Option Bytes)
memory_cache_get a now cache key =
    if length key == 0
    then some (cache, none, none)
    else if alive cache
    then (let timed = record cache { current_time = now } in
        elim (memory_cache_find cache.items key) [
          | none ↦ some (timed, none, none)
          | some (i, item) ↦
              let r = allocate a (memory_cache_update_access timed i item) (length item.value) in
              if r.1
              then if alive r.0 then some (r.0, some (length item.value), some item.value) else none
              else some (r.0, some (length item.value), none)
        ])
    else none

unfoldable pub memory_cache_delete : MemoryCache → Bytes → Option (MemoryCache × Bool)
memory_cache_delete cache key =
    if length key == 0
    then some (cache, false)
    else if alive cache
    then (elim (memory_cache_find cache.items key) [
      | none ↦ some (cache, false)
      | some (i, item) ↦ some (
        record cache {
          items = remove_at cache.items i;
          used = (cache.used + 2 ^ 64 - size_of item) % 2 ^ 64;
          item_count = (cache.item_count + (2 ^ 64 - 1)) % 2 ^ 64;
        },
        true,
      )
    ])
    else none

unfoldable pub memory_cache_clear : MemoryCache → Option MemoryCache
memory_cache_clear cache =
    if alive cache then some (record cache { items = []; used = 0; item_count = 0 }) else none
