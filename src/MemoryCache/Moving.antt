-- ===== src/MemoryCache/Moving.antt =====
-- What a growth of the memory pool does to a cache of src/memory/memory_cache.c that lies in it.
use micro_meow_db.Prelude.{
  ℕ, zero, suc, ◌+◌, ◌%◌, ◌^◌, ◌<◌, ◌≡◌, ◌≢◌, refl, true, false, none, some, Bytes, length, ltb,
  ◌==◌, ◌||◌, arith,
}
use micro_meow_db.MemoryPool.{MemoryPool, PoolAlloc, make_room, take, count_used, memory_pool_alloc}
use micro_meow_db.MemoryCache.{
  MemoryCache, alive, memory_cache_set, memory_cache_get, memory_cache_delete, memory_cache_clear,
}

grown_region :
    (a : PoolAlloc) (pool : MemoryPool) (size r : ℕ)
    → a.region ≡ some r
    → 4096 < size
    → pool.large_memory_size < (pool.large_memory_used + size) % 2 ^ 64
    → (memory_pool_alloc a pool size).0.large_memory ≡ r
unfolding memory_pool_alloc make_room take count_used
grown_region a pool zero r e h k = absurd (omega arith)
grown_region a pool (suc n) r e h k =
    let big : ltb 4096 (suc n) ≡ true = ground arith in
    let full : ltb pool.large_memory_size ((pool.large_memory_used + suc n) % 2 ^ 64) ≡ true =
      ground arith in
    rw (big, make_room, full, e) refl

not_alive :
    (lost : MemoryCache) (r : ℕ)
    → lost.memory_pool.large_memory ≡ r
    → r ≢ lost.home
    → alive lost ≡ false
unfolding alive
not_alive lost r e n = ground arith

-- After a request of more than 4096 bytes to the pool, for which the region must grow and
-- `realloc` moves it away from the cache that lies in the old region, that cache is lost: a
-- search, a deletion and a set, with a key and a value that are not empty, and the clearing all
-- read freed memory.
pub growth_loses_cache :
    (fuel : ℕ) (a b : PoolAlloc) (c : PoolAlloc × PoolAlloc × PoolAlloc) (cache : MemoryCache)
    (size r now : ℕ) (key value : Bytes)
    → a.region ≡ some r
    → r ≢ cache.home
    → 4096 < size
    → cache.memory_pool.large_memory_size < (cache.memory_pool.large_memory_used + size) % 2 ^ 64
    → 0 < length key
    → 0 < length value
    → let lost = record cache { memory_pool = (memory_pool_alloc a cache.memory_pool size).0 } in
      (memory_cache_get b now lost key ≡ none)
      × (memory_cache_set fuel c lost key value ≡ none)
      × (memory_cache_delete lost key ≡ none)
      × (memory_cache_clear lost ≡ none)
unfolding memory_cache_get memory_cache_set memory_cache_delete memory_cache_clear
growth_loses_cache fuel a b c cache size r now key value e n h k hk hv =
    let lost : MemoryCache = record cache {
      memory_pool = (memory_pool_alloc a cache.memory_pool size).0;
    } in
    let dead : alive lost ≡ false =
      not_alive lost r (grown_region a cache.memory_pool size r e h k) n in
    let one : (length key == 0) ≡ false = ground arith in
    let two : ((length key == 0) || (length value == 0)) ≡ false = ground arith in
    (
      rw (memory_cache_get, one, dead) refl,
      rw (memory_cache_set, two, dead) refl,
      rw (memory_cache_delete, one, dead) refl,
      rw (memory_cache_clear, dead) refl,
    )
