-- ===== src/MemoryCache/Examples.antt =====
-- Concrete runs of the memory cache.
use micro_meow_db.Prelude.{◌≡◌, refl, inl, Bool, true, none, some, [], ◌∷◌, replicate, arith}
use micro_meow_db.MemoryPool.{MemoryPool, PoolAlloc, memory_pool_alloc}
use micro_meow_db.MemoryCache.{
  CacheItem, MemoryCache, memory_cache_item_size, alive, memory_cache_evict, memory_cache_set,
  memory_cache_get, memory_cache_delete, memory_cache_clear,
}
use micro_meow_db.MemoryCache.Eviction.{IsValid, Evicts, evict-Evicts}
use micro_meow_db.MemoryCache.Capacity.{Stores, set-Stores}
use micro_meow_db.MemoryCache.Moving.{growth_loses_cache}

abbrev pool : MemoryPool
pool = record {
  free_lists = replicate 10 [];
  total_memory = 1024;
  used_memory = 512;
  free_memory = 512;
  large_memory = 1;
  large_memory_size = 1024;
  large_memory_used = 512;
}

abbrev item : CacheItem
item = record { key = 7 ∷ []; value = 8 ∷ 9 ∷ []; access_count = 1; last_access_time = 5 }

abbrev cache : MemoryCache
cache = record {
  memory_pool = pool;
  home = 1;
  items = item ∷ [];
  capacity = 160;
  used = 75;
  item_count = 1;
  max_item_count = 4;
  current_time = 5;
}

cache-IsValid : IsValid cache
unfolding memory_cache_item_size
cache-IsValid = record {
  counted = refl;
  summed = refl;
  within = omega arith;
  few = omega arith;
  small = omega arith;
  short = omega arith;
}

evict-Evicts_example : Evicts cache (memory_cache_evict cache)
evict-Evicts_example = evict-Evicts cache item [] cache-IsValid refl

abbrev staying : PoolAlloc
staying = record { region = none; block = true }

lives : alive cache ≡ true
unfolding alive
lives = refl

set-Stores_example :
    (r : MemoryCache × Bool) × (memory_cache_set 2
        (staying, staying, staying)
        cache
        (3 ∷ [])
        (4 ∷ [])
      ≡ some r)
    × Stores (3 ∷ []) (4 ∷ []) r
set-Stores_example =
    set-Stores 2 (staying, staying, staying) cache (3 ∷ []) (4 ∷ []) cache-IsValid lives
      (inl refl, inl refl, inl refl) (omega arith) (omega arith) (omega arith) (omega arith)

abbrev moving : PoolAlloc
moving = record { region = some 2; block = true }

growth_loses_cache_example :
    let lost = record cache { memory_pool = (memory_pool_alloc moving cache.memory_pool 5000).0 } in
    (memory_cache_get staying 6 lost (7 ∷ []) ≡ none)
    × (memory_cache_set 2 (staying, staying, staying) lost (7 ∷ []) (8 ∷ []) ≡ none)
    × (memory_cache_delete lost (7 ∷ []) ≡ none)
    × (memory_cache_clear lost ≡ none)
growth_loses_cache_example =
    growth_loses_cache 2 moving staying (staying, staying, staying) cache 5000 2 6 (7 ∷ []) (8 ∷ [])
      refl (omega arith) (omega arith) (omega arith) (omega arith) (omega arith)
