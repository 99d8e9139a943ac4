-- ===== src/MemoryPool/Examples.antt =====
-- Concrete runs of the memory pool.
use micro_meow_db.Prelude.{refl, true, some, [], replicate, arith}
use micro_meow_db.MemoryPool.{MemoryPool, PoolAlloc, memory_pool_alloc}
use micro_meow_db.MemoryPool.Growth.{IsValid, rounded_bounds, Allocates, alloc-Allocates}

abbrev pool : MemoryPool
pool = record {
  free_lists = replicate 10 [];
  total_memory = 1024;
  used_memory = 16;
  free_memory = 1008;
  large_memory = 1;
  large_memory_size = 1024;
  large_memory_used = 16;
}

pool-IsValid : IsValid pool
pool-IsValid = record {
  lists = refl;
  used = refl;
  within = omega arith;
  total = refl;
  sum = refl;
  size = omega arith;
}

abbrev granted : PoolAlloc
granted = record { region = some 2; block = true }

alloc-Allocates_example : Allocates pool 100 (memory_pool_alloc granted pool 100)
alloc-Allocates_example =
    alloc-Allocates granted pool 100 pool-IsValid (omega (arith, rounded_bounds 100))
