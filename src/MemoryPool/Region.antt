-- ===== src/MemoryPool/Region.antt =====
-- When an allocation of src/memory/memory_pool.c leaves the region where it is.
use micro_meow_db.Prelude.{ℕ, zero, suc, ◌≡◌, refl, ◌⊎◌, none, some, arith, Option-cases, inl, inr}
use micro_meow_db.MemoryPool.{
  MemoryPool, PoolAlloc, block_size, get_block_size_index, make_room, take, count_used,
  memory_pool_alloc,
}

-- The answer of `realloc` is no region, or the one that there is.
abbrev pub Stays : PoolAlloc → ℕ → Type 0
Stays a region = (a.region ≡ none) ⊎ (a.region ≡ some region)

make_room_region :
    (a : PoolAlloc) (pool : MemoryPool) (size : ℕ)
    → Stays a pool.large_memory
    → (make_room a.region pool size).0.large_memory ≡ pool.large_memory
unfolding make_room
make_room_region a pool size (inl e) = rw e (ground arith)
make_room_region a pool size (inr e) = rw e (ground arith)

pub alloc_region :
    (a : PoolAlloc) (pool : MemoryPool) (size : ℕ)
    → Stays a pool.large_memory
    → (memory_pool_alloc a pool size).0.large_memory ≡ pool.large_memory
unfolding memory_pool_alloc take count_used
alloc_region a pool zero s = refl
alloc_region a pool (suc n) s = elim (Option-cases (get_block_size_index (suc n))) [
  | inl e ↦ rw (memory_pool_alloc, e) (ground (arith, make_room_region a pool (suc n) s))
  | inr (i, e) ↦
      rw (memory_pool_alloc, e)
        (ground
          (arith, make_room_region a pool (suc n) s, make_room_region a pool (block_size i) s))
]
