-- ===== src/MemoryPool/Growth.antt =====
-- The accounting of src/memory/memory_pool.c, and what its growth does to pointers.
use micro_meow_db.Prelude.{
  ℕ, zero, suc, ◌+◌, ◌*◌, ◌%◌, ◌^◌, ◌≤◌, ◌<◌, ◌≡◌, refl, ap, ◌∙◌, ◌⊎◌, Bool, true, false, Option,
  none, some, [], get_or, get_or-replicate, replicate, ltb, if◌then◌else◌, arith, Bool-cases,
  Option-cases, inl, inr, ◌&&◌,
}
use mathlib.Core.Path.{subst}
use micro_meow_db.MemoryPool.{
  Pointer, MemoryPool, PoolAlloc, block_size, get_block_size_index, make_room, new_size, count_used,
  take, memory_pool_alloc,
}

-- No block is free, the used bytes are the low end of the region, and used and free bytes add up to
-- the region.
pub record IsValid (pool : MemoryPool) : Type 0 where
  pub lists : pool.free_lists ≡ replicate 10 []
  pub used : pool.used_memory ≡ pool.large_memory_used
  pub within : pool.large_memory_used ≤ pool.large_memory_size
  pub total : pool.total_memory ≡ pool.large_memory_size
  pub sum : pool.used_memory + pool.free_memory ≡ pool.total_memory
  pub size : pool.large_memory_size < 2 ^ 64

-- the bytes that a request takes
pub rounded : ℕ → ℕ
unfolding get_block_size_index
rounded size = elim (get_block_size_index size) [ none ↦ size | some i ↦ block_size i ]

-- A block is as large as the request, and less than twice as large unless it is the smallest.
pub rounded_bounds : (size : ℕ) → (size ≤ rounded size) × (rounded size ≤ 2 * size + 8)
unfolding rounded
rounded_bounds size = ground arith

-- what an allocation leaves and returns
pub record Allocates (pool : MemoryPool) (size : ℕ) (r : MemoryPool × Option Pointer) : Type 0 where
  pub valid : IsValid r.0
  pub result :
      ((r.1 ≡ none) × (r.0.large_memory_used ≡ pool.large_memory_used))
      ⊎ ((p : Pointer) × (r.1 ≡ some p)
          × (p.region ≡ r.0.large_memory)
          × (p.offset ≡ pool.large_memory_used)
          × (r.0.large_memory_used ≡ pool.large_memory_used + rounded size)
          × (size ≤ rounded size)
          × (rounded size ≤ 2 * size + 8))

-- what making room leaves
record Rooms (pool : MemoryPool) (size : ℕ) (r : MemoryPool × Bool) : Type 0 where
  valid : IsValid r.0
  kept : r.0.large_memory_used ≡ pool.large_memory_used
  fits : r.1 ≡ true → pool.large_memory_used + size ≤ r.0.large_memory_size

new_size_bounds :
    (pool : MemoryPool) (needed : ℕ)
    → needed < 2 ^ 64
    → (needed ≤ new_size pool needed) × (new_size pool needed < 2 ^ 64)
unfolding new_size
new_size_bounds pool needed h = ground arith

make_room-Rooms :
    (region : Option ℕ) (pool : MemoryPool) (size : ℕ)
    → IsValid pool
    → pool.large_memory_used + size < 2 ^ 64
    → Rooms pool size (make_room region pool size)
unfolding make_room
make_room-Rooms region pool size v h =
    let needed = (pool.large_memory_used + size) % 2 ^ 64 in
    let (big, small) = new_size_bounds pool needed (omega arith) in
    elim (Bool-cases (ltb pool.large_memory_size needed)) [
      | inr e ↦ rw (make_room, e) (record { valid = v; kept = refl; fits = λ _. ground arith })
      | inl e ↦ elim (Option-cases region) [
        | inl g ↦ rw (make_room, e, g) (record { valid = v; kept = refl; fits = λ f. ground arith })
        | inr (r, g) ↦
            rw (make_room, e, g)
              (record {
                valid = record {
                  lists = v.lists;
                  used = v.used;
                  within = omega (arith, big);
                  total = refl;
                  sum = omega (arith, big, small, v.used);
                  size = small;
                };
                kept = refl;
                fits = λ _. omega (arith, big);
              })
      ]
    ]

take-Allocates :
    (pool : MemoryPool) (size : ℕ) (room : MemoryPool × Bool) (granted : Bool)
    → Rooms pool (rounded size) room
    → Allocates pool size (
        if room.1
        then if granted then take room.0 (rounded size) else (room.0, none)
        else (room.0, none))
unfolding take count_used
take-Allocates pool size (next, done) granted r = elim (Bool-cases (done && granted)) [
  | inr e ↦
      let same : (if done
            then if granted then take next (rounded size) else (next, none)
            else (next, none))
          ≡ (next, none) =
        ground arith in
      rw same (record { valid = r.valid; result = inl (refl, r.kept) })
  | inl e ↦
      let fits : pool.large_memory_used + rounded size ≤ next.large_memory_size =
        r.fits (ground arith) in
      let v = r.valid in
      let same : (if done
            then if granted then take next (rounded size) else (next, none)
            else (next, none))
          ≡ take next (rounded size) =
        ground arith in
      rw same (record {
        valid = record {
          lists = v.lists;
          used = omega (arith, v.used);
          within = omega (arith, v.size, r.kept);
          total = v.total;
          sum = omega (arith, v.sum, v.total, v.used, v.size, r.kept);
          size = v.size;
        };
        result = inr (
          _,
          refl,
          refl,
          r.kept,
          omega (arith, v.size, r.kept),
          (rounded_bounds size).0,
          (rounded_bounds size).1,
        );
      })
]

no_index : (size : ℕ) → get_block_size_index size ≡ none → ltb 4096 size ≡ true
unfolding get_block_size_index
no_index size e = ground arith

an_index : (size i : ℕ) → get_block_size_index size ≡ some i → ltb 4096 size ≡ false
unfolding get_block_size_index
an_index size i e = ground arith

-- A request is answered from a valid pool, with any answers of the allocators, if what is used and
-- the request, rounded to a block, stay below 2 ^ 64. The pool stays valid. Either nothing is
-- returned and nothing more is used, or the pointer is into the region, at the first byte that was
-- not in use, and from there on the bytes of one block are in use: as many as the request at
-- least, and 8 bytes more than twice the request at most.
pub alloc-Allocates :
    (a : PoolAlloc) (pool : MemoryPool) (size : ℕ)
    → IsValid pool
    → pool.large_memory_used + rounded size < 2 ^ 64
    → Allocates pool size (memory_pool_alloc a pool size)
unfolding memory_pool_alloc rounded
alloc-Allocates a pool zero v h = record { valid = v; result = inl (refl, refl) }
alloc-Allocates a pool (suc n) v h = elim (Option-cases (get_block_size_index (suc n))) [
  | inl e ↦
      let big : ltb 4096 (suc n) ≡ true = no_index (suc n) e in
      let size : rounded (suc n) ≡ suc n = rw (rounded, e) refl in
      rw (big) (
        subst
          (λ k. Allocates pool (suc n) (
            if (make_room a.region pool k).1
            then if true
              then take (make_room a.region pool k).0 k
              else ((make_room a.region pool k).0, none)
            else ((make_room a.region pool k).0, none)))
          size
          (take-Allocates pool (suc n) (make_room a.region pool (rounded (suc n))) true
            (make_room-Rooms a.region pool (rounded (suc n)) v h)))
  | inr (i, e) ↦
      let small : ltb 4096 (suc n) ≡ false = an_index (suc n) i e in
      let size : rounded (suc n) ≡ block_size i = rw (rounded, e) refl in
      let empty : get_or pool.free_lists i [] ≡ [] =
        ap (λ l. get_or l i []) v.lists ∙ get_or-replicate 10 i [] in
      rw (memory_pool_alloc, small, e, empty)
        (subst
          (λ k. Allocates pool (suc n) (
            if (make_room a.region pool k).1
            then if a.block
              then take (make_room a.region pool k).0 k
              else ((make_room a.region pool k).0, none)
            else ((make_room a.region pool k).0, none)))
          size
          (take-Allocates pool (suc n) (make_room a.region pool (rounded (suc n))) a.block
            (make_room-Rooms a.region pool (rounded (suc n)) v h)))
]

-- A request above the largest block that is so large that its sum with what is used wraps in 64 bits is
-- granted from a valid pool without any growth, though the region ends before the bytes that were asked for.
huge_request_granted :
    (a : PoolAlloc) (pool : MemoryPool) (size : ℕ)
    → IsValid pool
    → 4096 < size
    → size < 2 ^ 64
    → 2 ^ 64 ≤ pool.large_memory_used + size
    → (next : MemoryPool) × (memory_pool_alloc a pool size
        ≡ (next, some (record { region = pool.large_memory; offset = pool.large_memory_used })))
      × (next.large_memory_size ≡ pool.large_memory_size)
      × (next.large_memory_size < pool.large_memory_used + size)
unfolding memory_pool_alloc make_room take count_used
huge_request_granted a pool zero v h k l = absurd (omega arith)
huge_request_granted a pool (suc n) v h k l =
    let big : ltb 4096 (suc n) ≡ true = ground arith in
    let e : ltb pool.large_memory_size ((pool.large_memory_used + suc n) % 2 ^ 64) ≡ false =
      wraps (pool.large_memory_used) (suc n) pool.large_memory_size k l v.within v.size in
    ((take pool (suc n)).0, rw (big) (rw (make_room, e) refl), refl, omega (arith, v.size))
  where
    wraps :
        (used size limit : ℕ)
        → size < 2 ^ 64
        → 2 ^ 64 ≤ used + size
        → used ≤ limit
        → limit < 2 ^ 64
        → ltb limit ((used + size) % 2 ^ 64) ≡ false
    wraps used size limit h k l m =
        let e : (used + size) % 2 ^ 64 ≤ limit = omega arith in ground (arith, e)
