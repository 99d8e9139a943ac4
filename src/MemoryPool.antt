-- ===== src/MemoryPool.antt =====
-- src/memory/memory_pool.c: memory handed out from one large region from the low end on. A pointer is
-- the region it points into, as the number that the allocator gave it, and an offset. Growth asks
-- `realloc`: its answer is an argument, `none` or the region, which may be another one. Outside,
-- `none` is what C leaves undefined, the overflow of an `int`.
pub mod Growth
pub mod Region
mod Examples
use micro_meow_db.Prelude.{
  ℕ, zero, suc, ◌+◌, ◌-◌, ◌*◌, ◌%◌, ◌^◌, Bool, true, false, Option, none, some, List, [], ◌∷◌,
  get_or, set, replicate, ltb, leb, ◌==◌, if◌then◌else◌,
}

pub record Pointer : Type 0 where
  pub region : ℕ
  pub offset : ℕ

pub record MemoryBlock : Type 0 where
  pub start : Pointer
  pub size : ℕ

pub record MemoryPool : Type 0 where
  pub free_lists : List (List MemoryBlock)
  pub total_memory : ℕ
  pub used_memory : ℕ
  pub free_memory : ℕ
  pub large_memory : ℕ
  pub large_memory_size : ℕ
  pub large_memory_used : ℕ

-- the sizes in `block_sizes`
abbrev pub block_size : ℕ → ℕ
block_size i = 8 * 2 ^ i

unfoldable pub get_block_size_index : ℕ → Option ℕ
get_block_size_index size =
    if leb size 8
    then some 0
    else if leb size 16
    then some 1
    else if leb size 32
    then some 2
    else if leb size 64
    then some 3
    else if leb size 128
    then some 4
    else if leb size 256
    then some 5
    else if leb size 512
    then some 6
    else if leb size 1024
    then some 7
    else if leb size 2048
    then some 8
    else if leb size 4096
    then some 9
    else none

-- The configured size is a number of megabytes, an `int` that is not negative; `granted` answers for
-- the pool, `region` for the large memory.
unfoldable pub memory_pool_init : Option ℕ → Bool → Option ℕ → Option (Option MemoryPool)
memory_pool_init config granted region =
    let megabytes : ℕ = elim config [ none ↦ 512 | some n ↦ n ] in
    let initial_size = megabytes * 1024 * 1024 in
    if leb (2 ^ 31) initial_size
    then none
    else some (
        if granted
        then (elim region [
          | none ↦ none
          | some r ↦ some (record {
            free_lists = replicate 10 [];
            total_memory = initial_size;
            used_memory = 0;
            free_memory = initial_size;
            large_memory = r;
            large_memory_size = initial_size;
            large_memory_used = 0;
          })
        ])
        else none)

-- the answers in an allocation: of `realloc`, and of `malloc` for the block
pub record PoolAlloc : Type 0 where
  pub region : Option ℕ
  pub block : Bool

-- the size of the larger region: twice the old one, or what is needed
unfoldable pub new_size : MemoryPool → ℕ → ℕ
new_size pool needed =
    let doubled = pool.large_memory_size * 2 % 2 ^ 64 in
    if ltb doubled needed then needed else doubled

-- room for `size` bytes, by a larger region if need be
unfoldable pub make_room : Option ℕ → MemoryPool → ℕ → MemoryPool × Bool
make_room region pool size =
    let needed = (pool.large_memory_used + size) % 2 ^ 64 in
    if ltb pool.large_memory_size needed
    then (elim region [
      | none ↦ (pool, false)
      | some r ↦ (
        record pool {
          large_memory = r;
          large_memory_size = new_size pool needed;
          total_memory = new_size pool needed;
          free_memory = (new_size pool needed + 2 ^ 64 - pool.used_memory) % 2 ^ 64;
        },
        true,
      )
    ])
    else (pool, true)

-- the counters after `size` bytes were given out
unfoldable pub count_used : MemoryPool → ℕ → MemoryPool
count_used pool size = record pool {
  used_memory = (pool.used_memory + size) % 2 ^ 64;
  free_memory = (pool.free_memory + 2 ^ 64 - size) % 2 ^ 64;
}

-- the next `size` bytes of the region
unfoldable pub take : MemoryPool → ℕ → MemoryPool × Option Pointer
take pool size = (
  record (count_used pool size) { large_memory_used = (pool.large_memory_used + size) % 2 ^ 64 },
  some (record { region = pool.large_memory; offset = pool.large_memory_used }),
)

unfoldable pub memory_pool_alloc : PoolAlloc → MemoryPool → ℕ → MemoryPool × Option Pointer
memory_pool_alloc a pool zero = (pool, none)
memory_pool_alloc a pool (suc n) =
    if ltb 4096 (suc n)
    then (let room = make_room a.region pool (suc n) in
        if room.1 then take room.0 (suc n) else (room.0, none))
    else elim (get_block_size_index (suc n)) [
      | none ↦ (pool, none)
      | some i ↦ elim (get_or pool.free_lists i []) [
        | b ∷ bs ↦ (
          record (count_used pool (block_size i)) { free_lists = set pool.free_lists i bs },
          some b.start,
        )
        | [] ↦
            let room = make_room a.region pool (block_size i) in
            if room.1
            then if a.block then take room.0 (block_size i) else (room.0, none)
            else (room.0, none)
      ]
    ]

-- Both branches only print that they are not implemented.
unfoldable pub memory_pool_free : MemoryPool → Pointer → MemoryPool
memory_pool_free pool p = pool
