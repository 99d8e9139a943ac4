-- ===== src/BloomFilter.antt =====
-- src/index/bloom_filter.c: three 32-bit hash functions and a bit array. `none` is what C leaves
-- undefined: a write past `hashes[16]`, or past the bit array.
pub mod Bits
pub mod Laws
pub mod Membership
mod Examples
use micro_meow_db.Prelude.{
  ℕ, zero, suc, ◌+◌, ◌-◌, ◌*◌, ◌/◌, ◌%◌, ◌^◌, bit_and, bit_or, bit_xor, Bool, true, false, ◌&&◌,
  Option, none, some, List, [], ◌∷◌, Bytes, length, get_or, set, replicate, ltb, leb, ◌==◌,
  if◌then◌else◌, ◌>>=◌,
}
use micro_meow_db.HashIndex.{Alloc, sign_extend}

abbrev u32 : ℕ → ℕ
u32 x = x % 2 ^ 32

-- FNV-1a
fnv_loop : ℕ → Bytes → ℕ
fnv_loop hash [] = hash
fnv_loop hash (c ∷ cs) = fnv_loop (u32 (bit_xor hash c * 16777619)) cs

unfoldable pub hash_function1 : Bytes → ℕ
unfolding fnv_loop
hash_function1 key = fnv_loop 2166136261 key

-- `(k << r) | (k >> (32 - r))`
abbrev rotl : ℕ → ℕ → ℕ
rotl k r = bit_or (u32 (k * 2 ^ r)) (k / 2 ^ (32 - r))

-- `k *= c1`, the rotation, and `k *= c2`
abbrev scramble : ℕ → ℕ
scramble k = u32 (rotl (u32 (k * 0xcc9e2d51)) 15 * 0x1b873593)

-- what `switch (len)` does to the hash, from the bytes that are left
murmur_tail : ℕ → Bytes → ℕ
murmur_tail hash (a ∷ b ∷ c ∷ cs) =
    bit_xor hash (scramble (bit_xor (bit_xor (c * 2 ^ 16) (b * 2 ^ 8)) a))
murmur_tail hash (a ∷ b ∷ []) = bit_xor hash (scramble (bit_xor (b * 2 ^ 8) a))
murmur_tail hash (a ∷ []) = bit_xor hash (scramble a)
murmur_tail hash [] = hash

-- four bytes at a time, read as a little-endian word
murmur_loop : ℕ → Bytes → ℕ
unfolding murmur_tail
murmur_loop hash (a ∷ b ∷ c ∷ d ∷ cs) =
    let k = a + b * 2 ^ 8 + c * 2 ^ 16 + d * 2 ^ 24 in
    murmur_loop (u32 (rotl (bit_xor hash (scramble k)) 13 * 5 + 0xe6546b64)) cs
murmur_loop hash cs = murmur_tail hash cs

abbrev murmur_mix : ℕ → ℕ
murmur_mix h₀ =
    let h₁ = u32 (bit_xor h₀ (h₀ / 2 ^ 16) * 0x85ebca6b) in
    let h₂ = u32 (bit_xor h₁ (h₁ / 2 ^ 13) * 0xc2b2ae35) in bit_xor h₂ (h₂ / 2 ^ 16)

unfoldable pub hash_function2 : Bytes → ℕ
unfolding murmur_loop
hash_function2 key = murmur_mix (bit_xor (murmur_loop 0xdeadbeef key) (length key))

-- Jenkins; `key[i]` is a signed char
jenkins_loop : ℕ → Bytes → ℕ
jenkins_loop hash [] = hash
jenkins_loop hash (c ∷ cs) =
    let h₁ = u32 (hash + sign_extend c) in
    let h₂ = u32 (h₁ + u32 (h₁ * 2 ^ 10)) in jenkins_loop (bit_xor h₂ (h₂ / 2 ^ 6)) cs

unfoldable pub hash_function3 : Bytes → ℕ
unfolding jenkins_loop
hash_function3 key =
    let h₀ = jenkins_loop 0 key in
    let h₁ = u32 (h₀ + u32 (h₀ * 2 ^ 3)) in
    let h₂ = bit_xor h₁ (h₁ / 2 ^ 11) in u32 (h₂ + u32 (h₂ * 2 ^ 15))

-- `hashes[i]`
unfoldable pub hash_value : Bytes → ℕ → ℕ → ℕ
hash_value key size zero = hash_function1 key % size
hash_value key size (suc zero) = hash_function2 key % size
hash_value key size (suc (suc zero)) = hash_function3 key % size
hash_value key size (suc (suc (suc i))) =
    u32 (hash_function1 key % size + u32 ((i + 3) * (hash_function2 key % size))) % size

-- `hashes[i]`, `hashes[i + 1]`, … for the rounds that are left
unfoldable pub hash_values_from : Bytes → ℕ → ℕ → ℕ → List ℕ
hash_values_from key size i zero = []
hash_values_from key size i (suc left) =
    hash_value key size i ∷ hash_values_from key size (suc i) left

-- The buffer of the callers has room for 16 values.
unfoldable pub get_hash_values : Bytes → ℕ → ℕ → Option (List ℕ)
get_hash_values key size hash_count =
    if leb hash_count 16 then some (hash_values_from key size 0 hash_count) else none

pub record BloomFilter : Type 0 where
  pub bits : List ℕ
  pub size : ℕ
  pub hash_count : ℕ
  pub item_count : ℕ

-- the bytes that hold `size` bits
abbrev pub byte_count : ℕ → ℕ
byte_count size = u32 (size + 7) / 8

unfoldable pub bloom_filter_create : Alloc → ℕ → ℕ → Option BloomFilter
bloom_filter_create m size hash_count =
    let n = if size == 0 then 8388608 else size in
    let k = if hash_count == 0 then 3 else hash_count in
    if m 0 && m 1
    then some
        (record { bits = replicate (byte_count n) 0; size = n; hash_count = k; item_count = 0 })
    else none

unfoldable pub set_bit : List ℕ → ℕ → Option (List ℕ)
set_bit bits pos =
    let i = pos / 8 in
    if ltb i (length bits)
    then some (set bits i (bit_or (get_or bits i 0) (2 ^ (pos % 8)) % 256))
    else none

unfoldable pub test_bit : List ℕ → ℕ → Option Bool
test_bit bits pos =
    let i = pos / 8 in
    if ltb i (length bits)
    then some (if bit_and (get_or bits i 0) (2 ^ (pos % 8)) == 0 then false else true)
    else none

unfoldable pub set_bits : List ℕ → List ℕ → Option (List ℕ)
set_bits bits [] = some bits
set_bits bits (pos ∷ rest) = do bits' ← set_bit bits pos; set_bits bits' rest

-- The first bit that is clear ends the search.
unfoldable pub test_bits : List ℕ → List ℕ → Option Bool
test_bits bits [] = some true
test_bits bits (pos ∷ rest) = do
  found ← test_bit bits pos
  elim found [ true ↦ test_bits bits rest | false ↦ some false ]

unfoldable pub bloom_filter_add : BloomFilter → Option Bytes → Option (BloomFilter × Bool)
bloom_filter_add filter none = some (filter, false)
bloom_filter_add filter (some key) = do
  hashes ← get_hash_values key filter.size filter.hash_count
  bits' ← set_bits filter.bits hashes
  some (record filter { bits = bits'; item_count = u32 (filter.item_count + 1) }, true)

unfoldable pub bloom_filter_contains : BloomFilter → Option Bytes → Option Bool
bloom_filter_contains filter none = some false
bloom_filter_contains filter (some key) = do
  hashes ← get_hash_values key filter.size filter.hash_count
  test_bits filter.bits hashes

-- `memset` of the bytes to 0
clear_bytes : ℕ → List ℕ → List ℕ
clear_bytes zero bits = bits
clear_bytes (suc n) [] = []
clear_bytes (suc n) (b ∷ bits) = 0 ∷ clear_bytes n bits

unfoldable pub bloom_filter_reset : BloomFilter → BloomFilter × Bool
unfolding clear_bytes
bloom_filter_reset filter = (
  record filter { bits = clear_bytes (byte_count filter.size) filter.bits; item_count = 0 },
  true,
)

unfoldable pub bloom_filter_size : BloomFilter → ℕ
bloom_filter_size filter = filter.size

unfoldable pub bloom_filter_item_count : BloomFilter → ℕ
bloom_filter_item_count filter = filter.item_count
