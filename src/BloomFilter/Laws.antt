-- ===== src/BloomFilter/Laws.antt =====
-- What src/index/bloom_filter.c promises: no key that was added is ever missed.
use micro_meow_db.Prelude.{
  ℕ, zero, suc, ◌+◌, ◌/◌, ◌%◌, ◌^◌, ◌≤◌, ◌<◌, max, ◌≡◌, refl, ap, ◌∙◌, ◌↔◌, Bool, true, some, List,
  length, Bytes, arith, All,
}
use micro_meow_db.BloomFilter.{
  BloomFilter, hash_value, hash_values_from, get_hash_values, bloom_filter_add,
  bloom_filter_contains,
}
use micro_meow_db.BloomFilter.Bits.{bit_at, Within, occurs, set_bits-Returns, test_bits-Returns}

-- the positions of a key
abbrev pub hashes : BloomFilter → Bytes → List ℕ
hashes f key = hash_values_from key f.size 0 f.hash_count

pub record IsValid (f : BloomFilter) : Type 0 where
  pub positive : 0 < f.size
  pub fits : f.size + 7 < 2 ^ 32
  pub sized : length f.bits ≡ (f.size + 7) / 8
  pub some_hash : 0 < f.hash_count
  pub few_hashes : f.hash_count ≤ 16

hash_value-lt : (key : Bytes) (size i : ℕ) → 0 < size → hash_value key size i < size
unfolding hash_value
hash_value-lt key size zero h = ground arith
hash_value-lt key size (suc zero) h = ground arith
hash_value-lt key size (suc (suc zero)) h = ground arith
hash_value-lt key size (suc (suc (suc i))) h = ground arith

hashes-Within :
    (bits : List ℕ) (key : Bytes) (size i left : ℕ)
    → 0 < size
    → length bits ≡ (size + 7) / 8
    → All (Within bits) (hash_values_from key size i left)
unfolding hash_values_from
hashes-Within bits key size i zero h e = tt
hashes-Within bits key size i (suc left) h e =
    (omega (arith, hash_value-lt key size i h), hashes-Within bits key size (suc i) left h e)

-- All the bits of the key are set.
abbrev pub Holds : BloomFilter → Bytes → Type 0
Holds f key = All (λ p. bit_at f.bits p ≡ 1) (hashes f key)

-- what an addition does to a valid filter
pub record Adds (f : BloomFilter) (key : Bytes) (f' : BloomFilter) : Type 0 where
  pub run : bloom_filter_add f (some key) ≡ some (f', true)
  pub valid : IsValid f'
  pub size : f'.size ≡ f.size
  pub hash_count : f'.hash_count ≡ f.hash_count
  pub counts : f'.item_count ≡ (f.item_count + 1) % 2 ^ 32
  pub reads : (q : ℕ) → bit_at f'.bits q ≡ max (bit_at f.bits q) (occurs q (hashes f key))

pub add-Adds : (f : BloomFilter) (key : Bytes) → IsValid f → (f' : BloomFilter) × Adds f key f'
unfolding bloom_filter_add get_hash_values
add-Adds f key v =
    let (bits', run, size, reads) =
      set_bits-Returns f.bits (hashes f key)
        (hashes-Within f.bits key f.size 0 f.hash_count v.positive v.sized) in
    (
      record f { bits = bits'; item_count = (f.item_count + 1) % 2 ^ 32 },
      record {
        run = ground (arith, v.few_hashes, run);
        valid = ground (arith, size);
        size = refl;
        hash_count = refl;
        counts = refl;
        reads = reads;
      },
    )

-- A search passes exactly when all the bits of the key are set, and is never undefined.
pub contains-Holds :
    (f : BloomFilter) (key : Bytes)
    → IsValid f
    → (found : Bool) × (bloom_filter_contains f (some key) ≡ some found)
      × ((found ≡ true) ↔ Holds f key)
unfolding bloom_filter_contains get_hash_values
contains-Holds f key v =
    let (found, run, meaning) =
      test_bits-Returns f.bits (hashes f key)
        (hashes-Within f.bits key f.size 0 f.hash_count v.positive v.sized) in
    (found, ground (arith, v.few_hashes, run), meaning)

pub contains-of_Holds :
    (f : BloomFilter) (key : Bytes)
    → IsValid f
    → Holds f key
    → bloom_filter_contains f (some key) ≡ some true
contains-of_Holds f key v h =
    let (found, run, meaning) = contains-Holds f key v in run ∙ ap some (meaning.1 h)

pub Holds-of_contains :
    (f : BloomFilter) (key : Bytes)
    → IsValid f
    → bloom_filter_contains f (some key) ≡ some true
    → Holds f key
Holds-of_contains f key v h = let (found, run, meaning) = contains-Holds f key v in meaning.0 (cc)
