-- ===== src/BloomFilter/Examples.antt =====
-- src/index/bloom_filter.c on small filters, and the theorems at concrete inputs.
use micro_meow_db.Prelude.{
  ◌≡◌, refl, true, Option, some, [], ◌∷◌, Bytes, get_or, set, replicate, arith,
}
use micro_meow_db.HashIndex.{Alloc}
use micro_meow_db.BloomFilter.{
  BloomFilter, fnv_loop, murmur_loop, murmur_tail, jenkins_loop, hash_function1, hash_function2,
  hash_function3, hash_value, hash_values_from, get_hash_values, clear_bytes, bloom_filter_create,
  bloom_filter_add, bloom_filter_contains, bloom_filter_reset, set_bit, test_bits, set_bits,
  test_bit,
}
use micro_meow_db.BloomFilter.Laws.{IsValid}
use micro_meow_db.BloomFilter.Membership.{add_all, contains-add_all}

program : Unit {0}
unfolding fnv_loop murmur_loop murmur_tail jenkins_loop hash_function1 hash_function2 hash_function3
    hash_value hash_values_from get_hash_values clear_bytes bloom_filter_create bloom_filter_add
    bloom_filter_contains bloom_filter_reset set_bit test_bits set_bits test_bit add_all get_or set
    replicate
program = tt

abbrev granted : Alloc
granted i = true

abbrev meow : Bytes
meow = 109 ∷ 101 ∷ 111 ∷ 119 ∷ []

abbrev purr : Bytes
purr = 112 ∷ 117 ∷ 114 ∷ 114 ∷ 33 ∷ []

-- the published FNV-1a value of "a"
fnv_of_a : hash_function1 (97 ∷ []) ≡ 0xe40c292c
unfolding program
fnv_of_a = refl

-- the published one-at-a-time value of "a"
jenkins_of_a : hash_function3 (97 ∷ []) ≡ 0xca2e9442
unfolding program
jenkins_of_a = refl

abbrev small : BloomFilter
small = record { bits = replicate 8 0; size = 60; hash_count = 4; item_count = 0 }

small-IsValid : IsValid small
unfolding replicate
small-IsValid = omega arith

abbrev filled : Option BloomFilter
filled = add_all small (meow ∷ purr ∷ [])

contains-add_all_example : filled ≡ some (contains-add_all small (meow ∷ purr ∷ []) small-IsValid).0
contains-add_all_example = (contains-add_all small (meow ∷ purr ∷ []) small-IsValid).1
