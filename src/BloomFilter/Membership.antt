-- ===== src/BloomFilter/Membership.antt =====
-- Sequences of calls of src/index/bloom_filter.c: no false negatives, the empty filter, and the
-- parameters that the constructor accepts although the operations cannot honour them.
use micro_meow_db.Prelude.{
  ℕ, zero, suc, ◌+◌, ◌/◌, ◌%◌, ◌^◌, ◌≤◌, ◌<◌, ◌≡◌, refl, ap, ◌∙◌, true, false, Option, none, some,
  List, [], ◌∷◌, length, get_or, replicate, length-replicate, get_or-replicate, Bytes, ◌==◌,
  if◌then◌else◌, ◌>>=◌, arith, All, Bool-cases, inl, inr,
}
use micro_meow_db.Prelude.Digits.{digit, digit-lt, digit-zero}
use micro_meow_db.HashIndex.{Alloc}
use micro_meow_db.BloomFilter.{
  BloomFilter, byte_count, hash_value, hash_values_from, get_hash_values, clear_bytes,
  bloom_filter_create, bloom_filter_add, bloom_filter_contains, bloom_filter_reset, set_bit,
  set_bits,
}
use micro_meow_db.BloomFilter.Bits.{bit_at, occurs_all}
use micro_meow_db.BloomFilter.Laws.{
  hashes, IsValid, Holds, add-Adds, contains-Holds, contains-of_Holds, Holds-of_contains,
}

-- one addition after another
unfoldable pub add_all : BloomFilter → List Bytes → Option BloomFilter
add_all f [] = some f
add_all f (k ∷ ks) = do (f', _) ← bloom_filter_add f (some k); add_all f' ks

all_set_mono :
    (bits bits' hs : List ℕ)
    → ((q : ℕ) → bit_at bits q ≤ bit_at bits' q)
    → All (λ p. bit_at bits p ≡ 1) hs
    → All (λ p. bit_at bits' p ≡ 1) hs
all_set_mono bits bits' [] le h = tt
all_set_mono bits bits' (p ∷ hs) le h = (
  omega (arith, le p, h.0, digit-lt (p % 8) (get_or bits' (p / 8) 0)),
  all_set_mono bits bits' hs le h.1,
)

-- The filter after some additions to `f`.
pub record Grows (f : BloomFilter) (ks : List Bytes) (f' : BloomFilter) : Type 0 where
  pub run : add_all f ks ≡ some f'
  pub valid : IsValid f'
  pub counts : f'.item_count % 2 ^ 32 ≡ (f.item_count + length ks) % 2 ^ 32
  pub size : f'.size ≡ f.size
  pub hash_count : f'.hash_count ≡ f.hash_count
  pub keeps : (q : ℕ) → bit_at f.bits q ≤ bit_at f'.bits q
  pub holds : All (Holds f') ks

add_all-Grows : (ks : List Bytes) (f : BloomFilter) → IsValid f → (f' : BloomFilter) × Grows f ks f'
unfolding add_all
add_all-Grows [] f v = (
  f,
  record {
    run = refl;
    valid = v;
    counts = omega arith;
    size = refl;
    hash_count = refl;
    keeps = λ q. omega arith;
    holds = tt;
  },
)
add_all-Grows (k ∷ ks) f v =
    let (f₁, a) = add-Adds f k v in
    let (f', g) = add_all-Grows ks f₁ a.valid in
    (
      f',
      record {
        run = rw a.run g.run;
        valid = g.valid;
        counts = omega (arith, a.counts, g.counts);
        size = g.size ∙ a.size;
        hash_count = g.hash_count ∙ a.hash_count;
        keeps = λ q. omega (arith, g.keeps q, a.reads q);
        holds = (
          rw (g.size, g.hash_count, a.size, a.hash_count)
              (all_set_mono f₁.bits f'.bits (hashes f k) g.keeps
                (occurs_all f₁.bits (hashes f k) (λ q. omega (arith, a.reads q)))),
          g.holds,
        );
      },
    )

all_contained :
    (f : BloomFilter) (ks : List Bytes)
    → IsValid f
    → All (Holds f) ks
    → All (λ k. bloom_filter_contains f (some k) ≡ some true) ks
all_contained f [] v h = tt
all_contained f (k ∷ ks) v h = (contains-of_Holds f k v h.0, all_contained f ks v h.1)

-- No false negatives. On a valid filter every run of additions is defined, the filter stays
-- valid, every key that was added is found, every key that was found before is found still, and
-- the counter grows by the number of keys, modulo 2 ^ 32.
pub contains-add_all :
    (f : BloomFilter) (ks : List Bytes)
    → IsValid f
    → (f' : BloomFilter) × (add_all f ks ≡ some f')
      × IsValid f'
      × All (λ k. bloom_filter_contains f' (some k) ≡ some true) ks
      × ((q : Bytes)
          → bloom_filter_contains f (some q) ≡ some true
          → bloom_filter_contains f' (some q) ≡ some true)
      × (f'.item_count % 2 ^ 32 ≡ (f.item_count + length ks) % 2 ^ 32)
contains-add_all f ks v =
    let (f', g) = add_all-Grows ks f v in
    (
      f',
      g.run,
      g.valid,
      all_contained f' ks g.valid g.holds,
      (λ q h. contains-of_Holds f' q g.valid (
          rw (g.size, g.hash_count)
            (all_set_mono f.bits f'.bits (hashes f q) g.keeps (Holds-of_contains f q v h)))),
      g.counts,
    )

blank_not_held :
    (bits : List ℕ) (key : Bytes) (size i left : ℕ)
    → 0 < left
    → ((q : ℕ) → bit_at bits q ≡ 0)
    → ¬ All (λ p. bit_at bits p ≡ 1) (hash_values_from key size i left)
unfolding hash_values_from
blank_not_held bits key size i zero h b = absurd (omega arith)
blank_not_held bits key size i (suc left) h b = λ t. omega (arith, t.0, b (hash_value key size i))

-- A filter that holds no bit finds nothing.
blank_contains :
    (f : BloomFilter) (q : Bytes)
    → IsValid f
    → ((p : ℕ) → bit_at f.bits p ≡ 0)
    → bloom_filter_contains f (some q) ≡ some false
blank_contains f q v b =
    let (found, run, meaning) = contains-Holds f q v in
    elim (Bool-cases found) [
      | inl t ↦ absurd (blank_not_held f.bits q f.size 0 f.hash_count v.some_hash b (meaning.0 t))
      | inr t ↦ run ∙ ap some t
    ]

clear_bytes-zero : (n i : ℕ) (bits : List ℕ) → length bits ≡ n → get_or (clear_bytes n bits) i 0 ≡ 0
unfolding clear_bytes get_or
clear_bytes-zero zero i [] h = refl
clear_bytes-zero zero i (b ∷ bits) h = absurd (omega arith)
clear_bytes-zero (suc n) i [] h = refl
clear_bytes-zero (suc n) zero (b ∷ bits) h = refl
clear_bytes-zero (suc n) (suc i) (b ∷ bits) h = clear_bytes-zero n i bits (omega arith)

length-clear_bytes : (n : ℕ) (bits : List ℕ) → length (clear_bytes n bits) ≡ length bits
unfolding clear_bytes
length-clear_bytes zero bits = refl
length-clear_bytes (suc n) [] = refl
length-clear_bytes (suc n) (b ∷ bits) = ap suc (length-clear_bytes n bits)

-- A reset succeeds, keeps the filter valid, forgets every key, and sets the counter to 0.
contains-reset :
    (f : BloomFilter) (q : Bytes)
    → IsValid f
    → let r = bloom_filter_reset f in
      (r.1 ≡ true)
      × IsValid r.0
      × (bloom_filter_contains r.0 (some q) ≡ some false)
      × (r.0.item_count ≡ 0)
unfolding bloom_filter_reset
contains-reset f q v =
    let n = byte_count f.size in
    let wide : length f.bits ≡ n = ground (arith, v.sized, v.fits) in
    let f' : BloomFilter = record f { bits = clear_bytes n f.bits; item_count = 0 } in
    let v' : IsValid f' = ground (arith, length-clear_bytes n f.bits) in
    (
      refl,
      v',
      blank_contains f' q v'
          (λ p. ap (digit (p % 8)) (clear_bytes-zero n (p / 8) f.bits wide) ∙ digit-zero (p % 8)),
      refl,
    )

-- A new filter whose size leaves room for the rounding, with at most 16 hash functions, is valid
-- and finds nothing.
contains-create :
    (m : Alloc) (size hash_count : ℕ) (f : BloomFilter) (q : Bytes)
    → size + 7 < 2 ^ 32
    → hash_count ≤ 16
    → bloom_filter_create m size hash_count ≡ some f
    → IsValid f × (bloom_filter_contains f (some q) ≡ some false)
unfolding bloom_filter_create
contains-create m size hash_count f q h k e =
    let n = byte_count (if size == 0 then 8388608 else size) in
    let blank : f.bits ≡ replicate n 0 = ground arith in
    let v : IsValid f = ground (arith, length-replicate {A = ℕ} n 0, ap (length {A = ℕ}) blank) in
    (
      v,
      blank_contains f q v (λ p.
          ap (λ bs. bit_at bs p) blank
          ∙ ap (digit (p % 8)) (get_or-replicate n (p / 8) 0)
          ∙ digit-zero (p % 8)),
    )

-- The constructor takes more than 16 hash functions, and then every addition and every search
-- writes past the buffer of the hash values.
many_hashes_overrun :
    (m : Alloc) (size hash_count : ℕ) (f : BloomFilter) (key : Bytes)
    → 16 < hash_count
    → bloom_filter_create m size hash_count ≡ some f
    → (bloom_filter_add f (some key) ≡ none) × (bloom_filter_contains f (some key) ≡ none)
unfolding bloom_filter_create bloom_filter_add bloom_filter_contains get_hash_values
many_hashes_overrun m size hash_count f key h e = ground arith

no_room :
    (key : Bytes) (size i left : ℕ)
    → 0 < left
    → set_bits [] (hash_values_from key size i left) ≡ none
unfolding set_bits set_bit hash_values_from
no_room key size i zero h = absurd (omega arith)
no_room key size i (suc left) h = ground arith

-- For the seven largest sizes the byte count wraps to 0: the array is empty, and every addition
-- writes past it.
wrapped_size_overrun :
    (m : Alloc) (size hash_count : ℕ) (f : BloomFilter) (key : Bytes)
    → 2 ^ 32 ≤ size + 7
    → size < 2 ^ 32
    → bloom_filter_create m size hash_count ≡ some f
    → (f.bits ≡ []) × (bloom_filter_add f (some key) ≡ none)
unfolding bloom_filter_create bloom_filter_add get_hash_values replicate
wrapped_size_overrun m size hash_count f key h k e =
    let blank : f.bits ≡ [] = ground arith in
    let used : 0 < f.hash_count = ground arith in
    (blank, rw blank (ground (arith, no_room key f.size 0 f.hash_count used)))
