-- ===== src/BloomFilter/Bits.antt =====
-- The bit array of src/index/bloom_filter.c, bit by bit.
use micro_meow_db.Prelude.{
  ℕ, zero, suc, ◌/◌, ◌%◌, ◌^◌, ◌≤◌, ◌<◌, max, bit_and, bit_or, ◌≡◌, refl, ap, ◌∙◌, ◌↔◌, ◌⊎◌, Bool,
  true, false, some, List, [], ◌∷◌, length, get_or, set, get_or-set, length-set, ◌==◌,
  if◌then◌else◌, arith, All, inl, inr,
}
use micro_meow_db.Prelude.Digits.{digit, digit-lt, digit-bit_or, digit-pow, bit_and-pow, indicator}
use native.Mathlib.Nat.{one-le-pow}
use micro_meow_db.BloomFilter.{set_bit, test_bit, set_bits, test_bits}

-- the bit at a position
abbrev pub bit_at : List ℕ → ℕ → ℕ
bit_at bits pos = digit (pos % 8) (get_or bits (pos / 8) 0)

-- Positions within the array.
abbrev pub Within : List ℕ → ℕ → Type 0
Within bits pos = pos / 8 < length bits

-- the cast to `uint8_t` keeps the eight digits
digit-byte : (i x : ℕ) → i < 8 → digit i (x % 256) ≡ digit i x
unfolding digit
digit-byte zero x h = omega arith
digit-byte (suc zero) x h = omega arith
digit-byte (suc (suc zero)) x h = omega arith
digit-byte (suc (suc (suc zero))) x h = omega arith
digit-byte (suc (suc (suc (suc zero)))) x h = omega arith
digit-byte (suc (suc (suc (suc (suc zero))))) x h = omega arith
digit-byte (suc (suc (suc (suc (suc (suc zero)))))) x h = omega arith
digit-byte (suc (suc (suc (suc (suc (suc (suc zero))))))) x h = omega arith
digit-byte (suc (suc (suc (suc (suc (suc (suc (suc i)))))))) x h = absurd (omega arith)

digit-set_byte :
    (i j x : ℕ) → i < 8 → digit i (bit_or x (2 ^ j) % 256) ≡ max (digit i x) (indicator i j)
digit-set_byte i j x h =
    digit-byte i _ h ∙ digit-bit_or i x (2 ^ j) ∙ ap (max (digit i x)) (digit-pow i j)

digit_cases : (i x : ℕ) → (digit i x ≡ 0) ⊎ (digit i x ≡ 1)
digit_cases i x = omega (arith, digit-lt i x)

masked-eq-digit : (i x : ℕ) → (if bit_and x (2 ^ i) == 0 then false else true) ≡ (digit i x == 1)
masked-eq-digit i x = elim (digit_cases i x) [
  | inl e ↦ rw (bit_and-pow i x, e) (ground arith)
  | inr e ↦ rw (bit_and-pow i x, e) (ground (arith, one-le-pow i 2))
]

-- the array with one more bit set
module _ (bits : List ℕ) (pos : ℕ) (h : Within bits pos) where
  abbrev pub with_bit : List ℕ
  with_bit = set bits (pos / 8) (bit_or (get_or bits (pos / 8) 0) (2 ^ (pos % 8)) % 256)

  pub set_bit-eq : set_bit bits pos ≡ some with_bit
  unfolding set_bit
  set_bit-eq = ground arith

  pub bit_at-with : (q : ℕ) → bit_at with_bit q ≡ max (bit_at bits q) (indicator q pos)
  bit_at-with q =
      rw
        (get_or-set bits (pos / 8) (q / 8) (bit_or (get_or bits (pos / 8) 0) (2 ^ (pos % 8)) % 256)
          0 h)
        (ground (arith, digit-set_byte (q % 8) (pos % 8) (get_or bits (pos / 8) 0)))

  pub test_bit-eq : test_bit bits pos ≡ some (bit_at bits pos == 1)
  unfolding test_bit
  test_bit-eq = ground (arith, masked-eq-digit (pos % 8) (get_or bits (pos / 8) 0))

-- 1 if a position is among those of the list
abbrev pub occurs : ℕ → List ℕ → ℕ
occurs q [] = 0
occurs q (p ∷ hs) = max (indicator q p) (occurs q hs)

Within-congr :
    (bits bits' : List ℕ) (hs : List ℕ)
    → length bits' ≡ length bits
    → All (Within bits) hs
    → All (Within bits') hs
Within-congr bits bits' [] e h = tt
Within-congr bits bits' (p ∷ hs) e h = (omega arith, Within-congr bits bits' hs e h.1)

-- With every position in the array, the bits of the list are set, and no other bit changes.
pub set_bits-Returns :
    (bits hs : List ℕ)
    → All (Within bits) hs
    → (bits' : List ℕ) × (set_bits bits hs ≡ some bits')
      × (length bits' ≡ length bits)
      × ((q : ℕ) → bit_at bits' q ≡ max (bit_at bits q) (occurs q hs))
unfolding set_bits
set_bits-Returns bits [] h = (bits, refl, refl, λ q. omega arith)
set_bits-Returns bits (p ∷ hs) h =
    let one = with_bit bits p h.0 in
    let same : length one ≡ length bits = length-set bits _ _ in
    let (bits', run, size, reads) = set_bits-Returns one hs (Within-congr bits one hs same h.1) in
    (
      bits',
      rw (set_bit-eq bits p h.0) run,
      size ∙ same,
      λ q. omega (arith, reads q, bit_at-with bits p h.0 q),
    )

-- What is in the list is set.
pub occurs_all :
    (bits hs : List ℕ) → ((q : ℕ) → occurs q hs ≤ bit_at bits q) → All (λ p. bit_at bits p ≡ 1) hs
occurs_all bits [] h = tt
occurs_all bits (p ∷ hs) h = (
  ground (arith, h p, digit-lt (p % 8) (get_or bits (p / 8) 0)),
  occurs_all bits hs (λ q. omega (arith, h q)),
)

module _ (bits : List ℕ) where
  -- The test passes exactly when all the bits are set.
  pub test_bits-Returns :
      (hs : List ℕ)
      → All (Within bits) hs
      → (found : Bool) × (test_bits bits hs ≡ some found)
        × ((found ≡ true) ↔ All (λ p. bit_at bits p ≡ 1) hs)
  unfolding test_bits
  test_bits-Returns [] h = (true, refl, ((λ _. tt), (λ _. refl)))
  test_bits-Returns (p ∷ hs) h =
      let (found, run, meaning) = test_bits-Returns hs h.1 in
      elim (digit_cases (p % 8) (get_or bits (p / 8) 0)) [
        | inl e ↦
            (false, rw (test_bit-eq bits p h.0, e) refl, ((λ t. cc), (λ t. absurd (omega arith))))
        | inr e ↦ (
          found,
          rw (test_bit-eq bits p h.0, e) run,
          ((λ t. (e, meaning.0 t)), (λ t. meaning.1 t.1)),
        )
      ]
