-- ===== src/BitmapIndex/Algebra.antt =====
-- `bitmap_create`, `bitmap_and`, `bitmap_or` and `bitmap_not` of src/index/bitmap_index.c as the
-- empty set, intersection, union and complement.
use micro_meow_db.Prelude.{
  ℕ, ◌+◌, ◌-◌, ◌/◌, ◌%◌, ◌^◌, ◌≤◌, ◌<◌, bit_and, min, max, ◌≡◌, refl, ap, ◌∙◌, inl, inr, Bool, true,
  false, ◌&&◌, ◌||◌, not, some, List, length, get_or, set, replicate, length-set, get_or-replicate,
  length-replicate, All, All-set, All-get_or, All-replicate, ltb, ◌==◌, if◌then◌else◌, arith,
  Bool-cases,
}
use micro_meow_db.Prelude.Digits.{
  digit, digit-lt, digit-bit_and, digit-complement, digit-mask, digit-zero, bit_and-le,
}
use micro_meow_db.BitmapIndex.{
  Bitmap, calculate_blocks, bitmap_create, bitmap_and, bitmap_or, bitmap_not, update_block,
  or_blocks, overwrite, not_blocks,
}
use micro_meow_db.BitmapIndex.Words.{
  bit_at, IsWord, bit_at-lt, bit_at_past, bit_at-update, and_blocks-Returns, digit-or_blocks,
  or_blocks-All, not_blocks-All, length-or, overwrite-eq, get_or-not, length-not,
}
use micro_meow_db.BitmapIndex.Bits.{IsValid, holds}

-- A bitmap of `n` bits that stands for a set.
pub record Represents (r : Bitmap) (n : ℕ) (f : ℕ → Bool) : Type 0 where
  pub valid : IsValid r
  pub size : r.bit_count ≡ n
  pub reads : (q : ℕ) → holds r q ≡ f q

-- the bitmap of `size` bits with the given blocks
abbrev pub with_blocks : ℕ → List ℕ → Bitmap
with_blocks size blocks = record {
  blocks = blocks;
  block_count = calculate_blocks size;
  bit_count = size;
}

pub blank-Represents :
    (size : ℕ)
    → size + 63 < 2 ^ 32
    → Represents (with_blocks size (replicate (calculate_blocks size) 0)) size (λ _. false)
blank-Represents size h =
    let n = calculate_blocks size in
    let zero_bit : (q : ℕ) → bit_at (replicate n 0) q ≡ 0 =
      λ q. ap (digit (q % 64)) (get_or-replicate n (q / 64) 0) ∙ digit-zero (q % 64) in
    record {
      valid = record {
        fits = h;
        counted = refl;
        sized = length-replicate n 0;
        words = All-replicate IsWord n 0 (omega arith);
        clear = λ q _. zero_bit q;
      };
      size = refl;
      reads = λ q. ground (arith, zero_bit q);
    }

-- the write that clears the bits of one block from `tail` on
masked-bit :
    (ws : List ℕ) (i tail q : ℕ)
    → i < length ws
    → bit_at (set ws i (bit_and (get_or ws i 0) (2 ^ tail - 1))) q
      ≡ (if i == q / 64 then (if ltb (q % 64) tail then bit_at ws q else 0) else bit_at ws q)
masked-bit ws i tail q h =
    bit_at-update (λ w. bit_and w (2 ^ tail - 1)) ws i q h
    ∙ ground (
      arith,
      digit-bit_and (q % 64) (get_or ws i 0) (2 ^ tail - 1),
      digit-mask tail (q % 64),
      digit-lt (q % 64) (get_or ws i 0),
    )

-- The blocks that `bitmap_not` ends with: all bits turned below `size`, zeros from there on.
mask_tail :
    (blocks : List ℕ) (size : ℕ)
    → size + 63 < 2 ^ 32
    → length blocks ≡ (size + 63) / 64
    → All IsWord blocks
    → (zs : List ℕ) × ((if size % 64 == 0
          then some (not_blocks blocks)
          else update_block
              (λ w. bit_and w (2 ^ (size % 64) - 1))
              (not_blocks blocks)
              ((size + 63) / 64 - 1))
        ≡ some zs)
      × (length zs ≡ length blocks)
      × All IsWord zs
      × ((q : ℕ) → bit_at zs q ≡ (if ltb q size then 1 - bit_at blocks q else 0))
unfolding update_block
mask_tail blocks size fits sized words =
    let ws = not_blocks blocks in
    let wide = length-not blocks in
    let turned : (q : ℕ) → q / 64 < length blocks → bit_at ws q ≡ 1 - bit_at blocks q = λ q h.
      ap (digit (q % 64)) (get_or-not (q / 64) blocks h)
      ∙ digit-complement 64 (q % 64) (get_or blocks (q / 64) 0) (omega arith)
          (All-get_or IsWord blocks (q / 64) 0 words (omega arith)) in
    elim (Bool-cases (size % 64 == 0)) [
      | inl e ↦ (
        ws,
        rw e refl,
        wide,
        not_blocks-All blocks,
        λ q. ground (arith, turned q, bit_at_past ws q),
      )
      | inr e ↦
          let i = (size + 63) / 64 - 1 in
          let f = λ (w : ℕ). bit_and w (2 ^ (size % 64) - 1) in
          let inside : i < length ws = ground arith in
          (
            set ws i (f (get_or ws i 0)),
            rw e (ground arith),
            length-set ws i _ ∙ wide,
            All-set IsWord ws i _ (not_blocks-All blocks) (
                omega (
                  arith,
                  bit_and-le (get_or ws i 0) (get_or ws i 0) (2 ^ (size % 64) - 1) (omega arith),
                  All-get_or IsWord ws i 0 (not_blocks-All blocks) (omega arith),
                )),
            λ q. masked-bit ws i (size % 64) q inside ∙ ground (arith, turned q, bit_at_past ws q),
          )
    ]

module _ (a b : Bitmap) (va : IsValid a) (vb : IsValid b) where
  -- Where the result can be allocated, the conjunction of valid bitmaps is defined and is a valid
  -- bitmap of the smaller size that stands for the intersection.
  pub and-Represents :
      (r : Bitmap) × (bitmap_and true a b ≡ some (some r))
      × Represents r (min a.bit_count b.bit_count) (λ q. holds a q && holds b q)
  unfolding bitmap_and bitmap_create calculate_blocks
  and-Represents =
      let size = min a.bit_count b.bit_count in
      let n = calculate_blocks size in
      let (zs, run, wide, words, reads) =
        and_blocks-Returns n a.blocks b.blocks (omega (arith, va.sized, va.fits, vb.sized, vb.fits))
          (omega (arith, va.sized, va.fits, vb.sized, vb.fits)) va.words in
      let past : (q : ℕ) → n ≤ q / 64 → min (bit_at a.blocks q) (bit_at b.blocks q) ≡ 0 =
        λ q h. ground (arith, va.clear q, vb.clear q, va.fits, vb.fits) in
      let bit : (q : ℕ) → bit_at zs q ≡ min (bit_at a.blocks q) (bit_at b.blocks q) = λ q.
        elim (Bool-cases (ltb (q / 64) n)) [
          | inl e ↦ ap (digit (q % 64)) (reads (q / 64)) ∙ rw e (digit-bit_and (q % 64) _ _)
          | inr e ↦
              ap (digit (q % 64)) (reads (q / 64))
              ∙ rw e (omega (arith, digit-zero (q % 64), past q (ground arith)))
        ] in
      (
        with_blocks size zs,
        ground (arith, run),
        record {
          valid = record {
            fits = omega (arith, va.fits);
            counted = refl;
            sized = wide;
            words = words;
            clear = λ q h. ground (arith, bit q, va.clear q, vb.clear q);
          };
          size = refl;
          reads = λ q. ground (arith, bit q, bit_at-lt a.blocks q, bit_at-lt b.blocks q);
        },
      )

  -- Where the result can be allocated, the disjunction of valid bitmaps is defined and is a valid
  -- bitmap of the larger size that stands for the union.
  pub or-Represents :
      (r : Bitmap) × (bitmap_or true a b ≡ some (some r))
      × Represents r (max a.bit_count b.bit_count) (λ q. holds a q || holds b q)
  unfolding bitmap_or bitmap_create calculate_blocks
  or-Represents =
      let size = max a.bit_count b.bit_count in
      let n = calculate_blocks size in
      let ws = or_blocks a.blocks b.blocks in
      let wide : length ws ≡ n =
        omega (arith, length-or a.blocks b.blocks, va.sized, va.fits, vb.sized, vb.fits) in
      let bit : (q : ℕ) → bit_at ws q ≡ max (bit_at a.blocks q) (bit_at b.blocks q) =
        λ q. digit-or_blocks (q % 64) (q / 64) a.blocks b.blocks in
      (
        with_blocks size ws,
        ground (arith, overwrite-eq (replicate n 0) ws, length-replicate {A = ℕ} n 0, wide),
        record {
          valid = record {
            fits = omega (arith, va.fits, vb.fits);
            counted = refl;
            sized = wide;
            words = or_blocks-All a.blocks b.blocks va.words vb.words;
            clear = λ q h. omega (arith, bit q, va.clear q, vb.clear q);
          };
          size = refl;
          reads = λ q. ground (arith, bit q, bit_at-lt a.blocks q, bit_at-lt b.blocks q);
        },
      )

-- Where the result can be allocated, the negation of a valid bitmap is defined and is a valid
-- bitmap of the same size that stands for the complement below the size.
pub not-Represents :
    (a : Bitmap)
    → IsValid a
    → (r : Bitmap) × (bitmap_not true a ≡ some (some r))
      × Represents r a.bit_count (λ q. ltb q a.bit_count && not (holds a q))
unfolding bitmap_not bitmap_create calculate_blocks
not-Represents a va =
    let n = calculate_blocks a.bit_count in
    let (zs, run, wide, words, bit) =
      mask_tail a.blocks a.bit_count va.fits (omega (arith, va.sized, va.fits)) va.words in
    let whole : overwrite (replicate n 0) (not_blocks a.blocks) ≡ some (not_blocks a.blocks) =
      overwrite-eq (replicate n 0) (not_blocks a.blocks)
        (omega (arith, length-replicate {A = ℕ} n 0, length-not a.blocks, va.sized)) in
    let last : a.block_count ≡ (a.bit_count + 63) / 64 = omega (arith, va.counted, va.fits) in
    (
      with_blocks a.bit_count zs,
      rw (whole, last, run) refl,
      record {
        valid = record {
          fits = va.fits;
          counted = refl;
          sized = wide ∙ va.sized;
          words = words;
          clear = λ q h. ground (arith, bit q);
        };
        size = refl;
        reads = λ q. ground (arith, bit q, bit_at-lt a.blocks q);
      },
    )
