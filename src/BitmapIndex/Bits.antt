-- ===== src/BitmapIndex/Bits.antt =====
-- The bitmap operations of src/index/bitmap_index.c as operations on sets of positions.
use micro_meow_db.Prelude.{
  ℕ, ◌+◌, ◌/◌, ◌%◌, ◌^◌, ◌≤◌, ◌<◌, bit_and, bit_or, ◌≡◌, refl, ◌∙◌, Bool, true, false, some, List,
  length, get_or, set, length-set, All, All-set, All-get_or, ◌==◌, if◌then◌else◌, arith,
}
use micro_meow_db.Prelude.Digits.{
  masked-eq-digit, digit, digit-lt, digit-bit_or, digit-pow, bit_or-lt, bit_and-le, complement,
}
use micro_meow_db.BitmapIndex.{
  Bitmap, calculate_blocks, bitmap_set, bitmap_clear, bitmap_test, update_block,
}
use micro_meow_db.BitmapIndex.Words.{bit_at, IsWord, pow-lt, bit_at-update, digit-cleared}

-- A bitmap whose size leaves room for the rounding, with one block for each 64 bits and zeros
-- behind its last bit.
pub record IsValid (b : Bitmap) : Type 0 where
  pub fits : b.bit_count + 63 < 2 ^ 32
  pub counted : b.block_count ≡ calculate_blocks b.bit_count
  pub sized : length b.blocks ≡ calculate_blocks b.bit_count
  pub words : All IsWord b.blocks
  pub clear : (p : ℕ) → b.bit_count ≤ p → bit_at b.blocks p ≡ 0

-- the set of positions that a bitmap stands for
abbrev pub holds : Bitmap → ℕ → Bool
holds b p = bit_at b.blocks p == 1

-- A test is never undefined on a valid bitmap, and reads the set.
test-holds : (b : Bitmap) (p : ℕ) → IsValid b → bitmap_test b p ≡ some (holds b p)
unfolding bitmap_test calculate_blocks
test-holds b p v =
    ground
      (arith, masked-eq-digit (p % 64) (get_or b.blocks (p / 64) 0), v.clear p, v.sized, v.fits)

-- what a write of one bit leaves
pub record Writes (b : Bitmap) (p : ℕ) (value : Bool) (r : Bitmap × Bool) : Type 0 where
  pub done : r.1 ≡ true
  pub valid : IsValid r.0
  pub size : r.0.bit_count ≡ b.bit_count
  pub reads : (q : ℕ) → holds r.0 q ≡ (if q == p then value else holds b q)

-- one block changed by a function of words that only touches bits below the size
update-Writes :
    (b : Bitmap) (p : ℕ) (value : Bool) (f : ℕ → ℕ)
    → IsValid b
    → p < b.bit_count
    → ((w : ℕ) → IsWord w → IsWord (f w))
    → ((i w : ℕ)
        → i < 64
        → digit i (f w) ≡ (if i == p % 64 then (if value then 1 else 0) else digit i w))
    → (blocks : List ℕ) × (update_block f b.blocks (p / 64) ≡ some blocks)
      × Writes b p value (record b { blocks = blocks }, true)
unfolding update_block calculate_blocks
update-Writes b p value f v lt word reads =
    let i = p / 64 in
    let inside : i < length b.blocks = omega (arith, v.sized, v.fits) in
    let one : (q : ℕ)
        → bit_at (set b.blocks i (f (get_or b.blocks i 0))) q
          ≡ (if q == p then (if value then 1 else 0) else bit_at b.blocks q) =
      λ q.
        bit_at-update f b.blocks i q inside
        ∙ ground (arith, reads (q % 64) (get_or b.blocks i 0)) in
    (
      set b.blocks i (f (get_or b.blocks i 0)),
      ground arith,
      record {
        done = refl;
        valid = record {
          fits = v.fits;
          counted = v.counted;
          sized = length-set b.blocks i _ ∙ v.sized;
          words =
              All-set IsWord b.blocks i _ v.words
                (word _ (All-get_or IsWord b.blocks i 0 v.words (omega arith)));
          clear = λ q h. one q ∙ ground (arith, v.clear q h);
        };
        size = refl;
        reads = λ q. ground (arith, one q);
      },
    )

-- Setting a position of a valid bitmap succeeds, keeps it valid, and adds that position alone.
pub set-Writes :
    (b : Bitmap) (p : ℕ)
    → IsValid b
    → p < b.bit_count
    → (r : Bitmap × Bool) × (bitmap_set b p ≡ some r) × Writes b p true r
unfolding bitmap_set
set-Writes b p v lt =
    let f = λ (w : ℕ). bit_or w (2 ^ (p % 64)) in
    let (blocks, run, writes) =
      update-Writes b p true f v lt
        (λ w h. bit_or-lt 64 w (2 ^ (p % 64)) h (pow-lt (p % 64) 64 (omega arith)))
        (λ i w h.
          ground (arith, digit-bit_or i w (2 ^ (p % 64)), digit-pow i (p % 64), digit-lt i w)) in
    ((record b { blocks = blocks }, true), ground (arith, run), writes)

-- Clearing a position of a valid bitmap succeeds, keeps it valid, and removes that position alone.
clear-Writes :
    (b : Bitmap) (p : ℕ)
    → IsValid b
    → p < b.bit_count
    → (r : Bitmap × Bool) × (bitmap_clear b p ≡ some r) × Writes b p false r
unfolding bitmap_clear
clear-Writes b p v lt =
    let f = λ (w : ℕ). bit_and w (complement 64 (2 ^ (p % 64))) in
    let (blocks, run, writes) =
      update-Writes b p false f v lt
        (λ w h. omega (arith, bit_and-le w w (complement 64 (2 ^ (p % 64))) (omega arith)))
        (λ i w h. ground (arith, digit-cleared i (p % 64) w h (omega arith))) in
    ((record b { blocks = blocks }, true), ground (arith, run), writes)
