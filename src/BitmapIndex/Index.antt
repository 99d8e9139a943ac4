-- ===== src/BitmapIndex/Index.antt =====
-- The index of src/index/bitmap_index.c as a set of pairs of a value and a row number.
use micro_meow_db.Prelude.{
  ℕ, ◌+◌, ◌/◌, ◌%◌, ◌^◌, ◌≤◌, ◌<◌, ◌≡◌, refl, ap, ◌∙◌, inl, inr, Bool, true, false, List, [], ◌∷◌,
  Bytes, bytes_eq, replicate, length-replicate, All, All-replicate, if◌then◌else◌, arith,
  Bool-cases,
}
use micro_meow_db.Prelude.Digits.{digit, digit-zero}
use micro_meow_db.BitmapIndex.{
  Bitmap, calculate_blocks, bitmap_create, copy_blocks, BitmapIndex, BitmapIndexItem,
  expand_bitmaps,
}
use micro_meow_db.BitmapIndex.Words.{bit_at, IsWord, length-copy, get_or-copy, copy_blocks-All}
use micro_meow_db.BitmapIndex.Bits.{IsValid, holds}
use micro_meow_db.BitmapIndex.Algebra.{with_blocks}

-- A bitmap of an index in which `m` is the number of rows: valid, with all of its bits below `m`
-- and room for that many. A failed insertion may leave more room than that.
pub record IsRow (m : ℕ) (item : BitmapIndexItem) : Type 0 where
  pub valid : IsValid item.bits
  pub room : m ≤ item.bits.bit_count
  pub clear : (q : ℕ) → m ≤ q → bit_at item.bits.blocks q ≡ 0

abbrev pub IsIndex : BitmapIndex → Type 0
IsIndex index =
    All (IsRow index.max_bit_position) index.items × (index.max_bit_position + 63 < 2 ^ 32)

-- the pairs that the items stand for
abbrev pub view : List BitmapIndexItem → Bytes → ℕ → Bool
view [] w q = false
view (item ∷ items) w q = if bytes_eq item.value w then holds item.bits q else view items w q

-- the bitmap that takes the place of one in an enlargement
abbrev pub copied : ℕ → Bitmap → Bitmap
copied n b = with_blocks n (copy_blocks (replicate (calculate_blocks n) 0) b.blocks)

pub copied_bit :
    (n m q : ℕ) (b : Bitmap)
    → n + 63 < 2 ^ 32
    → m ≤ n
    → ((q : ℕ) → m ≤ q → bit_at b.blocks q ≡ 0)
    → bit_at (copied n b).blocks q ≡ bit_at b.blocks q
unfolding calculate_blocks
copied_bit n m q b fits le clear =
    ap (digit (q % 64)) (get_or-copy (calculate_blocks n) (q / 64) b.blocks)
    ∙ ground (arith, digit-zero (q % 64), clear q)

pub copied-IsRow :
    (n m : ℕ) (item : BitmapIndexItem)
    → n + 63 < 2 ^ 32
    → m ≤ n
    → IsRow m item
    → IsRow n (record item { bits = copied n item.bits })
copied-IsRow n m item fits le r =
    let same : (q : ℕ) → bit_at (copied n item.bits).blocks q ≡ bit_at item.bits.blocks q =
      λ q. copied_bit n m q item.bits fits le r.clear in
    let clear : (q : ℕ) → n ≤ q → bit_at (copied n item.bits).blocks q ≡ 0 =
      λ q h. same q ∙ r.clear q (omega arith) in
    record {
      valid = record {
        fits = fits;
        counted = refl;
        sized =
            length-copy (replicate (calculate_blocks n) 0) item.bits.blocks
            ∙ length-replicate (calculate_blocks n) 0;
        words =
            copy_blocks-All (replicate (calculate_blocks n) 0) item.bits.blocks
              (All-replicate IsWord (calculate_blocks n) 0 (omega arith)) r.valid.words;
        clear = clear;
      };
      room = omega arith;
      clear = clear;
    }

-- what an enlargement leaves, whether or not it comes to its end
pub record Expands (n m : ℕ) (items : List BitmapIndexItem) (r : List BitmapIndexItem × Bool)
    : Type 0 where
  pub kept : All (IsRow m) r.0
  pub grown : r.1 ≡ true → All (IsRow n) r.0
  pub reads : (w : Bytes) (q : ℕ) → view r.0 w q ≡ view items w q

copied-shrink :
    (n m : ℕ) (item : BitmapIndexItem)
    → n + 63 < 2 ^ 32
    → m ≤ n
    → IsRow m item
    → IsRow m (record item { bits = copied n item.bits })
copied-shrink n m item fits le r =
    let big = copied-IsRow n m item fits le r in
    record {
      valid = big.valid;
      room = le;
      clear = λ q h. copied_bit n m q item.bits fits le r.clear ∙ r.clear q h;
    }

pub expand-Expands :
    (granted : ℕ → Bool) (i n m : ℕ) (items : List BitmapIndexItem)
    → n + 63 < 2 ^ 32
    → m ≤ n
    → All (IsRow m) items
    → Expands n m items (expand_bitmaps granted i n items)
unfolding expand_bitmaps bitmap_create
expand-Expands granted i n m [] fits le h = record {
  kept = tt;
  grown = λ e. tt;
  reads = λ w q. refl;
}
expand-Expands granted i n m (item ∷ items) fits le h =
    let rest = expand-Expands granted (i + 1) n m items fits le h.1 in
    elim (Bool-cases (granted i)) [
      | inl e ↦
          rw (e, expand_bitmaps)
            (record {
              kept = (copied-shrink n m item fits le h.0, rest.kept);
              grown = λ done. (copied-IsRow n m item fits le h.0, rest.grown done);
              reads = λ w q.
                  ground (arith, copied_bit n m q item.bits fits le h.0.clear, rest.reads w q);
            })
      | inr e ↦
          rw (e, expand_bitmaps)
            (record { kept = h; grown = λ done. ground arith; reads = λ w q. refl })
    ]
