-- ===== src/BitmapIndex/Words.antt =====
-- Bits in an array of 64-bit blocks, for src/index/bitmap_index.c.
use native.Mathlib.Nat.{pow-suc, one-le-pow}
use micro_meow_db.Prelude.{
  ℕ, zero, suc, ◌/◌, ◌%◌, ◌^◌, ◌≤◌, ◌<◌, bit_and, max, ◌≡◌, refl, ap, ◌∙◌, some, List, [], ◌∷◌,
  length, get_or, set, replicate, get_or-set, get_or-replicate, All, ltb, ◌==◌, if◌then◌else◌,
  arith,
}
use micro_meow_db.Prelude.Digits.{
  digit, digit-lt, digit-bit_or, digit-bit_and, digit-pow, digit-complement, digit-zero, bit_or-lt,
  bit_and-le, complement,
}
use micro_meow_db.BitmapIndex.{and_blocks, or_blocks, overwrite, not_blocks, copy_blocks}

abbrev pub bit_at : List ℕ → ℕ → ℕ
bit_at blocks p = digit (p % 64) (get_or blocks (p / 64) 0)

abbrev pub IsWord : ℕ → Type 0
IsWord w = w < 2 ^ 64

pub bit_at-lt : (blocks : List ℕ) (p : ℕ) → bit_at blocks p < 2
bit_at-lt blocks p = digit-lt (p % 64) (get_or blocks (p / 64) 0)

pub pow-lt : (k n : ℕ) → k < n → 2 ^ k < 2 ^ n
pow-lt k zero h = absurd (omega arith)
pow-lt zero (suc n) h = omega (arith, pow-suc 2 n, one-le-pow n 2)
pow-lt (suc k) (suc n) h = omega (arith, pow-suc 2 k, pow-suc 2 n, pow-lt k n (omega arith))

get_or_past : (xs : List ℕ) (i : ℕ) → length xs ≤ i → get_or xs i 0 ≡ 0
unfolding get_or
get_or_past [] i h = refl
get_or_past (x ∷ xs) zero h = absurd (omega arith)
get_or_past (x ∷ xs) (suc i) h = get_or_past xs i (omega arith)

-- Past the blocks there are only zeros.
pub bit_at_past : (blocks : List ℕ) (p : ℕ) → length blocks ≤ p / 64 → bit_at blocks p ≡ 0
bit_at_past blocks p h = ap (digit (p % 64)) (get_or_past blocks (p / 64) h) ∙ digit-zero (p % 64)

-- One block written: the bits elsewhere stay.
pub bit_at-update :
    (f : ℕ → ℕ) (blocks : List ℕ) (i q : ℕ)
    → i < length blocks
    → bit_at (set blocks i (f (get_or blocks i 0))) q
      ≡ (if i == q / 64 then digit (q % 64) (f (get_or blocks i 0)) else bit_at blocks q)
bit_at-update f blocks i q h =
    rw (get_or-set blocks i (q / 64) (f (get_or blocks i 0)) 0 h) (ground arith)

-- the digit that `bitmap_clear` leaves
pub digit-cleared :
    (i j x : ℕ)
    → i < 64
    → j < 64
    → digit i (bit_and x (complement 64 (2 ^ j))) ≡ (if i == j then 0 else digit i x)
digit-cleared i j x h k =
    digit-bit_and i x (complement 64 (2 ^ j))
    ∙ ground (arith, digit-complement 64 i (2 ^ j) h (pow-lt j 64 k), digit-pow i j, digit-lt i x)

pub and_blocks-Returns :
    (n : ℕ) (xs ys : List ℕ)
    → n ≤ length xs
    → n ≤ length ys
    → All IsWord xs
    → (zs : List ℕ) × (and_blocks n xs ys ≡ some zs)
      × (length zs ≡ n)
      × All IsWord zs
      × ((i : ℕ) → get_or zs i 0 ≡ (if ltb i n then bit_and (get_or xs i 0) (get_or ys i 0) else 0))
unfolding and_blocks get_or
and_blocks-Returns zero xs ys h k w = ([], refl, refl, tt, λ i. ground arith)
and_blocks-Returns (suc n) [] ys h k w = absurd (omega arith)
and_blocks-Returns (suc n) (x ∷ xs) [] h k w = absurd (omega arith)
and_blocks-Returns (suc n) (x ∷ xs) (y ∷ ys) h k w =
    let (zs, run, size, words, reads) =
      and_blocks-Returns n xs ys (omega arith) (omega arith) w.1 in
    (
      bit_and x y ∷ zs,
      rw run refl,
      ap suc size,
      (omega (arith, w.0, bit_and-le x x y (omega arith)), words),
      and_reads n x y xs ys zs reads,
    )
  where
    and_reads :
        (n x y : ℕ) (xs ys zs : List ℕ)
        → ((i : ℕ)
            → get_or zs i 0 ≡ (if ltb i n then bit_and (get_or xs i 0) (get_or ys i 0) else 0))
        → (i : ℕ)
        → get_or (bit_and x y ∷ zs) i 0
          ≡ (if ltb i (suc n) then bit_and (get_or (x ∷ xs) i 0) (get_or (y ∷ ys) i 0) else 0)
    and_reads n x y xs ys zs h zero = ground arith
    and_reads n x y xs ys zs h (suc i) = h i ∙ ground arith

pub digit-or_blocks :
    (k i : ℕ) (xs ys : List ℕ)
    → digit k (get_or (or_blocks xs ys) i 0)
      ≡ max (digit k (get_or xs i 0)) (digit k (get_or ys i 0))
unfolding or_blocks get_or
digit-or_blocks k i [] ys = omega (arith, digit-zero k)
digit-or_blocks k i (x ∷ xs) [] = omega (arith, digit-zero k)
digit-or_blocks k zero (x ∷ xs) (y ∷ ys) = digit-bit_or k x y
digit-or_blocks k (suc i) (x ∷ xs) (y ∷ ys) = digit-or_blocks k i xs ys

pub or_blocks-All : (xs ys : List ℕ) → All IsWord xs → All IsWord ys → All IsWord (or_blocks xs ys)
unfolding or_blocks
or_blocks-All [] ys h k = k
or_blocks-All (x ∷ xs) [] h k = h
or_blocks-All (x ∷ xs) (y ∷ ys) h k = (bit_or-lt 64 x y h.0 k.0, or_blocks-All xs ys h.1 k.1)

pub not_blocks-All : (xs : List ℕ) → All IsWord (not_blocks xs)
unfolding not_blocks
not_blocks-All [] = tt
not_blocks-All (x ∷ xs) = (omega arith, not_blocks-All xs)

pub length-or : (xs ys : List ℕ) → length (or_blocks xs ys) ≡ max (length xs) (length ys)
unfolding or_blocks
length-or [] ys = omega arith
length-or (x ∷ xs) [] = omega arith
length-or (x ∷ xs) (y ∷ ys) = omega (arith, length-or xs ys)

pub overwrite-eq : (old ws : List ℕ) → length old ≡ length ws → overwrite old ws ≡ some ws
unfolding overwrite
overwrite-eq [] [] h = refl
overwrite-eq (o ∷ old) [] h = absurd (omega arith)
overwrite-eq [] (w ∷ ws) h = absurd (omega arith)
overwrite-eq (o ∷ old) (w ∷ ws) h = rw (overwrite-eq old ws (omega arith)) refl

pub get_or-not :
    (i : ℕ) (xs : List ℕ)
    → i < length xs
    → get_or (not_blocks xs) i 0 ≡ complement 64 (get_or xs i 0)
unfolding not_blocks get_or
get_or-not i [] h = absurd (omega arith)
get_or-not zero (x ∷ xs) h = refl
get_or-not (suc i) (x ∷ xs) h = get_or-not i xs (omega arith)

pub length-not : (xs : List ℕ) → length (not_blocks xs) ≡ length xs
unfolding not_blocks
length-not [] = refl
length-not (x ∷ xs) = ap suc (length-not xs)

pub length-copy : (new old : List ℕ) → length (copy_blocks new old) ≡ length new
unfolding copy_blocks
length-copy [] old = refl
length-copy (n ∷ new) [] = refl
length-copy (n ∷ new) (o ∷ old) = ap suc (length-copy new old)

-- a copy into zeros
pub get_or-copy :
    (n i : ℕ) (old : List ℕ)
    → get_or (copy_blocks (replicate n 0) old) i 0 ≡ (if ltb i n then get_or old i 0 else 0)
unfolding copy_blocks get_or replicate
get_or-copy zero i old = ground arith
get_or-copy (suc n) zero [] = ground arith
get_or-copy (suc n) (suc i) [] = get_or-replicate n i 0 ∙ ground arith
get_or-copy (suc n) zero (o ∷ old) = ground arith
get_or-copy (suc n) (suc i) (o ∷ old) = get_or-copy n i old ∙ ground arith

pub copy_blocks-All :
    (new old : List ℕ) → All IsWord new → All IsWord old → All IsWord (copy_blocks new old)
unfolding copy_blocks
copy_blocks-All [] old h k = tt
copy_blocks-All (n ∷ new) [] h k = h
copy_blocks-All (n ∷ new) (o ∷ old) h k = (k.0, copy_blocks-All new old h.1 k.1)
