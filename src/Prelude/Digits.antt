-- ===== src/Prelude/Digits.antt =====
-- Binary digits of a word, and what the bit operations of C do to each of them.
use Prim.Native.Nat.{ℕ, zero, suc, ◌+◌, ◌-◌, ◌*◌, ◌/◌, ◌%◌, ◌^◌, ◌≤◌, ◌<◌, min, max}
use Prim.Native.Nat.{bit_and, bit_or, digits, bit_and-bitwise, bit_or-bitwise}
use mathlib.Core.Path.{◌≡◌, refl, sym, ap, ◌∙◌}
use mathlib.Core.Bool.{true, false}
use native.Mathlib.Nat.{pow-suc, one-le-pow}
use native.Mathlib.Omega.{arith}
use micro_meow_db.Prelude.Booleans.{ltb, ◌==◌, if◌then◌else◌}

-- the digit of weight 2 ^ i
unfoldable pub digit : ℕ → ℕ → ℕ
digit zero x = x % 2
digit (suc i) x = digit i (x / 2)

-- 1 at one index
abbrev pub indicator : ℕ → ℕ → ℕ
indicator i j = if i == j then 1 else 0

-- ~x in a word of n bits
abbrev pub complement : ℕ → ℕ → ℕ
complement n x = 2 ^ n - 1 - x

-- The recursion behind the operations on digits gives the same result for every count of digits that
-- is large enough, so it takes off the lowest digits of both numbers.
module _ (rest : ℕ → ℕ) (op : ℕ → ℕ → ℕ) where
  digits-zero : (n y : ℕ) → digits rest op n 0 y ≡ rest y
  digits-zero zero y = refl
  digits-zero (suc n) y = refl

  digits_agree : (x n m y : ℕ) → x ≤ n → x ≤ m → digits rest op n x y ≡ digits rest op m x y
  digits_agree zero n m y h k = digits-zero n y ∙ sym (digits-zero m y)
  digits_agree (suc x) zero m y h k = absurd (omega arith)
  digits_agree (suc x) (suc n) zero y h k = absurd (omega arith)
  digits_agree (suc x) (suc n) (suc m) y h k =
      ap (λ t. t * 2 + op (suc x % 2) (y % 2))
        (digits_agree (suc x / 2) n m (y / 2) (omega arith) (omega arith))

  digits_halve :
      (x y : ℕ)
      → digits rest op (suc x) (suc x) y
        ≡ digits rest op (suc x / 2) (suc x / 2) (y / 2) * 2 + op (suc x % 2) (y % 2)
  digits_halve x y =
      ap (λ t. t * 2 + op (suc x % 2) (y % 2))
        (digits_agree (suc x / 2) x (suc x / 2) (y / 2) (omega arith) (omega arith))

bit_and_step : (a b : ℕ) → bit_and a b ≡ bit_and (a / 2) (b / 2) * 2 + min (a % 2) (b % 2)
bit_and_step zero b = omega (arith, bit_and-bitwise 0 b, bit_and-bitwise 0 (b / 2))
bit_and_step (suc a) b =
    bit_and-bitwise (suc a) b
    ∙ digits_halve (λ _. 0) min a b
    ∙ ap (λ t. t * 2 + min (suc a % 2) (b % 2)) (sym (bit_and-bitwise (suc a / 2) (b / 2)))

bit_or_step : (a b : ℕ) → bit_or a b ≡ bit_or (a / 2) (b / 2) * 2 + max (a % 2) (b % 2)
bit_or_step zero b = omega (arith, bit_or-bitwise 0 b, bit_or-bitwise 0 (b / 2))
bit_or_step (suc a) b =
    bit_or-bitwise (suc a) b
    ∙ digits_halve (λ y. y) max a b
    ∙ ap (λ t. t * 2 + max (suc a % 2) (b % 2)) (sym (bit_or-bitwise (suc a / 2) (b / 2)))

pub digit-lt : (i x : ℕ) → digit i x < 2
unfolding digit
digit-lt zero x = omega arith
digit-lt (suc i) x = digit-lt i (x / 2)

pub digit-bit_or : (i x y : ℕ) → digit i (bit_or x y) ≡ max (digit i x) (digit i y)
unfolding digit
digit-bit_or zero x y = omega (arith, bit_or_step x y)
digit-bit_or (suc i) x y =
    let e : bit_or x y / 2 ≡ bit_or (x / 2) (y / 2) = omega (arith, bit_or_step x y) in
    ap (digit i) e ∙ digit-bit_or i (x / 2) (y / 2)

pub digit-bit_and : (i x y : ℕ) → digit i (bit_and x y) ≡ min (digit i x) (digit i y)
unfolding digit
digit-bit_and zero x y = omega (arith, bit_and_step x y)
digit-bit_and (suc i) x y =
    let e : bit_and x y / 2 ≡ bit_and (x / 2) (y / 2) = omega (arith, bit_and_step x y) in
    ap (digit i) e ∙ digit-bit_and i (x / 2) (y / 2)

pub digit-zero : (i : ℕ) → digit i 0 ≡ 0
unfolding digit
digit-zero zero = refl
digit-zero (suc i) = digit-zero i

half-pow : (j : ℕ) → 2 ^ suc j / 2 ≡ 2 ^ j
half-pow j = omega (arith, pow-suc 2 j)

pub digit-pow : (i j : ℕ) → digit i (2 ^ j) ≡ indicator i j
unfolding digit
digit-pow zero zero = refl
digit-pow zero (suc j) = ground (arith, pow-suc 2 j)
digit-pow (suc i) zero = digit-zero i ∙ ground arith
digit-pow (suc i) (suc j) = ap (digit i) (half-pow j) ∙ digit-pow i j ∙ ground arith

bit_and-zero : (n x : ℕ) → x ≤ n → bit_and x 0 ≡ 0
bit_and-zero n zero h = omega (arith, bit_and-bitwise 0 0)
bit_and-zero zero (suc x) h = absurd (omega arith)
bit_and-zero (suc n) (suc x) h =
    omega (arith, bit_and_step (suc x) 0, bit_and-zero n (suc x / 2) (omega arith))

-- x & (1 << i) is 2 ^ i or 0, by the digit.
pub bit_and-pow : (i x : ℕ) → bit_and x (2 ^ i) ≡ digit i x * 2 ^ i
unfolding digit
bit_and-pow zero x = omega (arith, bit_and_step x 1, bit_and-zero (x / 2) (x / 2) (omega arith))
bit_and-pow (suc i) x =
    let e : 2 ^ suc i % 2 ≡ 0 = omega (arith, pow-suc 2 i) in
    bit_and_step x (2 ^ suc i)
    ∙ rw (half-pow i, bit_and-pow i (x / 2), e) (grind (arith, pow-suc 2 i))

half-complement : (n x : ℕ) → x < 2 ^ suc n → complement (suc n) x / 2 ≡ complement n (x / 2)
half-complement n x h = omega (arith, pow-suc 2 n)

-- every digit of ~x is the other one
pub digit-complement : (n i x : ℕ) → i < n → x < 2 ^ n → digit i (complement n x) ≡ 1 - digit i x
unfolding digit
digit-complement zero i x h k = absurd (omega arith)
digit-complement (suc n) zero x h k = omega (arith, pow-suc 2 n)
digit-complement (suc n) (suc i) x h k =
    ap (digit i) (half-complement n x k)
    ∙ digit-complement n i (x / 2) (omega arith) (omega (arith, pow-suc 2 n))

half-mask : (n : ℕ) → (2 ^ suc n - 1) / 2 ≡ 2 ^ n - 1
half-mask n = omega (arith, pow-suc 2 n, one-le-pow n 2)

-- the digits of (1 << n) - 1
pub digit-mask : (n i : ℕ) → digit i (2 ^ n - 1) ≡ (if ltb i n then 1 else 0)
unfolding digit
digit-mask zero i = digit-zero i ∙ ground arith
digit-mask (suc n) zero = ground (arith, pow-suc 2 n, one-le-pow n 2)
digit-mask (suc n) (suc i) = ap (digit i) (half-mask n) ∙ digit-mask n i ∙ ground arith

-- the operations stay within a word
pub bit_or-lt : (n x y : ℕ) → x < 2 ^ n → y < 2 ^ n → bit_or x y < 2 ^ n
bit_or-lt zero x y h k = omega (arith, bit_or-bitwise 0 0, ap (λ t. bit_or t y) e, ap (bit_or 0) f)
  where
    e : x ≡ 0
    e = omega arith

    f : y ≡ 0
    f = omega arith
bit_or-lt (suc n) x y h k = omega (
  arith,
  bit_or_step x y,
  pow-suc 2 n,
  bit_or-lt n (x / 2) (y / 2) (omega (arith, pow-suc 2 n)) (omega (arith, pow-suc 2 n)),
)

pub bit_and-le : (n x y : ℕ) → x ≤ n → bit_and x y ≤ x
bit_and-le n zero y h = omega (arith, bit_and-bitwise 0 y)
bit_and-le zero (suc x) y h = absurd (omega arith)
bit_and-le (suc n) (suc x) y h =
    omega (arith, bit_and_step (suc x) y, bit_and-le n (suc x / 2) (y / 2) (omega arith))

-- the test `x & (1 << i)` reads the digit
pub masked-eq-digit :
    (i x : ℕ) → (if bit_and x (2 ^ i) == 0 then false else true) ≡ (digit i x == 1)
masked-eq-digit i x = rw (bit_and-pow i x) (grind (arith, digit-lt i x, one-le-pow i 2))
