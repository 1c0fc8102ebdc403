-- ===== src/Bits/Pow.antt =====
-- The digits of a power of 2, and numbers with one digit set or cleared.
use native.Mathlib.Nat.{pow-suc, one-le-pow}
use learn_kvm.Base.{
  ℕ, zero, suc, ◌+◌, ◌*◌, ◌/◌, ◌%◌, ◌^◌, ◌<◌, bit_and, bit_or, ◌≡◌, ◌≢◌, refl, arith, not64, ap,
  sym, ◌∙◌,
}
use learn_kvm.Bits.Step.{bit_or_step}
use learn_kvm.Bits.Digit.{bit, bit_le, bit-zero, bit-and, bit-or, bit_ext}
use learn_kvm.Bits.Mask.{bit-not64}

pub bit-pow_self : (k : ℕ) → bit k (2 ^ k) ≡ 1
unfolding bit
bit-pow_self zero = refl
bit-pow_self (suc k) =
    let h : 2 ^ suc k / 2 ≡ 2 ^ k = omega (arith, pow-suc 2 k) in rw h (bit-pow_self k)

pub bit-pow_ne : (k n : ℕ) → k ≢ n → bit k (2 ^ n) ≡ 0
unfolding bit
bit-pow_ne zero zero h = absurd (h refl)
bit-pow_ne zero (suc n) h = omega (arith, pow-suc 2 n)
bit-pow_ne (suc k) zero h = bit-zero k
bit-pow_ne (suc k) (suc n) h =
    let e : 2 ^ suc n / 2 ≡ 2 ^ n = omega (arith, pow-suc 2 n) in
    rw e (bit-pow_ne k n λ q. h (ap suc q))

pub pow-lt64 : (n : ℕ) → n < 64 → 2 ^ n < 2 ^ 64
pow-lt64 n h = below 64 n h
  where
    below : (w n : ℕ) → n < w → 2 ^ n < 2 ^ w
    below zero n h = absurd (omega arith)
    below (suc w) zero h = omega (arith, pow-suc 2 w, one-le-pow w 2 (omega arith))
    below (suc w) (suc n) h = omega (arith, pow-suc 2 w, pow-suc 2 n, below w n (omega arith))

pub set_self : (k w : ℕ) → bit k (bit_or w (2 ^ k)) ≡ 1
set_self k w = omega (arith, bit-or k w (2 ^ k), bit-pow_self k, bit_le k w)

pub set_other : (k n w : ℕ) → k ≢ n → bit k (bit_or w (2 ^ n)) ≡ bit k w
set_other k n w h = omega (arith, bit-or k w (2 ^ n), bit-pow_ne k n h)

pub clear_self : (k w : ℕ) → k < 64 → bit k (bit_and w (not64 (2 ^ k))) ≡ 0
clear_self k w h =
    omega (arith, bit-and k w (not64 (2 ^ k)), bit-not64 k (2 ^ k) (pow-lt64 k h) h, bit-pow_self k)

pub clear_other :
    (k n w : ℕ) → k < 64 → n < 64 → k ≢ n → bit k (bit_and w (not64 (2 ^ n))) ≡ bit k w
clear_other k n w h hn ne = omega (
  arith,
  bit-and k w (not64 (2 ^ n)),
  bit-not64 k (2 ^ n) (pow-lt64 n hn) h,
  bit-pow_ne k n ne,
  bit_le k w,
)

-- A number none of whose digits is set is 0.
pub zero_of_bits : (w : ℕ) → ((k : ℕ) → bit k w ≡ 0) → w ≡ 0
zero_of_bits w h = bit_ext w 0 λ k. h k ∙ sym (bit-zero k)

-- A power of 2 above a number is added to it.
pub or-pow : (k x : ℕ) → x < 2 ^ k → bit_or x (2 ^ k) ≡ x + 2 ^ k
or-pow zero x h =
    let e : x ≡ 0 = omega arith in
    rw e (bit_ext (bit_or 0 1) 1 λ n. omega (arith, bit-or n 0 1, bit-zero n))
or-pow (suc k) x h =
    let e : 2 ^ suc k ≡ 2 * 2 ^ k = omega (arith, pow-suc 2 k) in
    let half : 2 ^ suc k / 2 ≡ 2 ^ k = omega arith in
    let low : 2 ^ suc k % 2 ≡ 0 = omega arith in
    bit_or_step x (2 ^ suc k) ∙ rw (half, low, or-pow k (x / 2) (omega arith)) (omega (arith, e))

mul_pow : (k y : ℕ) → y * 2 ^ suc k ≡ 2 * (y * 2 ^ k)
mul_pow k y = simp pow-suc (grind arith)

-- A multiple of a power of 2 has no digits below.
pub bit-mul_pow : (k n y : ℕ) → n < k → bit n (y * 2 ^ k) ≡ 0
unfolding bit
bit-mul_pow zero n y h = absurd (omega arith)
bit-mul_pow (suc k) zero y h = omega (arith, mul_pow k y)
bit-mul_pow (suc k) (suc n) y h =
    let half : y * 2 ^ suc k / 2 ≡ y * 2 ^ k = omega (arith, mul_pow k y) in
    rw half (bit-mul_pow k n y (omega arith))

-- Fields that do not overlap are added.
pub or-shift : (k x y : ℕ) → x < 2 ^ k → bit_or x (y * 2 ^ k) ≡ x + y * 2 ^ k
or-shift zero x y h =
    let e : x ≡ 0 = omega arith in
    let f : 0 + y * 1 ≡ y * 1 = omega arith in
    rw e (
      bit_ext (bit_or 0 (y * 1)) (0 + y * 1)
        λ n. omega (arith, bit-or n 0 (y * 1), bit-zero n, ap (bit n) f))
or-shift (suc k) x y h =
    let e : y * 2 ^ suc k ≡ 2 * (y * 2 ^ k) = mul_pow k y in
    let half : y * 2 ^ suc k / 2 ≡ y * 2 ^ k = omega (arith, e) in
    let low : y * 2 ^ suc k % 2 ≡ 0 = omega (arith, e) in
    let small : x / 2 < 2 ^ k = omega (arith, pow-suc 2 k) in
    bit_or_step x (y * 2 ^ suc k) ∙ rw (half, low, or-shift k (x / 2) y small) (omega (arith, e))
