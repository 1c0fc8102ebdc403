-- ===== src/Bits/Mask.antt =====
-- Digits of complements, remainders and shifts, at every width.
use native.Mathlib.Nat.{pow-suc, one-le-pow, add-suc, mul_comm, div-div-eq-div-mul, div-add-mod}
use learn_kvm.Bits.Step.{bit_or_step, bit_and_step}
use learn_kvm.Base.{
  ℕ, zero, suc, ◌+◌, ◌-◌, ◌*◌, ◌/◌, ◌%◌, ◌^◌, ◌≤◌, ◌<◌, bit_and, bit_or, ◌≡◌, arith, ap, ◌∙◌, not64,
  ◌⊎◌, inl, inr,
}
use learn_kvm.Bits.Digit.{bit, bit-zero, bit-and, bit_ext}

pub bit_high : (w n x : ℕ) → x < 2 ^ w → w ≤ n → bit n x ≡ 0
unfolding bit
bit_high zero n x h p = rw (let e : x ≡ 0 = omega arith in e) (bit-zero n)
bit_high (suc w) zero x h p = absurd (omega arith)
bit_high (suc w) (suc n) x h p = bit_high w n (x / 2) (omega (arith, pow-suc 2 w)) (omega arith)

half-complement : (w x : ℕ) → x < 2 ^ suc w → (2 ^ suc w - 1 - x) / 2 ≡ 2 ^ w - 1 - x / 2
half-complement w x h = omega (arith, pow-suc 2 w)

pub bit-complement : (w n x : ℕ) → x < 2 ^ w → n < w → bit n (2 ^ w - 1 - x) ≡ 1 - bit n x
unfolding bit
bit-complement zero n x h p = absurd (omega arith)
bit-complement (suc w) zero x h p = omega (arith, pow-suc 2 w, one-le-pow w 2)
bit-complement (suc w) (suc n) x h p =
    rw (half-complement w x h)
      (bit-complement w n (x / 2) (omega (arith, pow-suc 2 w)) (omega arith))

pub bit-not64 : (n x : ℕ) → x < 2 ^ 64 → n < 64 → bit n (not64 x) ≡ 1 - bit n x
bit-not64 n x h p = bit-complement 64 n x h p

-- Two 64-bit numbers are equal when their 64 digits are.
pub bit_ext64 : (a b : ℕ) → a < 2 ^ 64 → b < 2 ^ 64 → ((n : ℕ) → n < 64 → bit n a ≡ bit n b) → a ≡ b
bit_ext64 a b ha hb h = bit_ext a b λ n. by_size n (split n)
  where
    split : (n : ℕ) → (n < 64) ⊎ (64 ≤ n)
    split n = ground arith

    by_size : (n : ℕ) → (n < 64) ⊎ (64 ≤ n) → bit n a ≡ bit n b
    by_size n (inl p) = h n p
    by_size n (inr p) = omega (arith, bit_high 64 n a ha p, bit_high 64 n b hb p)

pub bit_and-zero : (x : ℕ) → bit_and x 0 ≡ 0
bit_and-zero x = bit_ext _ _ λ n. omega (arith, bit-and n x 0, bit-zero n)

-- A test against one bit.
pub bit_and-pow : (k x : ℕ) → bit_and x (2 ^ k) ≡ bit k x * 2 ^ k
unfolding bit
bit_and-pow zero x = omega (arith, bit_and_step x 1, bit_and-zero (x / 2))
bit_and-pow (suc k) x =
    let e : 2 ^ suc k ≡ 2 * 2 ^ k = omega (arith, pow-suc 2 k) in
    let h : 2 ^ suc k / 2 ≡ 2 ^ k = omega arith in
    let low : 2 ^ suc k % 2 ≡ 0 = omega arith in
    let ih = bit_and-pow k (x / 2) in
    let q : ℕ = bit k (x / 2) in bit_and_step x (2 ^ suc k) ∙ rw (h, low, ih, e) (omega arith)

pub bit-shr : (k n x : ℕ) → bit n (x / 2 ^ k) ≡ bit (n + k) x
unfolding bit
bit-shr zero n x = rw (let e : n + 0 ≡ n = omega arith in e, let e : x / 1 ≡ x = omega arith in e)
bit-shr (suc k) n x =
    rw (add-suc, pow-suc 2 k, mul_comm (2 ^ k) 2, ← div-div-eq-div-mul x 2 (2 ^ k))
      (bit-shr k n (x / 2))

-- The mask of the `k` low bits is a remainder.
pub bit_and-low : (k x : ℕ) → bit_and x (2 ^ k - 1) ≡ x % 2 ^ k
bit_and-low zero x = bit_and-zero x ∙ omega arith
bit_and-low (suc k) x =
    let e : 2 ^ suc k ≡ 2 * 2 ^ k = omega (arith, pow-suc 2 k) in
    let pos : 1 ≤ 2 ^ k = one-le-pow k 2 (omega arith) in
    let h : (2 ^ suc k - 1) / 2 ≡ 2 ^ k - 1 = omega arith in
    let low : (2 ^ suc k - 1) % 2 ≡ 1 = omega arith in
    bit_and_step x (2 ^ suc k - 1)
    ∙ rw (h, low, bit_and-low k (x / 2), e)
        (omega (
          arith,
          ap (λ (t : ℕ). 2 ^ k * t) (div-div-eq-div-mul x 2 (2 ^ k)),
          div-add-mod (x / 2) (2 ^ k),
          div-add-mod x (2 * 2 ^ k),
        ))

pub bit_or-lt : (w a b : ℕ) → a < 2 ^ w → b < 2 ^ w → bit_or a b < 2 ^ w
bit_or-lt zero a b ha hb =
    rw (let e : a ≡ 0 = omega arith in e, let e : b ≡ 0 = omega arith in e) (omega arith)
bit_or-lt (suc w) a b ha hb =
    let e : 2 ^ suc w ≡ 2 * 2 ^ w = omega (arith, pow-suc 2 w) in
    omega (arith, bit_or_step a b, bit_or-lt w (a / 2) (b / 2) (omega arith) (omega arith))

zero-bit_and : (b : ℕ) → bit_and 0 b ≡ 0
zero-bit_and b = bit_ext _ _ λ n. omega (arith, bit-and n 0 b, bit-zero n)

and-le_below : (f a b : ℕ) → a ≤ f → bit_and a b ≤ a
and-le_below f zero b h = omega (arith, zero-bit_and b)
and-le_below zero (suc a) b h = absurd (omega arith)
and-le_below (suc f) (suc a) b h =
    omega (arith, bit_and_step (suc a) b, and-le_below f (suc a / 2) (b / 2) (omega arith))

pub bit_and-le_left : (a b : ℕ) → bit_and a b ≤ a
bit_and-le_left a b = and-le_below a a b (omega arith)
