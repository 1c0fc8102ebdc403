-- ===== src/Bits/Digit.antt =====
-- The digits of a number, and of `&` and `|`.
use learn_kvm.Bits.Step.{bit_or_step, bit_and_step}
use learn_kvm.Base.{ℕ, zero, suc, ◌+◌, ◌/◌, ◌%◌, ◌≤◌, min, max, bit_and, bit_or, ◌≡◌, refl, arith}

unfoldable pub bit : ℕ → ℕ → ℕ
bit zero x = x % 2
bit (suc n) x = bit n (x / 2)

pub bit_le : (n x : ℕ) → bit n x ≤ 1
unfolding bit
bit_le zero x = omega arith
bit_le (suc n) x = bit_le n (x / 2)

pub bit-zero : (n : ℕ) → bit n 0 ≡ 0
unfolding bit
bit-zero zero = refl
bit-zero (suc n) = bit-zero n

half-and : (a b : ℕ) → bit_and a b / 2 ≡ bit_and (a / 2) (b / 2)
half-and a b = omega (arith, bit_and_step a b)

half-or : (a b : ℕ) → bit_or a b / 2 ≡ bit_or (a / 2) (b / 2)
half-or a b = omega (arith, bit_or_step a b)

pub bit-and : (n a b : ℕ) → bit n (bit_and a b) ≡ min (bit n a) (bit n b)
unfolding bit
bit-and zero a b = omega (arith, bit_and_step a b)
bit-and (suc n) a b = rw (half-and a b) (bit-and n (a / 2) (b / 2))

pub bit-or : (n a b : ℕ) → bit n (bit_or a b) ≡ max (bit n a) (bit n b)
unfolding bit
bit-or zero a b = omega (arith, bit_or_step a b)
bit-or (suc n) a b = rw (half-or a b) (bit-or n (a / 2) (b / 2))

-- Extensionality; the fuel `f` bounds both numbers.
bit_ext_below : (f a b : ℕ) → a ≤ f → b ≤ f → ((n : ℕ) → bit n a ≡ bit n b) → a ≡ b
unfolding bit
bit_ext_below zero a b ha hb h = omega arith
bit_ext_below (suc f) a b ha hb h =
    omega (arith, h 0, bit_ext_below f (a / 2) (b / 2) (omega arith) (omega arith) (λ n. h (suc n)))

pub bit_ext : (a b : ℕ) → ((n : ℕ) → bit n a ≡ bit n b) → a ≡ b
bit_ext a b = bit_ext_below (a + b) a b (omega arith) (omega arith)
