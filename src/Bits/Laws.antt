-- ===== src/Bits/Laws.antt =====
-- The algebra of `&` and `|`.
use learn_kvm.Base.{ℕ, ◌^◌, ◌<◌, bit_and, bit_or, ◌≡◌, arith, not64, ap}
use learn_kvm.Bits.Digit.{bit, bit_le, bit-zero, bit-and, bit-or, bit_ext}
use learn_kvm.Bits.Mask.{bit-not64, bit_ext64, bit_or-lt, bit_and-le_left}

pub bit_and_comm : (a b : ℕ) → bit_and a b ≡ bit_and b a
bit_and_comm a b = bit_ext _ _ λ n. omega (arith, bit-and n a b, bit-and n b a)

pub bit_and_assoc : (a b c : ℕ) → bit_and (bit_and a b) c ≡ bit_and a (bit_and b c)
bit_and_assoc a b c = bit_ext _ _ λ n.
    omega
      (arith, bit-and n (bit_and a b) c, bit-and n a b, bit-and n a (bit_and b c), bit-and n b c)

pub bit_and-or_right : (a b m : ℕ) → bit_and (bit_or a b) m ≡ bit_or (bit_and a m) (bit_and b m)
bit_and-or_right a b m = bit_ext _ _ λ n. omega (
  arith,
  bit-and n (bit_or a b) m,
  bit-or n a b,
  bit-or n (bit_and a m) (bit_and b m),
  bit-and n a m,
  bit-and n b m,
)

pub bit_and_self : (a : ℕ) → bit_and a a ≡ a
bit_and_self a = bit_ext _ _ λ n. omega (arith, bit-and n a a)

pub bit_or_self : (a : ℕ) → bit_or a a ≡ a
bit_or_self a = bit_ext _ _ λ n. omega (arith, bit-or n a a)

pub bit_or-zero : (a : ℕ) → bit_or a 0 ≡ a
bit_or-zero a = bit_ext _ _ λ n. omega (arith, bit-or n a 0, bit-zero n)

pub zero-bit_or : (a : ℕ) → bit_or 0 a ≡ a
zero-bit_or a = bit_ext _ _ λ n. omega (arith, bit-or n 0 a, bit-zero n)

pub bit_and-lt : (w a b : ℕ) → a < 2 ^ w → bit_and a b < 2 ^ w
bit_and-lt w a b h = omega (arith, bit_and-le_left a b)

pub not64-lt : (m : ℕ) → not64 m < 2 ^ 64
not64-lt m = omega arith

-- The bits of `m` are taken from `c` and the others from a value that has `c`'s there.
pub merge_mask :
    (c k m : ℕ)
    → c < 2 ^ 64
    → k < 2 ^ 64
    → m < 2 ^ 64
    → bit_and k m ≡ k
    → bit_or (bit_and c m) (bit_and (bit_or c k) (not64 m)) ≡ c
merge_mask c k m hc hk hm inside =
    bit_ext64 _ _
      (bit_or-lt 64 _ _ (bit_and-lt 64 c m hc) (bit_and-lt 64 _ (not64 m) (bit_or-lt 64 c k hc hk)))
      hc
      λ n p. omega (
        arith,
        bit-or n (bit_and c m) (bit_and (bit_or c k) (not64 m)),
        bit-and n c m,
        bit-and n (bit_or c k) (not64 m),
        bit-or n c k,
        bit-not64 n m hm p,
        bit_le n c,
        bit_le n k,
        bit_le n m,
        bit-and n k m,
        ap (bit n) inside,
      )
