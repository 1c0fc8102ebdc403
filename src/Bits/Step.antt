-- ===== src/Bits/Step.antt =====
-- `&` and `|` one binary digit at a time. The native operations recurse with fuel; a unit of fuel more
-- changes nothing once there is enough.
use native.Mathlib.Nat.{le_refl, zero-add, suc-add}
use Prim.Native.Nat.{bitwise, bit_or-bitwise, bit_and-bitwise, digits}
use learn_kvm.Base.{
  ◌≡◌, refl, ◌∙◌, arith, ℕ, zero, suc, ◌+◌, ◌-◌, ◌*◌, ◌/◌, ◌%◌, ◌≤◌, max, min, bit_or, bit_and,
}

spare_unit :
    (op : ℕ → ℕ → ℕ) (tail : ℕ → ℕ) (fuel x y : ℕ)
    → x ≤ fuel
    → digits tail op (suc fuel) x y ≡ digits tail op fuel x y
spare_unit op tail zero zero y h = refl
spare_unit op tail (suc fuel) zero y h = refl
spare_unit op tail zero (suc x) y h = absurd (omega arith)
spare_unit op tail (suc fuel) (suc x) y h =
    rw (spare_unit op tail fuel (suc x / 2) (y / 2) (omega arith)) refl

spare_fuel :
    (op : ℕ → ℕ → ℕ) (tail : ℕ → ℕ) (more fuel x y : ℕ)
    → x ≤ fuel
    → digits tail op (more + fuel) x y ≡ digits tail op fuel x y
spare_fuel op tail zero fuel x y h = rw (zero-add fuel) refl
spare_fuel op tail (suc more) fuel x y h =
    rw (suc-add more fuel)
      (spare_unit op tail (more + fuel) x y (omega arith) ∙ spare_fuel op tail more fuel x y h)

by_digit :
    (op : ℕ → ℕ → ℕ) (tail : ℕ → ℕ) (x y : ℕ)
    → bitwise tail op (suc x) y ≡ bitwise tail op (suc x / 2) (y / 2) * 2 + op (suc x % 2) (y % 2)
by_digit op tail x y =
    let half : ℕ = suc x / 2 in
    let e : x - half + half ≡ x = omega arith in
    omega (arith, let t = spare_fuel op tail (x - half) half half (y / 2) (le_refl _) in rw e at t)

pub bit_and_step : (x y : ℕ) → bit_and x y ≡ bit_and (x / 2) (y / 2) * 2 + min (x % 2) (y % 2)
bit_and_step (suc x) y = simp bit_and-bitwise (by_digit min (λ _. 0) x y)
bit_and_step zero y = simp bit_and-bitwise (omega arith)

pub bit_or_step : (x y : ℕ) → bit_or x y ≡ bit_or (x / 2) (y / 2) * 2 + max (x % 2) (y % 2)
bit_or_step (suc x) y = simp bit_or-bitwise (by_digit max (λ v. v) x y)
bit_or_step zero y = simp bit_or-bitwise (omega arith)
