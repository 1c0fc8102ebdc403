-- ===== src/Vmcs/Laws.antt =====
-- Single bits of the guest's control registers, and reading back what was written.
use native.Mathlib.Nat.{one-le-pow}
use learn_kvm.Base.{
  ℕ, ◌*◌, ◌^◌, zero, suc, !=_of_ne, ◌≤◌, bit_and, bit_or, not64, true, ◌≡◌, refl, ◌==◌, ◌!=◌, arith,
  sym, ◌∙◌, ap,
}
use learn_kvm.Bits.{bit, bit_le, bit-and, bit-or, bit_and-pow}
use learn_kvm.State.{Machine}
use learn_kvm.Vmcs.{has, guest_cr0}
use learn_kvm.Vmx.Field
use learn_kvm.Vmx.Masks.{kvm_guest_cr0_mask, cr0_pe_mask, cr0_pg_mask}

-- A test of one bit.
pub has-bit : (k x : ℕ) → has x (2 ^ k) ≡ (bit k x == 1)
has-bit k x =
    by_value (bit k x) (bit_le k x) (2 ^ k) (one-le-pow k 2 (omega arith)) (bit_and-pow k x)
  where
    by_value : (b : ℕ) → b ≤ 1 → (p : ℕ) → 1 ≤ p → {r : ℕ} → r ≡ b * p → (r != 0) ≡ (b == 1)
    by_value zero h p pos {r} e = let e' : r ≡ 0 = omega arith in rw e' refl
    by_value (suc zero) h p pos {r} e = !=_of_ne r 0 (omega arith)
    by_value (suc (suc b)) h p pos e = absurd (omega arith)

module _ (k : ℕ) (s : Machine) where
  -- A bit that the guest owns comes from the read shadow.
  pub guest_cr0-bit :
      bit k kvm_guest_cr0_mask ≡ 1
      → bit k (not64 kvm_guest_cr0_mask) ≡ 0
      → bit k (guest_cr0 s) ≡ bit k (s.vmcs Field.cr0_read_shadow)
  unfolding guest_cr0
  guest_cr0-bit own other =
      let shadow = s.vmcs Field.cr0_read_shadow in
      let real = s.vmcs Field.guest_cr0 in
      let m : ℕ = kvm_guest_cr0_mask in
      omega (
        arith,
        bit-or k (bit_and shadow m) (bit_and real (not64 m)),
        bit-and k shadow m,
        bit-and k real (not64 m),
        bit_le k shadow,
        own,
        other,
      )

pub guest_cr0-pe :
    (s : Machine) → has (guest_cr0 s) cr0_pe_mask ≡ has (s.vmcs Field.cr0_read_shadow) cr0_pe_mask
unfolding bit
guest_cr0-pe s =
    has-bit 0 (guest_cr0 s)
    ∙ ap (λ (b : ℕ). b == 1) (guest_cr0-bit 0 s refl refl)
    ∙ sym (has-bit 0 (s.vmcs Field.cr0_read_shadow))

pub guest_cr0-pg :
    (s : Machine) → has (guest_cr0 s) cr0_pg_mask ≡ has (s.vmcs Field.cr0_read_shadow) cr0_pg_mask
unfolding bit
guest_cr0-pg s =
    has-bit 31 (guest_cr0 s)
    ∙ ap (λ (b : ℕ). b == 1) (guest_cr0-bit 31 s refl refl)
    ∙ sym (has-bit 31 (s.vmcs Field.cr0_read_shadow))

-- A value with its PE bit set.
pub has-or_pe : (x : ℕ) → has (bit_or x cr0_pe_mask) cr0_pe_mask ≡ true
unfolding bit
has-or_pe x =
    let e : bit 0 (bit_or x 1) ≡ 1 = omega (arith, bit-or 0 x 1) in
    has-bit 0 (bit_or x 1) ∙ ap (λ (b : ℕ). b == 1) e
