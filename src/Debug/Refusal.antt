-- ===== src/Debug/Refusal.antt =====
-- What the checks of src/2006-11-02/kvm-module/debug.c never do.
use learn_kvm.Base.{
  ℕ, zero, suc, ◌*◌, ◌^◌, ◌≤◌, ◌≡◌, refl, Bool, false, List, [], ◌∷◌, inl, inr, Bool-cases, bit_and,
  arith,
}
use learn_kvm.Bits.{bit, bit_le, bit_and-pow}
use learn_kvm.State.{Machine}
use learn_kvm.Vmcs.{vmcs_read32}
use learn_kvm.Debug.Guest.{vm_entry_test_guest, is_long_with_db}
use learn_kvm.Debug.Host.{run_checks, host_checks, vm_entry_test_host, vm_entry_test}
use learn_kvm.Vmx.Field

run_checks-false : (checks : List Bool) → run_checks false checks ≡ false
unfolding run_checks
run_checks-false [] = refl
run_checks-false (check ∷ checks) = run_checks-false checks

-- Whatever the host and the guest are, vm_entry_test refuses the entry: the result of vm_entry_test_host
-- starts as 0, and every check can only keep it or clear it.
pub vm_entry_test-false :
    (rdmsrl : ℕ → ℕ) (cpuid_eax : ℕ) (s : Machine) → vm_entry_test rdmsrl cpuid_eax s ≡ false
unfolding vm_entry_test vm_entry_test_host
vm_entry_test-false rdmsrl cpuid_eax s = elim (Bool-cases (vm_entry_test_guest s)) [
  | inl e ↦ rw e (run_checks-false (host_checks rdmsrl cpuid_eax s))
  | inr e ↦ rw e refl
]

-- Two single bits at different places.
apart : (x y : ℕ) → x ≤ 1 → y ≤ 1 → bit_and (x * 2 ^ 9) (y * 2 ^ 13) ≡ 0
apart zero zero p q = refl
apart zero (suc zero) p q = refl
apart (suc zero) zero p q = refl
apart (suc zero) (suc zero) p q = refl
apart (suc (suc x)) y p q = absurd (omega arith)
apart zero (suc (suc y)) p q = absurd (omega arith)
apart (suc zero) (suc (suc y)) p q = absurd (omega arith)

-- vm_entry_test_guest never finds a code segment with both L and D set in long mode: it compares bit 9 of the
-- entry controls with bit 13 of the access rights.
is_long_with_db-false : (s : Machine) → is_long_with_db s ≡ false
unfolding is_long_with_db
is_long_with_db-false s =
    let controls : ℕ = vmcs_read32 Field.vm_entry_controls s in
    let ar : ℕ = vmcs_read32 Field.guest_cs_ar_bytes s in
    rw
      (
        bit_and-pow 9 controls,
        bit_and-pow 13 ar,
        apart (bit 9 controls) (bit 13 ar) (bit_le 9 controls) (bit_le 13 ar),
      )
      refl
