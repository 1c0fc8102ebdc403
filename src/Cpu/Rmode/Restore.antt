-- ===== src/Cpu/Rmode/Restore.antt =====
-- Into real mode and back: what `enter_pmode` restores of what `enter_rmode` saved.
use learn_kvm.Base.{
  ℕ, zero, suc, false, ◌*◌, ◌^◌, ◌≤◌, ◌<◌, ◌≡◌, refl, ◌∙◌, ap, sym, arith, bit_and, bit_or, not64,
  shr, u8,
}
use learn_kvm.Bits.{
  bit, bit_le, bit-or, bit_and-pow, bit_and_comm, bit_and-or_right, bit_or-zero, merge_mask,
  bit_ext,
}
use learn_kvm.State.{Machine}
use learn_kvm.Vmcs.{vmcs_readl, vmcs_read32, vmcs_read16, vmcs_writel, vmcs_write32, vmcs_write16}
use learn_kvm.Cpu.Segment.{fix_pmode_dataseg, fix_rmode_seg}
use learn_kvm.Cpu.Rmode.{enter_pmode, enter_rmode, update_exception_bitmap, pmode_flags}
use learn_kvm.Vmx.Field
use learn_kvm.Vmx.Masks.{iopl_mask, iopl_shift, x86_eflags_vm}

-- The IOPL survives its two bits being kept in a byte.
kept_iopl :
    (flags : ℕ)
    → u8 (shr (bit_and flags iopl_mask) iopl_shift) * 2 ^ iopl_shift ≡ bit_and flags iopl_mask
kept_iopl flags =
    by_bits (bit 12 flags) (bit 13 flags) (bit_le 12 flags) (bit_le 13 flags) (
      bit_and-or_left flags (2 ^ 12) (2 ^ 13)
      ∙ rw (bit_and-pow 12 flags, bit_and-pow 13 flags) refl)
  where
    bit_and-or_left : (x a b : ℕ) → bit_and x (bit_or a b) ≡ bit_or (bit_and x a) (bit_and x b)
    bit_and-or_left x a b =
        bit_and_comm x (bit_or a b)
        ∙ bit_and-or_right a b x
        ∙ rw (bit_and_comm a x, bit_and_comm b x) refl

    by_bits :
        (b c : ℕ)
        → b ≤ 1
        → c ≤ 1
        → {r : ℕ} → r ≡ bit_or (b * 2 ^ 12) (c * 2 ^ 13)
        → u8 (shr r iopl_shift) * 2 ^ iopl_shift ≡ r
    by_bits zero zero p q e = rw e refl
    by_bits zero (suc zero) p q e = rw e refl
    by_bits (suc zero) zero p q e = rw e refl
    by_bits (suc zero) (suc zero) p q e = rw e refl
    by_bits (suc (suc b)) c p q e = absurd (omega arith)
    by_bits b (suc (suc c)) p q e = absurd (omega arith)

bit_or_comm : (a b : ℕ) → bit_or a b ≡ bit_or b a
bit_or_comm a b = bit_ext _ _ λ n. omega (arith, bit-or n a b, bit-or n b a)

-- Flags without virtual-8086 mode come back as they were.
flags-restored :
    (flags : ℕ)
    → flags < 2 ^ 64
    → bit_and flags x86_eflags_vm ≡ 0
    → pmode_flags
        (u8 (shr (bit_and flags iopl_mask) iopl_shift))
        (bit_or flags (bit_or iopl_mask x86_eflags_vm))
      ≡ flags
unfolding pmode_flags
flags-restored flags small vm =
    let m : ℕ = bit_or iopl_mask x86_eflags_vm in
    let both : bit_and flags m ≡ bit_and flags iopl_mask =
      bit_and_comm flags m
      ∙ bit_and-or_right iopl_mask x86_eflags_vm flags
      ∙ rw (bit_and_comm iopl_mask flags, bit_and_comm x86_eflags_vm flags, vm) (bit_or-zero _) in
    rw (kept_iopl flags) (
      bit_or_comm _ _
      ∙ ap (λ (x : ℕ). bit_or x (bit_and (bit_or flags m) (not64 m))) (sym both)
      ∙ merge_mask flags m m small (omega arith) (omega arith) refl)

-- Entering real mode and leaving it restores the task register and RFLAGS, of a processor that was
-- not in virtual-8086 mode, and ends with real mode off.
pub enter_pmode-enter_rmode :
    (s : Machine)
    → s.vmcs Field.guest_rflags < 2 ^ 64
    → bit_and (s.vmcs Field.guest_rflags) x86_eflags_vm ≡ 0
    → let t = enter_pmode (enter_rmode s) in
      (t.vmcs Field.guest_tr_base ≡ s.vmcs Field.guest_tr_base)
      × (vmcs_read32 Field.guest_tr_limit t ≡ vmcs_read32 Field.guest_tr_limit s)
      × (vmcs_read32 Field.guest_tr_ar_bytes t ≡ vmcs_read32 Field.guest_tr_ar_bytes s)
      × (t.vmcs Field.guest_rflags ≡ s.vmcs Field.guest_rflags)
      × (t.vcpu.rmode.active ≡ false)
unfolding enter_pmode enter_rmode update_exception_bitmap fix_pmode_dataseg fix_rmode_seg
    vmcs_writel vmcs_write32 vmcs_write16 vmcs_readl vmcs_read32 vmcs_read16
enter_pmode-enter_rmode s small vm =
    (refl, omega arith, omega arith, flags-restored (s.vmcs Field.guest_rflags) small vm, refl)
