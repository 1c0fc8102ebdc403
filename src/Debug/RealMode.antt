-- ===== src/Debug/RealMode.antt =====
-- The segments of a guest in emulated real mode, under the checks of src/2006-11-02/kvm-module/debug.c.
use learn_kvm.Base.{ℕ, ◌*◌, ◌/◌, ◌%◌, ◌^◌, ◌≡◌, refl, Bool, true, ◌&&◌, ltb, ◌==◌, arith}
use learn_kvm.State.{Machine}
use learn_kvm.Vmcs.{vmcs_readl, vmcs_read16, vmcs_read32, vmcs_writel, vmcs_write16, vmcs_write32}
use learn_kvm.Cpu.Segment.{fix_rmode_seg}
use learn_kvm.Cpu.Rmode.{enter_rmode, update_exception_bitmap}
use learn_kvm.Debug.Segment.{vir8086_seg_base_test, vir8086_seg_limit_test, vir8086_seg_ar_test}
use learn_kvm.Debug.Guest.{vir8086_test}
use learn_kvm.Vmx.Field

-- A base that a real-mode selector can have: a multiple of 16 below 1 MiB.
abbrev pub is_paragraph : ℕ → Bool
is_paragraph base = base % 16 == 0 && ltb base (2 ^ 20)

selected : (b : ℕ) → (b == b / 2 ^ 4 % 2 ^ 16 % 2 ^ 16 * 2 ^ 4) ≡ is_paragraph b
selected b = ground arith

module _ (s : Machine) where
  rmode-base :
      vir8086_test vir8086_seg_base_test (enter_rmode s)
      ≡ vir8086_test (λ seg t. is_paragraph (vmcs_readl seg.base t)) s
  unfolding vir8086_test vir8086_seg_base_test enter_rmode update_exception_bitmap fix_rmode_seg
      vmcs_readl vmcs_read16 vmcs_read32 vmcs_writel vmcs_write16 vmcs_write32
  rmode-base =
      rw
        (
          selected (s.vmcs Field.guest_cs_base),
          selected (s.vmcs Field.guest_ss_base),
          selected (s.vmcs Field.guest_ds_base),
          selected (s.vmcs Field.guest_es_base),
          selected (s.vmcs Field.guest_fs_base),
          selected (s.vmcs Field.guest_gs_base),
        )
        refl

  rmode-limit :
      vir8086_test vir8086_seg_limit_test (enter_rmode s)
      ≡ (vmcs_readl Field.guest_cs_limit s == 0xffff)
  unfolding vir8086_test vir8086_seg_limit_test enter_rmode update_exception_bitmap fix_rmode_seg
      vmcs_readl vmcs_read16 vmcs_read32 vmcs_writel vmcs_write16 vmcs_write32
  rmode-limit = ground arith

  rmode-access : vir8086_test vir8086_seg_ar_test (enter_rmode s) ≡ true
  unfolding vir8086_test vir8086_seg_ar_test enter_rmode update_exception_bitmap fix_rmode_seg
      vmcs_readl vmcs_read16 vmcs_read32 vmcs_writel vmcs_write16 vmcs_write32
  rmode-access = refl

-- After enter_rmode the guest passes the checks of a virtual-8086 guest's segments exactly if the base of
-- each segment is a multiple of 16 below 1 MiB and the limit of CS was 0xffff before: enter_rmode sets every
-- access right, and every limit but that of CS.
pub enter_rmode-vir8086_test :
    (s : Machine)
    → (vir8086_test vir8086_seg_base_test (enter_rmode s)
        && vir8086_test vir8086_seg_limit_test (enter_rmode s)
        && vir8086_test vir8086_seg_ar_test (enter_rmode s))
      ≡ (vir8086_test (λ seg t. is_paragraph (vmcs_readl seg.base t)) s
          && vmcs_readl Field.guest_cs_limit s == 0xffff)
enter_rmode-vir8086_test s = rw (rmode-base s, rmode-limit s, rmode-access s) (ground arith)
