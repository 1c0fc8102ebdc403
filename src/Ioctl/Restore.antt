-- ===== src/Ioctl/Restore.antt =====
-- Registers that are set are the registers that are read: `kvm_dev_ioctl_set_regs` and
-- `kvm_dev_ioctl_get_regs` of src/2006-11-02/kvm-module/kvm_main.c.
use learn_kvm.Base.{◌<◌, ◌≡◌, refl, ◌∙◌, ap, true, false, leb, ◌!=◌, arith, inl, inr, Bool-cases}
use learn_kvm.State.{Machine}
use learn_kvm.Status.{success}
use learn_kvm.Vmcs.{vmcs_readl, vmcs_writel}
use learn_kvm.Ioctl.Load.{checked, vcpu_load}
use learn_kvm.Ioctl.Regs.{
  KvmRegs, reported_rflags, read_regs, kvm_dev_ioctl_get_regs, write_regs, kvm_dev_ioctl_set_regs,
}
use learn_kvm.Vmx.Masks.{kvm_max_vcpus}

module _ (regs : KvmRegs) (s : Machine) where
  -- Outside single-stepping nothing is hidden.
  read-write : s.vcpu.guest_debug.singlestep ≡ 0 → read_regs regs.vcpu (write_regs regs s) ≡ regs
  unfolding read_regs write_regs reported_rflags vmcs_readl vmcs_writel
  read-write off = elim (Bool-cases (s.vcpu.guest_debug.enabled != 0)) [
    | inl e ↦ rw (e, off) refl
    | inr e ↦ rw e refl
  ]

  -- For the vcpu that is there, not being single-stepped, `kvm_dev_ioctl_set_regs` succeeds, and
  -- `kvm_dev_ioctl_get_regs` then succeeds with the same registers.
  pub get_regs-set_regs :
      regs.vcpu < kvm_max_vcpus
      → s.vcpu.vmcs ≡ true
      → s.vcpu.guest_debug.singlestep ≡ 0
      → ((kvm_dev_ioctl_set_regs regs s).0 ≡ success)
        × (kvm_dev_ioctl_get_regs regs (kvm_dev_ioctl_set_regs regs s).1 ≡ (success, regs))
  unfolding kvm_dev_ioctl_set_regs kvm_dev_ioctl_get_regs checked vcpu_load write_regs vmcs_writel
      read_regs vmcs_readl reported_rflags
  get_regs-set_regs small there off =
      let fits : leb kvm_max_vcpus regs.vcpu ≡ false = ground arith in
      let set : kvm_dev_ioctl_set_regs regs s ≡ (success, write_regs regs s) =
        rw (fits, there, kvm_dev_ioctl_set_regs, checked) refl in
      (
        ap (λ r. r.0) set,
        ap (λ r. kvm_dev_ioctl_get_regs regs r.1) set
            ∙ rw (fits, there, kvm_dev_ioctl_get_regs, checked)
                (ap (λ r. (success, r)) (read-write off)),
      )
