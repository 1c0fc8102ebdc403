-- ===== src/Setup/Vcpu.antt =====
-- `kvm_vcpu_setup` and `kvm_dev_ioctl_create_vcpu` of src/2006-11-02/kvm-module/kvm_main.c, with
-- `kvm_free_vcpu`. What `__vcpu_load` writes of the host, and the FPU images, are left out.
use learn_kvm.Base.{ℕ, true, false, not, leb, if◌then◌else◌, Option, none, some}
use learn_kvm.State.{Machine}
use learn_kvm.Run.{Cmd, ◌>>=◌, ◌>>◌, pure, act}
use learn_kvm.Status.{Status, success, error, einval, eexist, enomem}
use learn_kvm.Vmcs.{◌▷◌, on_vcpu}
use learn_kvm.Mmu.Context.{kvm_mmu_init, kvm_mmu_destroy}
use learn_kvm.Cpu.Msr.{load_efer}
use learn_kvm.Cpu.Cr.{load_cr0, load_cr4}
use learn_kvm.Setup.Host.{Host}
use learn_kvm.Setup.Guest.{init_rmode_tss, reset_registers, setup_segments, setup_guest_state}
use learn_kvm.Setup.Controls.{setup_execution, setup_host_state, setup_msrs, setup_switches}
use learn_kvm.Vmx.Masks.{kvm_max_vcpus}

-- The control registers and the shadow context, from `__set_cr0(vcpu, 0x60000010)` on.
unfoldable pub enter_reset : Host → Cmd Status
enter_reset host = do
  load_cr0 0x60000010
  act (load_cr4 0)
  load_efer 0
  λ s. (let (status, s') = kvm_mmu_init host.mmu_page s in pure status s')

-- The VMCS up to the lists of registers.
unfoldable pub setup_vmcs : Host → Machine → Machine
setup_vmcs host s =
    s
    ▷ reset_registers host
    ▷ setup_segments
    ▷ setup_guest_state host
    ▷ setup_execution host
    ▷ setup_host_state host

-- The two arrays of registers.
unfoldable pub setup_lists : Host → Option ℕ → Option ℕ → Cmd Status
setup_lists host none own = pure (error enomem)
setup_lists host (some guest) none = pure (error enomem)
setup_lists host (some guest) (some own) = do
  act (λ s. setup_switches host guest own (setup_msrs host s))
  enter_reset host

-- With no room for the task state segment the result is 0.
unfoldable pub kvm_vcpu_setup : Host → Cmd Status
kvm_vcpu_setup host = do
  tss ← init_rmode_tss
  if tss
      then act (setup_vmcs host) >> setup_lists host host.guest_msrs host.host_msrs
      else pure success

unfoldable pub kvm_free_vmcs : Machine → Machine
kvm_free_vmcs s = if s.vcpu.vmcs then on_vcpu (λ v. record v { vmcs = false }) s else s

unfoldable pub kvm_free_vcpu : Machine → Machine
kvm_free_vcpu s = kvm_mmu_destroy (kvm_free_vmcs s)

unfoldable pub fail_vcpu : Status → Cmd Status
fail_vcpu success = pure success
fail_vcpu (error e) = do act kvm_free_vcpu; pure (error e)

unfoldable pub kvm_dev_ioctl_create_vcpu : Host → ℕ → Cmd Status
kvm_dev_ioctl_create_vcpu host n s =
    if leb kvm_max_vcpus n
    then pure (error einval) s
    else if s.vcpu.vmcs
    then pure (error eexist) s
    else if not host.vmcs_page
    then fail_vcpu (error einval) s
    else (do
      act (on_vcpu λ v. record v { vmcs = true; launched = 0 })
      r ← kvm_vcpu_setup host
      fail_vcpu r)
        s
