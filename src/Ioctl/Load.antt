-- ===== src/Ioctl/Load.antt =====
-- `vcpu_load` and the checks that open every ioctl on a virtual processor, and the registers that are
-- kept in the VMCS while the guest runs (src/2006-11-02/kvm-module/kvm_main.c).
use learn_kvm.Base.{ℕ, Bool, not, leb, if◌then◌else◌}
use learn_kvm.State.{Machine}
use learn_kvm.Status.{Status, error, einval, enoent}
use learn_kvm.Vmcs.{update, vmcs_readl, vmcs_writel, on_vcpu}
use learn_kvm.Vmx.Field
use learn_kvm.Vmx.Masks.{kvm_max_vcpus, vcpu_regs_rsp}

-- The vcpu is there if its VMCS is.
unfoldable pub vcpu_load : Machine → Bool
vcpu_load s = s.vcpu.vmcs

-- The index and the vcpu are checked before `run` goes on.
unfoldable pub checked : {A : Type 0} → ℕ → A → (Machine → Status × A) → Machine → Status × A
checked n a run s =
    if leb kvm_max_vcpus n
    then (error einval, a)
    else if not (vcpu_load s)
    then (error enoent, a)
    else run s

unfoldable pub vcpu_load_rsp_rip : Machine → Machine
vcpu_load_rsp_rip s =
    on_vcpu
      (λ v. record v {
        regs = update v.regs vcpu_regs_rsp (vmcs_readl Field.guest_rsp s);
        rip = vmcs_readl Field.guest_rip s;
      })
      s

unfoldable pub vcpu_put_rsp_rip : Machine → Machine
vcpu_put_rsp_rip s =
    vmcs_writel Field.guest_rip s.vcpu.rip
      (vmcs_writel Field.guest_rsp (s.vcpu.regs vcpu_regs_rsp) s)
