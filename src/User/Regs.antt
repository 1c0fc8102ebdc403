-- ===== src/User/Regs.antt =====
-- The calls of src/2006-11-02/libkvm/kvmctl.c that pass a virtual processor's state to the driver.
use learn_kvm.Base.{ℕ}
use learn_kvm.Status.{Status}
use learn_kvm.Ioctl.Regs.{KvmRegs, kvm_dev_ioctl_get_regs, kvm_dev_ioctl_set_regs}
use learn_kvm.Ioctl.Sregs.{KvmSregs, kvm_dev_ioctl_get_sregs, kvm_dev_ioctl_set_sregs}
use learn_kvm.Ioctl.Debug.{KvmDebugGuest, kvm_dev_ioctl_debug_guest}
use learn_kvm.Irq.{kvm_dev_ioctl_interrupt}
use learn_kvm.User.{User, ioctl, give}

module _ {O : Type 0} (vcpu : ℕ) where
  -- Where the call fails, what the pointer leads to stays as it is but for the index.
  unfoldable pub kvm_get_regs : KvmRegs → User O (Status × KvmRegs)
  kvm_get_regs regs s = give (kvm_dev_ioctl_get_regs (record regs { vcpu = vcpu }) s) s

  unfoldable pub kvm_set_regs : KvmRegs → User O Status
  kvm_set_regs regs s =
      let (status, s') = kvm_dev_ioctl_set_regs (record regs { vcpu = vcpu }) s in give status s'

  unfoldable pub kvm_get_sregs : KvmSregs → User O (Status × KvmSregs)
  kvm_get_sregs sregs s = give (kvm_dev_ioctl_get_sregs (record sregs { vcpu = vcpu }) s) s

  unfoldable pub kvm_set_sregs : KvmSregs → User O Status
  kvm_set_sregs sregs = ioctl (kvm_dev_ioctl_set_sregs (record sregs { vcpu = vcpu }))

  unfoldable pub kvm_inject_irq : ℕ → User O Status
  kvm_inject_irq irq s =
      let (status, s') = kvm_dev_ioctl_interrupt (record { vcpu = vcpu; irq = irq }) s in
      give status s'

  unfoldable pub kvm_guest_debug : KvmDebugGuest → User O Status
  kvm_guest_debug dbg s =
      let (status, s') = kvm_dev_ioctl_debug_guest (record dbg { vcpu = vcpu }) s in give status s'
