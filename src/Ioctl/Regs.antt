-- ===== src/Ioctl/Regs.antt =====
-- `kvm_dev_ioctl_get_regs` and `kvm_dev_ioctl_set_regs` of src/2006-11-02/kvm-module/kvm_main.c.
use learn_kvm.Base.{ℕ, ◌!=◌, ◌&&◌, bit_and, bit_or, not64, if◌then◌else◌}
use learn_kvm.State.{Machine}
use learn_kvm.Status.{Status, success}
use learn_kvm.Vmcs.{◌▷◌, update, vmcs_readl, vmcs_writel, on_vcpu}
use learn_kvm.Ioctl.Load.{checked}
use learn_kvm.Vmx.Field
use learn_kvm.Vmx.Masks.{
  vcpu_regs_rax, vcpu_regs_rbx, vcpu_regs_rcx, vcpu_regs_rdx, vcpu_regs_rsi, vcpu_regs_rdi,
  vcpu_regs_rbp, x86_eflags_tf, x86_eflags_rf,
}

-- struct kvm_regs.
pub record KvmRegs : Type 0 where
  pub vcpu : ℕ
  pub rax : ℕ
  pub rbx : ℕ
  pub rcx : ℕ
  pub rdx : ℕ
  pub rsi : ℕ
  pub rdi : ℕ
  pub rsp : ℕ
  pub rbp : ℕ
  pub r8 : ℕ
  pub r9 : ℕ
  pub r10 : ℕ
  pub r11 : ℕ
  pub r12 : ℕ
  pub r13 : ℕ
  pub r14 : ℕ
  pub r15 : ℕ
  pub rip : ℕ
  pub rflags : ℕ

-- RFLAGS without the flags that single-stepping the guest has set.
unfoldable pub reported_rflags : Machine → ℕ
reported_rflags s =
    let rflags = vmcs_readl Field.guest_rflags s in
    if s.vcpu.guest_debug.enabled != 0 && s.vcpu.guest_debug.singlestep != 0
    then bit_and rflags (not64 (bit_or x86_eflags_tf x86_eflags_rf))
    else rflags

-- The registers as they are stored to `*regs`.
unfoldable pub read_regs : ℕ → Machine → KvmRegs
read_regs n s = record {
  vcpu = n;
  rax = s.vcpu.regs vcpu_regs_rax;
  rbx = s.vcpu.regs vcpu_regs_rbx;
  rcx = s.vcpu.regs vcpu_regs_rcx;
  rdx = s.vcpu.regs vcpu_regs_rdx;
  rsi = s.vcpu.regs vcpu_regs_rsi;
  rdi = s.vcpu.regs vcpu_regs_rdi;
  rsp = vmcs_readl Field.guest_rsp s;
  rbp = s.vcpu.regs vcpu_regs_rbp;
  r8 = s.vcpu.regs 8;
  r9 = s.vcpu.regs 9;
  r10 = s.vcpu.regs 10;
  r11 = s.vcpu.regs 11;
  r12 = s.vcpu.regs 12;
  r13 = s.vcpu.regs 13;
  r14 = s.vcpu.regs 14;
  r15 = s.vcpu.regs 15;
  rip = vmcs_readl Field.guest_rip s;
  rflags = reported_rflags s;
}

unfoldable pub kvm_dev_ioctl_get_regs : KvmRegs → Machine → Status × KvmRegs
kvm_dev_ioctl_get_regs regs = checked regs.vcpu regs λ s. (success, read_regs regs.vcpu s)

-- `vcpu->regs[i] = v`.
abbrev pub set_reg : ℕ → ℕ → Machine → Machine
set_reg i v = on_vcpu λ c. record c { regs = update c.regs i v }

unfoldable pub write_regs : KvmRegs → Machine → Machine
write_regs regs s =
    s
    ▷ set_reg vcpu_regs_rax regs.rax
    ▷ set_reg vcpu_regs_rbx regs.rbx
    ▷ set_reg vcpu_regs_rcx regs.rcx
    ▷ set_reg vcpu_regs_rdx regs.rdx
    ▷ set_reg vcpu_regs_rsi regs.rsi
    ▷ set_reg vcpu_regs_rdi regs.rdi
    ▷ vmcs_writel Field.guest_rsp regs.rsp
    ▷ set_reg vcpu_regs_rbp regs.rbp
    ▷ set_reg 8 regs.r8
    ▷ set_reg 9 regs.r9
    ▷ set_reg 10 regs.r10
    ▷ set_reg 11 regs.r11
    ▷ set_reg 12 regs.r12
    ▷ set_reg 13 regs.r13
    ▷ set_reg 14 regs.r14
    ▷ set_reg 15 regs.r15
    ▷ vmcs_writel Field.guest_rip regs.rip
    ▷ vmcs_writel Field.guest_rflags regs.rflags

unfoldable pub kvm_dev_ioctl_set_regs : KvmRegs → Machine → Status × Machine
kvm_dev_ioctl_set_regs regs s = checked regs.vcpu s (λ s. (success, write_regs regs s)) s
