-- ===== src/Setup/Host.antt =====
-- What the functions of src/2006-11-02/kvm-module/kvm_main.c ask of the host while a virtual processor is
-- set up: its registers, and the answers of the kernel's allocators.
use learn_kvm.Base.{ℕ, Bool, Option, bit_and, bit_or}
use learn_kvm.State.{Machine, MsrEntry}
use learn_kvm.Vmcs.{vmcs_write32}

-- `ctls` gives the low and the high word of a control register of VMX, `rdmsr` is `rdmsr_safe`,
-- `fresh` what an array of registers holds before it is written, and `guest_msrs` and `host_msrs` the
-- addresses from `kmalloc`.
pub record Host : Type 0 where
  pub rdx_init_val : ℕ
  pub tsc : ℕ
  pub ctls : ℕ → ℕ × ℕ
  pub rdmsr : ℕ → Option ℕ
  pub cr0 : ℕ
  pub cr3 : ℕ
  pub cr4 : ℕ
  pub kernel_cs : ℕ
  pub kernel_ds : ℕ
  pub fs : ℕ
  pub gs : ℕ
  pub fs_base : ℕ
  pub gs_base : ℕ
  pub tss_selector : ℕ
  pub idt_base : ℕ
  pub vmx_return : ℕ
  pub sysenter_cs : ℕ
  pub sysenter_esp : ℕ
  pub sysenter_eip : ℕ
  pub vmcs_page : Bool
  pub fresh : ℕ → MsrEntry
  pub guest_msrs : Option ℕ
  pub host_msrs : Option ℕ
  pub mmu_page : ℕ → Option ℕ

unfoldable pub vmcs_write32_fixedbits : Host → ℕ → ℕ → ℕ → Machine → Machine
vmcs_write32_fixedbits host msr vmcs_field val =
    let (msr_low, msr_high) = host.ctls msr in
    vmcs_write32 vmcs_field (bit_or (bit_and val msr_high) msr_low)
