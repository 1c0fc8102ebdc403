-- ===== src/Vmx/Masks/Control.antt =====
-- The bits of the execution controls, of vmx.h, and their registers, of kvm_main.c, in
-- src/2006-11-02/kvm-module.
use learn_kvm.Base.{ℕ}

abbrev pub cpu_based_use_tsc_offseting : ℕ
cpu_based_use_tsc_offseting = 0x00000008

abbrev pub cpu_based_hlt_exiting : ℕ
cpu_based_hlt_exiting = 0x00000080

abbrev pub cpu_based_invdpg_exiting : ℕ
cpu_based_invdpg_exiting = 0x00000200

abbrev pub cpu_based_cr8_load_exiting : ℕ
cpu_based_cr8_load_exiting = 0x00080000

abbrev pub cpu_based_cr8_store_exiting : ℕ
cpu_based_cr8_store_exiting = 0x00100000

abbrev pub cpu_based_mov_dr_exiting : ℕ
cpu_based_mov_dr_exiting = 0x00800000

abbrev pub cpu_based_uncond_io_exiting : ℕ
cpu_based_uncond_io_exiting = 0x01000000

abbrev pub pin_based_ext_intr_mask : ℕ
pin_based_ext_intr_mask = 0x1

abbrev pub pin_based_nmi_exiting : ℕ
pin_based_nmi_exiting = 0x8

abbrev pub msr_ia32_vmx_pinbased_ctls_msr : ℕ
msr_ia32_vmx_pinbased_ctls_msr = 0x481

abbrev pub msr_ia32_vmx_procbased_ctls_msr : ℕ
msr_ia32_vmx_procbased_ctls_msr = 0x482

abbrev pub msr_ia32_vmx_exit_ctls_msr : ℕ
msr_ia32_vmx_exit_ctls_msr = 0x483

abbrev pub msr_ia32_vmx_entry_ctls_msr : ℕ
msr_ia32_vmx_entry_ctls_msr = 0x484
