-- ===== src/Vmx/Masks/Arch.antt =====
-- Numbers that the driver takes from the kernel's headers and the processor manual.
use learn_kvm.Base.{ℕ, ◌-◌, ◌^◌, not64}

abbrev pub page_shift : ℕ
page_shift = 12

abbrev pub page_size : ℕ
page_size = 2 ^ 12

abbrev pub page_mask : ℕ
page_mask = not64 (2 ^ 12 - 1)

abbrev pub bits_per_long : ℕ
bits_per_long = 64

abbrev pub x86_eflags_tf : ℕ
x86_eflags_tf = 0x100

abbrev pub x86_eflags_if : ℕ
x86_eflags_if = 0x200

abbrev pub x86_eflags_df : ℕ
x86_eflags_df = 0x400

abbrev pub iopl_mask : ℕ
iopl_mask = 0x3000

abbrev pub x86_eflags_rf : ℕ
x86_eflags_rf = 0x10000

abbrev pub x86_eflags_vm : ℕ
x86_eflags_vm = 0x20000

abbrev pub x86_eflags_ac : ℕ
x86_eflags_ac = 0x40000

abbrev pub efer_lme : ℕ
efer_lme = 2 ^ 8

abbrev pub efer_lma : ℕ
efer_lma = 2 ^ 10

abbrev pub msr_efer : ℕ
msr_efer = 0xc0000080

abbrev pub msr_k6_star : ℕ
msr_k6_star = 0xc0000081

abbrev pub msr_lstar : ℕ
msr_lstar = 0xc0000082

abbrev pub msr_cstar : ℕ
msr_cstar = 0xc0000083

abbrev pub msr_syscall_mask : ℕ
msr_syscall_mask = 0xc0000084

abbrev pub msr_fs_base : ℕ
msr_fs_base = 0xc0000100

abbrev pub msr_gs_base : ℕ
msr_gs_base = 0xc0000101

abbrev pub msr_kernel_gs_base : ℕ
msr_kernel_gs_base = 0xc0000102

abbrev pub msr_ia32_sysenter_cs : ℕ
msr_ia32_sysenter_cs = 0x174

abbrev pub msr_ia32_sysenter_esp : ℕ
msr_ia32_sysenter_esp = 0x175

abbrev pub msr_ia32_sysenter_eip : ℕ
msr_ia32_sysenter_eip = 0x176

abbrev pub msr_ia32_apicbase : ℕ
msr_ia32_apicbase = 0x1b

abbrev pub msr_ia32_ucode_write : ℕ
msr_ia32_ucode_write = 0x79

abbrev pub msr_ia32_ucode_rev : ℕ
msr_ia32_ucode_rev = 0x8b

abbrev pub msr_ia32_mcg_cap : ℕ
msr_ia32_mcg_cap = 0x179

abbrev pub msr_ia32_mcg_status : ℕ
msr_ia32_mcg_status = 0x17a

abbrev pub msr_ia32_mc0_ctl : ℕ
msr_ia32_mc0_ctl = 0x400

abbrev pub msr_ia32_mc0_status : ℕ
msr_ia32_mc0_status = 0x401

abbrev pub msr_ia32_mc0_misc : ℕ
msr_ia32_mc0_misc = 0x403
