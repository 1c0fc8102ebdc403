-- ===== src/Vmx/Masks/Access.antt =====
-- The access rights of a segment, of src/2006-11-02/kvm-module/vmx.h, and the numbers of debug.c.
use learn_kvm.Base.{ℕ, ◌-◌, ◌^◌, bit_or, bit_and, not64, shr}

abbrev pub selector_ti_mask : ℕ
selector_ti_mask = 2 ^ 2

abbrev pub ar_type_accesses_mask : ℕ
ar_type_accesses_mask = 1

abbrev pub ar_type_readable_mask : ℕ
ar_type_readable_mask = 2 ^ 1

abbrev pub ar_type_code_mask : ℕ
ar_type_code_mask = 2 ^ 3

abbrev pub ar_type_busy_32_tss : ℕ
ar_type_busy_32_tss = 11

abbrev pub ar_type_busy_16_tss : ℕ
ar_type_busy_16_tss = 3

abbrev pub ar_type_ldt : ℕ
ar_type_ldt = 2

abbrev pub ar_s_mask : ℕ
ar_s_mask = 2 ^ 4

abbrev pub ar_p_mask : ℕ
ar_p_mask = 2 ^ 7

abbrev pub ar_g_mask : ℕ
ar_g_mask = 2 ^ 15

abbrev pub ar_dpl : ℕ → ℕ
ar_dpl ar = bit_and (shr ar 5) 3

abbrev pub ar_reservd_mask : ℕ
ar_reservd_mask = 0xfffe0f00

abbrev pub ia32_debugctl_reserved_bits : ℕ
ia32_debugctl_reserved_bits = 0xfffffffffffffe3c

abbrev pub rflags_vm : ℕ
rflags_vm = 2 ^ 17

abbrev pub rflags_rf : ℕ
rflags_rf = 2 ^ 9

abbrev pub rflags_reseved_clear_bits : ℕ
rflags_reseved_clear_bits = bit_or (bit_or (bit_or (not64 (2 ^ 22 - 1)) (2 ^ 15)) (2 ^ 5)) (2 ^ 3)

abbrev pub rflags_reseved_set_bits : ℕ
rflags_reseved_set_bits = 2 ^ 1

abbrev pub vm_exit_host_add_space_size : ℕ
vm_exit_host_add_space_size = 0x00000200

abbrev pub msr_ia32_vmx_cr0_fixed0 : ℕ
msr_ia32_vmx_cr0_fixed0 = 0x486

abbrev pub msr_ia32_vmx_cr0_fixed1 : ℕ
msr_ia32_vmx_cr0_fixed1 = 0x487

abbrev pub msr_ia32_vmx_cr4_fixed0 : ℕ
msr_ia32_vmx_cr4_fixed0 = 0x488

abbrev pub msr_ia32_vmx_cr4_fixed1 : ℕ
msr_ia32_vmx_cr4_fixed1 = 0x489
