-- ===== src/Vmx/Masks/Driver.antt =====
-- The bit masks and numbers of src/2006-11-02/kvm-module/kvm.h, vmx.h and kvm_main.c.
use learn_kvm.Base.{ℕ, ◌+◌, ◌-◌, ◌/◌, ◌^◌, not64, bit_or}

abbrev pub cr0_pe_mask : ℕ
cr0_pe_mask = 2 ^ 0

abbrev pub cr0_ts_mask : ℕ
cr0_ts_mask = 2 ^ 3

abbrev pub cr0_ne_mask : ℕ
cr0_ne_mask = 2 ^ 5

abbrev pub cr0_wp_mask : ℕ
cr0_wp_mask = 2 ^ 16

abbrev pub cr0_nw_mask : ℕ
cr0_nw_mask = 2 ^ 29

abbrev pub cr0_cd_mask : ℕ
cr0_cd_mask = 2 ^ 30

abbrev pub cr0_pg_mask : ℕ
cr0_pg_mask = 2 ^ 31

abbrev pub cr3_wpt_mask : ℕ
cr3_wpt_mask = 2 ^ 3

abbrev pub cr3_pcd_mask : ℕ
cr3_pcd_mask = 2 ^ 4

abbrev pub cr3_reseved_bits : ℕ
cr3_reseved_bits = 0x07

abbrev pub cr3_l_mode_reseved_bits : ℕ
cr3_l_mode_reseved_bits = bit_or (not64 (2 ^ 40 - 1)) 0x0fe7

abbrev pub cr3_flags_mask : ℕ
cr3_flags_mask = 2 ^ 5 - 1

abbrev pub cr4_vme_mask : ℕ
cr4_vme_mask = 2 ^ 0

abbrev pub cr4_pse_mask : ℕ
cr4_pse_mask = 2 ^ 4

abbrev pub cr4_pae_mask : ℕ
cr4_pae_mask = 2 ^ 5

abbrev pub cr4_pge_mask : ℕ
cr4_pge_mask = 2 ^ 7

abbrev pub cr4_vmxe_mask : ℕ
cr4_vmxe_mask = 2 ^ 13

abbrev pub kvm_guest_cr0_mask : ℕ
kvm_guest_cr0_mask = bit_or (bit_or (bit_or cr0_pg_mask cr0_pe_mask) cr0_wp_mask) cr0_ne_mask

abbrev pub kvm_vm_cr0_always_on : ℕ
kvm_vm_cr0_always_on = kvm_guest_cr0_mask

abbrev pub kvm_guest_cr4_mask : ℕ
kvm_guest_cr4_mask =
    bit_or (bit_or (bit_or (bit_or cr4_pse_mask cr4_pae_mask) cr4_pge_mask) cr4_vmxe_mask)
      cr4_vme_mask

abbrev pub kvm_pmode_vm_cr4_always_on : ℕ
kvm_pmode_vm_cr4_always_on = bit_or cr4_vmxe_mask cr4_pae_mask

abbrev pub kvm_rmode_vm_cr4_always_on : ℕ
kvm_rmode_vm_cr4_always_on = bit_or (bit_or cr4_vmxe_mask cr4_pae_mask) cr4_vme_mask

abbrev pub invalid_page : ℕ
invalid_page = 2 ^ 64 - 1

abbrev pub unmapped_gva : ℕ
unmapped_gva = 2 ^ 64 - 1

abbrev pub kvm_max_vcpus : ℕ
kvm_max_vcpus = 1

abbrev pub kvm_memory_slots : ℕ
kvm_memory_slots = 4

abbrev pub kvm_num_mmu_pages : ℕ
kvm_num_mmu_pages = 256

abbrev pub df_vector : ℕ
df_vector = 8

abbrev pub gp_vector : ℕ
gp_vector = 13

abbrev pub pf_vector : ℕ
pf_vector = 14

abbrev pub selector_rpl_mask : ℕ
selector_rpl_mask = 0x03

abbrev pub iopl_shift : ℕ
iopl_shift = 12

abbrev pub vcpu_regs_rax : ℕ
vcpu_regs_rax = 0

abbrev pub vcpu_regs_rcx : ℕ
vcpu_regs_rcx = 1

abbrev pub vcpu_regs_rdx : ℕ
vcpu_regs_rdx = 2

abbrev pub vcpu_regs_rbx : ℕ
vcpu_regs_rbx = 3

abbrev pub vcpu_regs_rsp : ℕ
vcpu_regs_rsp = 4

abbrev pub vcpu_regs_rbp : ℕ
vcpu_regs_rbp = 5

abbrev pub vcpu_regs_rsi : ℕ
vcpu_regs_rsi = 6

abbrev pub vcpu_regs_rdi : ℕ
vcpu_regs_rdi = 7

abbrev pub hpa_err_mask : ℕ
hpa_err_mask = 2 ^ 63

abbrev pub cpu_based_virtual_intr_pending : ℕ
cpu_based_virtual_intr_pending = 0x00000004

abbrev pub intr_info_vector_mask : ℕ
intr_info_vector_mask = 0xff

abbrev pub intr_info_intr_type_mask : ℕ
intr_info_intr_type_mask = 0x700

abbrev pub intr_info_deliever_code_mask : ℕ
intr_info_deliever_code_mask = 0x800

abbrev pub intr_info_valid_mask : ℕ
intr_info_valid_mask = 0x80000000

abbrev pub vectoring_info_valid_mask : ℕ
vectoring_info_valid_mask = intr_info_valid_mask

abbrev pub vectoring_info_vector_mask : ℕ
vectoring_info_vector_mask = intr_info_vector_mask

abbrev pub intr_type_ext_intr : ℕ
intr_type_ext_intr = 0

abbrev pub intr_type_exception : ℕ
intr_type_exception = 0x300

abbrev pub lmsw_source_data_shift : ℕ
lmsw_source_data_shift = 16

abbrev pub segment_ar_l_mask : ℕ
segment_ar_l_mask = 2 ^ 13

abbrev pub vm_entry_controls_ia32e_mask : ℕ
vm_entry_controls_ia32e_mask = 2 ^ 9

abbrev pub ar_type_mask : ℕ
ar_type_mask = 0x0f

abbrev pub ar_type_busy_64_tss : ℕ
ar_type_busy_64_tss = 11

abbrev pub ar_unusable_mask : ℕ
ar_unusable_mask = 2 ^ 16

abbrev pub ar_l_mask : ℕ
ar_l_mask = 2 ^ 13

abbrev pub ar_db_mask : ℕ
ar_db_mask = 2 ^ 14

abbrev pub cr0_reseved_bits : ℕ
cr0_reseved_bits = 0xffffffff1ffaffc0

abbrev pub lmsw_guest_mask : ℕ
lmsw_guest_mask = 0x0e

abbrev pub cr4_reseved_bits : ℕ
cr4_reseved_bits = not64 (2 ^ 11 - 1)

abbrev pub cr8_reseved_bits : ℕ
cr8_reseved_bits = not64 0x0f

abbrev pub efer_reserved_bits : ℕ
efer_reserved_bits = 0xfffffffffffff2fe

abbrev pub tss_base_size : ℕ
tss_base_size = 0x68

abbrev pub tss_redirection_size : ℕ
tss_redirection_size = 256 / 8

abbrev pub tss_iopb_size : ℕ
tss_iopb_size = 65536 / 8

abbrev pub rmode_tss_size : ℕ
rmode_tss_size = tss_base_size + tss_redirection_size + tss_iopb_size + 1
