-- ===== src/Vmx/Masks/Table.antt =====
-- The page table masks of src/2006-11-02/kvm-module/mmu.c and the numbers of include/linux/kvm.h.
use learn_kvm.Base.{ℕ, ◌-◌, ◌*◌, ◌^◌, not64, bit_and, bit_or}
use learn_kvm.Vmx.Masks.Arch.{page_mask}

abbrev pub pt64_ent_per_page : ℕ
pt64_ent_per_page = 512

abbrev pub pt_present_mask : ℕ
pt_present_mask = 2 ^ 0

abbrev pub pt_writable_mask : ℕ
pt_writable_mask = 2 ^ 1

abbrev pub pt_user_mask : ℕ
pt_user_mask = 2 ^ 2

abbrev pub pt_pwt_mask : ℕ
pt_pwt_mask = 2 ^ 3

abbrev pub pt_pcd_mask : ℕ
pt_pcd_mask = 2 ^ 4

abbrev pub pt_accessed_mask : ℕ
pt_accessed_mask = 2 ^ 5

abbrev pub pt_dirty_mask : ℕ
pt_dirty_mask = 2 ^ 6

abbrev pub pt_page_size_mask : ℕ
pt_page_size_mask = 2 ^ 7

abbrev pub pt_pat_mask : ℕ
pt_pat_mask = 2 ^ 7

abbrev pub pt_global_mask : ℕ
pt_global_mask = 2 ^ 8

abbrev pub pt64_nx_mask : ℕ
pt64_nx_mask = 2 ^ 63

abbrev pub pt_pat_shift : ℕ
pt_pat_shift = 7

abbrev pub pt_dir_pat_shift : ℕ
pt_dir_pat_shift = 12

abbrev pub pt_dir_pat_mask : ℕ
pt_dir_pat_mask = 2 ^ pt_dir_pat_shift

abbrev pub pt32_dir_pse36_shift : ℕ
pt32_dir_pse36_shift = 13

abbrev pub pt32_dir_pse36_mask : ℕ
pt32_dir_pse36_mask = (2 ^ 4 - 1) * 2 ^ pt32_dir_pse36_shift

abbrev pub pt32_pte_copy_mask : ℕ
pt32_pte_copy_mask =
    bit_or
      (bit_or
        (bit_or (bit_or (bit_or (bit_or pt_present_mask pt_pwt_mask) pt_pcd_mask) pt_accessed_mask)
          pt_dirty_mask)
        pt_pat_mask)
      pt_global_mask

abbrev pub pt32_non_pte_copy_mask : ℕ
pt32_non_pte_copy_mask =
    bit_or (bit_or (bit_or (bit_or pt_present_mask pt_pwt_mask) pt_pcd_mask) pt_accessed_mask)
      pt_dirty_mask

abbrev pub pt64_pte_copy_mask : ℕ
pt64_pte_copy_mask = bit_or pt64_nx_mask pt32_pte_copy_mask

abbrev pub pt64_non_pte_copy_mask : ℕ
pt64_non_pte_copy_mask = bit_or pt64_nx_mask pt32_non_pte_copy_mask

abbrev pub pt_shadow_ps_mark : ℕ
pt_shadow_ps_mark = 2 ^ 9

abbrev pub pt_shadow_io_mark : ℕ
pt_shadow_io_mark = 2 ^ 9

abbrev pub pt_shadow_writable_mask : ℕ
pt_shadow_writable_mask = 2 ^ 10

abbrev pub pt_shadow_user_mask : ℕ
pt_shadow_user_mask = 2 ^ 11

abbrev pub pt_shadow_bits_offset : ℕ
pt_shadow_bits_offset = 9

abbrev pub pt64_base_addr_mask : ℕ
pt64_base_addr_mask = bit_and (2 ^ 52 - 1) page_mask

abbrev pub pt64_dir_base_addr_mask : ℕ
pt64_dir_base_addr_mask = bit_and pt64_base_addr_mask (not64 (2 ^ 21 - 1))

abbrev pub pt32_base_addr_mask : ℕ
pt32_base_addr_mask = page_mask

abbrev pub pt32_dir_base_addr_mask : ℕ
pt32_dir_base_addr_mask = bit_and page_mask (not64 (2 ^ 22 - 1))

abbrev pub pferr_present_mask : ℕ
pferr_present_mask = 2 ^ 0

abbrev pub pferr_write_mask : ℕ
pferr_write_mask = 2 ^ 1

abbrev pub pferr_user_mask : ℕ
pferr_user_mask = 2 ^ 2

abbrev pub pt64_root_level : ℕ
pt64_root_level = 4

abbrev pub pt32_root_level : ℕ
pt32_root_level = 2

abbrev pub pt32e_root_level : ℕ
pt32e_root_level = 3

abbrev pub pt_directory_level : ℕ
pt_directory_level = 2

abbrev pub pt_page_table_level : ℕ
pt_page_table_level = 1

abbrev pub kvm_mem_log_dirty_pages : ℕ
kvm_mem_log_dirty_pages = 1

abbrev pub kvm_exit_type_fail_entry : ℕ
kvm_exit_type_fail_entry = 1

abbrev pub kvm_exit_type_vm_exit : ℕ
kvm_exit_type_vm_exit = 2

abbrev pub kvm_exit_unknown : ℕ
kvm_exit_unknown = 0

abbrev pub kvm_exit_exception : ℕ
kvm_exit_exception = 1

abbrev pub kvm_exit_io : ℕ
kvm_exit_io = 2

abbrev pub kvm_exit_cpuid : ℕ
kvm_exit_cpuid = 3

abbrev pub kvm_exit_debug : ℕ
kvm_exit_debug = 4

abbrev pub kvm_exit_hlt : ℕ
kvm_exit_hlt = 5

abbrev pub kvm_exit_mmio : ℕ
kvm_exit_mmio = 6

abbrev pub kvm_exit_io_in : ℕ
kvm_exit_io_in = 0

abbrev pub kvm_exit_io_out : ℕ
kvm_exit_io_out = 1
