-- ===== src/Vmx/Field.antt =====
-- The VMCS field encodings of src/2006-11-02/kvm-module/vmx.h (enum vmcs_field).
use learn_kvm.Base.{ℕ}

abbrev pub guest_es_selector : ℕ
guest_es_selector = 0x0800

abbrev pub guest_cs_selector : ℕ
guest_cs_selector = 0x0802

abbrev pub guest_ss_selector : ℕ
guest_ss_selector = 0x0804

abbrev pub guest_ds_selector : ℕ
guest_ds_selector = 0x0806

abbrev pub guest_fs_selector : ℕ
guest_fs_selector = 0x0808

abbrev pub guest_gs_selector : ℕ
guest_gs_selector = 0x080a

abbrev pub guest_ldtr_selector : ℕ
guest_ldtr_selector = 0x080c

abbrev pub guest_tr_selector : ℕ
guest_tr_selector = 0x080e

abbrev pub host_es_selector : ℕ
host_es_selector = 0x0c00

abbrev pub host_cs_selector : ℕ
host_cs_selector = 0x0c02

abbrev pub host_ss_selector : ℕ
host_ss_selector = 0x0c04

abbrev pub host_ds_selector : ℕ
host_ds_selector = 0x0c06

abbrev pub host_fs_selector : ℕ
host_fs_selector = 0x0c08

abbrev pub host_gs_selector : ℕ
host_gs_selector = 0x0c0a

abbrev pub host_tr_selector : ℕ
host_tr_selector = 0x0c0c

abbrev pub io_bitmap_a : ℕ
io_bitmap_a = 0x2000

abbrev pub io_bitmap_a_high : ℕ
io_bitmap_a_high = 0x2001

abbrev pub io_bitmap_b : ℕ
io_bitmap_b = 0x2002

abbrev pub io_bitmap_b_high : ℕ
io_bitmap_b_high = 0x2003

abbrev pub msr_bitmap : ℕ
msr_bitmap = 0x2004

abbrev pub msr_bitmap_high : ℕ
msr_bitmap_high = 0x2005

abbrev pub vm_exit_msr_store_addr : ℕ
vm_exit_msr_store_addr = 0x2006

abbrev pub vm_exit_msr_store_addr_high : ℕ
vm_exit_msr_store_addr_high = 0x2007

abbrev pub vm_exit_msr_load_addr : ℕ
vm_exit_msr_load_addr = 0x2008

abbrev pub vm_exit_msr_load_addr_high : ℕ
vm_exit_msr_load_addr_high = 0x2009

abbrev pub vm_entry_msr_load_addr : ℕ
vm_entry_msr_load_addr = 0x200a

abbrev pub vm_entry_msr_load_addr_high : ℕ
vm_entry_msr_load_addr_high = 0x200b

abbrev pub tsc_offset : ℕ
tsc_offset = 0x2010

abbrev pub tsc_offset_high : ℕ
tsc_offset_high = 0x2011

abbrev pub virtual_apic_page_addr : ℕ
virtual_apic_page_addr = 0x2012

abbrev pub virtual_apic_page_addr_high : ℕ
virtual_apic_page_addr_high = 0x2013

abbrev pub vmcs_link_pointer : ℕ
vmcs_link_pointer = 0x2800

abbrev pub vmcs_link_pointer_high : ℕ
vmcs_link_pointer_high = 0x2801

abbrev pub guest_ia32_debugctl : ℕ
guest_ia32_debugctl = 0x2802

abbrev pub guest_ia32_debugctl_high : ℕ
guest_ia32_debugctl_high = 0x2803

abbrev pub pin_based_vm_exec_control : ℕ
pin_based_vm_exec_control = 0x4000

abbrev pub cpu_based_vm_exec_control : ℕ
cpu_based_vm_exec_control = 0x4002

abbrev pub exception_bitmap : ℕ
exception_bitmap = 0x4004

abbrev pub page_fault_error_code_mask : ℕ
page_fault_error_code_mask = 0x4006

abbrev pub page_fault_error_code_match : ℕ
page_fault_error_code_match = 0x4008

abbrev pub cr3_target_count : ℕ
cr3_target_count = 0x400a

abbrev pub vm_exit_controls : ℕ
vm_exit_controls = 0x400c

abbrev pub vm_exit_msr_store_count : ℕ
vm_exit_msr_store_count = 0x400e

abbrev pub vm_exit_msr_load_count : ℕ
vm_exit_msr_load_count = 0x4010

abbrev pub vm_entry_controls : ℕ
vm_entry_controls = 0x4012

abbrev pub vm_entry_msr_load_count : ℕ
vm_entry_msr_load_count = 0x4014

abbrev pub vm_entry_intr_info_field : ℕ
vm_entry_intr_info_field = 0x4016

abbrev pub vm_entry_exception_error_code : ℕ
vm_entry_exception_error_code = 0x4018

abbrev pub vm_entry_instruction_len : ℕ
vm_entry_instruction_len = 0x401a

abbrev pub tpr_threshold : ℕ
tpr_threshold = 0x401c

abbrev pub secondary_vm_exec_control : ℕ
secondary_vm_exec_control = 0x401e

abbrev pub vm_instruction_error : ℕ
vm_instruction_error = 0x4400

abbrev pub vm_exit_reason : ℕ
vm_exit_reason = 0x4402

abbrev pub vm_exit_intr_info : ℕ
vm_exit_intr_info = 0x4404

abbrev pub vm_exit_intr_error_code : ℕ
vm_exit_intr_error_code = 0x4406

abbrev pub idt_vectoring_info_field : ℕ
idt_vectoring_info_field = 0x4408

abbrev pub idt_vectoring_error_code : ℕ
idt_vectoring_error_code = 0x440a

abbrev pub vm_exit_instruction_len : ℕ
vm_exit_instruction_len = 0x440c

abbrev pub vmx_instruction_info : ℕ
vmx_instruction_info = 0x440e

abbrev pub guest_es_limit : ℕ
guest_es_limit = 0x4800

abbrev pub guest_cs_limit : ℕ
guest_cs_limit = 0x4802

abbrev pub guest_ss_limit : ℕ
guest_ss_limit = 0x4804

abbrev pub guest_ds_limit : ℕ
guest_ds_limit = 0x4806

abbrev pub guest_fs_limit : ℕ
guest_fs_limit = 0x4808

abbrev pub guest_gs_limit : ℕ
guest_gs_limit = 0x480a

abbrev pub guest_ldtr_limit : ℕ
guest_ldtr_limit = 0x480c

abbrev pub guest_tr_limit : ℕ
guest_tr_limit = 0x480e

abbrev pub guest_gdtr_limit : ℕ
guest_gdtr_limit = 0x4810

abbrev pub guest_idtr_limit : ℕ
guest_idtr_limit = 0x4812

abbrev pub guest_es_ar_bytes : ℕ
guest_es_ar_bytes = 0x4814

abbrev pub guest_cs_ar_bytes : ℕ
guest_cs_ar_bytes = 0x4816

abbrev pub guest_ss_ar_bytes : ℕ
guest_ss_ar_bytes = 0x4818

abbrev pub guest_ds_ar_bytes : ℕ
guest_ds_ar_bytes = 0x481a

abbrev pub guest_fs_ar_bytes : ℕ
guest_fs_ar_bytes = 0x481c

abbrev pub guest_gs_ar_bytes : ℕ
guest_gs_ar_bytes = 0x481e

abbrev pub guest_ldtr_ar_bytes : ℕ
guest_ldtr_ar_bytes = 0x4820

abbrev pub guest_tr_ar_bytes : ℕ
guest_tr_ar_bytes = 0x4822

abbrev pub guest_interruptibility_info : ℕ
guest_interruptibility_info = 0x4824

abbrev pub guest_activity_state : ℕ
guest_activity_state = 0x4826

abbrev pub guest_sysenter_cs : ℕ
guest_sysenter_cs = 0x482a

abbrev pub host_ia32_sysenter_cs : ℕ
host_ia32_sysenter_cs = 0x4c00

abbrev pub cr0_guest_host_mask : ℕ
cr0_guest_host_mask = 0x6000

abbrev pub cr4_guest_host_mask : ℕ
cr4_guest_host_mask = 0x6002

abbrev pub cr0_read_shadow : ℕ
cr0_read_shadow = 0x6004

abbrev pub cr4_read_shadow : ℕ
cr4_read_shadow = 0x6006

abbrev pub cr3_target_value0 : ℕ
cr3_target_value0 = 0x6008

abbrev pub cr3_target_value1 : ℕ
cr3_target_value1 = 0x600a

abbrev pub cr3_target_value2 : ℕ
cr3_target_value2 = 0x600c

abbrev pub cr3_target_value3 : ℕ
cr3_target_value3 = 0x600e

abbrev pub exit_qualification : ℕ
exit_qualification = 0x6400

abbrev pub guest_linear_address : ℕ
guest_linear_address = 0x640a

abbrev pub guest_cr0 : ℕ
guest_cr0 = 0x6800

abbrev pub guest_cr3 : ℕ
guest_cr3 = 0x6802

abbrev pub guest_cr4 : ℕ
guest_cr4 = 0x6804

abbrev pub guest_es_base : ℕ
guest_es_base = 0x6806

abbrev pub guest_cs_base : ℕ
guest_cs_base = 0x6808

abbrev pub guest_ss_base : ℕ
guest_ss_base = 0x680a

abbrev pub guest_ds_base : ℕ
guest_ds_base = 0x680c

abbrev pub guest_fs_base : ℕ
guest_fs_base = 0x680e

abbrev pub guest_gs_base : ℕ
guest_gs_base = 0x6810

abbrev pub guest_ldtr_base : ℕ
guest_ldtr_base = 0x6812

abbrev pub guest_tr_base : ℕ
guest_tr_base = 0x6814

abbrev pub guest_gdtr_base : ℕ
guest_gdtr_base = 0x6816

abbrev pub guest_idtr_base : ℕ
guest_idtr_base = 0x6818

abbrev pub guest_dr7 : ℕ
guest_dr7 = 0x681a

abbrev pub guest_rsp : ℕ
guest_rsp = 0x681c

abbrev pub guest_rip : ℕ
guest_rip = 0x681e

abbrev pub guest_rflags : ℕ
guest_rflags = 0x6820

abbrev pub guest_pending_dbg_exceptions : ℕ
guest_pending_dbg_exceptions = 0x6822

abbrev pub guest_sysenter_esp : ℕ
guest_sysenter_esp = 0x6824

abbrev pub guest_sysenter_eip : ℕ
guest_sysenter_eip = 0x6826

abbrev pub host_cr0 : ℕ
host_cr0 = 0x6c00

abbrev pub host_cr3 : ℕ
host_cr3 = 0x6c02

abbrev pub host_cr4 : ℕ
host_cr4 = 0x6c04

abbrev pub host_fs_base : ℕ
host_fs_base = 0x6c06

abbrev pub host_gs_base : ℕ
host_gs_base = 0x6c08

abbrev pub host_tr_base : ℕ
host_tr_base = 0x6c0a

abbrev pub host_gdtr_base : ℕ
host_gdtr_base = 0x6c0c

abbrev pub host_idtr_base : ℕ
host_idtr_base = 0x6c0e

abbrev pub host_ia32_sysenter_esp : ℕ
host_ia32_sysenter_esp = 0x6c10

abbrev pub host_ia32_sysenter_eip : ℕ
host_ia32_sysenter_eip = 0x6c12

abbrev pub host_rsp : ℕ
host_rsp = 0x6c14

abbrev pub host_rip : ℕ
host_rip = 0x6c16
