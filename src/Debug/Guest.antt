-- ===== src/Debug/Guest.antt =====
-- `vm_entry_test_guest` of src/2006-11-02/kvm-module/debug.c, group by group in its order. Each group is
-- true where the function goes on; what is printed is left out.
use learn_kvm.Base.{
  ℕ, ◌-◌, ◌*◌, ◌^◌, Bool, not, ◌&&◌, ◌||◌, ltb, leb, ◌==◌, ◌!=◌, if◌then◌else◌, bit_and, bit_or,
  not64, shr,
}
use learn_kvm.State.{Machine}
use learn_kvm.Vmcs.{has, vmcs_readl, vmcs_read16, vmcs_read32, is_long_mode}
use learn_kvm.Cpu.Segment.{SegmentFields}
use learn_kvm.Cpu.Segment
use learn_kvm.Cpu.Cr.{any_reserved}
use learn_kvm.Debug.Segment.{
  is_canonical, vir8086_seg_base_test, vir8086_seg_limit_test, vir8086_seg_ar_test, seg_base_test,
  seg_g_test, seg_ar_test, idt_gdt_test,
}
use learn_kvm.Vmx.Field
use learn_kvm.Vmx.Masks.{
  page_shift, page_size, cr0_pg_mask, cr0_pe_mask, cr0_ne_mask, cr4_vmxe_mask, cr4_pae_mask,
  cr3_l_mode_reseved_bits, ia32_debugctl_reserved_bits, selector_ti_mask, selector_rpl_mask,
  ar_unusable_mask, ar_type_mask, ar_type_accesses_mask, ar_type_code_mask, ar_s_mask, ar_p_mask,
  ar_l_mask, ar_db_mask, ar_dpl, ar_reservd_mask, ar_type_busy_64_tss, ar_type_busy_32_tss,
  ar_type_busy_16_tss, ar_type_ldt, rflags_vm, rflags_rf, rflags_reseved_clear_bits,
  rflags_reseved_set_bits, intr_info_valid_mask, intr_info_intr_type_mask, intr_type_ext_intr,
  vm_entry_controls_ia32e_mask,
}

-- `virtual8086`.
unfoldable pub is_virtual8086 : Machine → Bool
is_virtual8086 s = has (vmcs_readl Field.guest_rflags s) rflags_vm

-- CR0, CR4, DEBUGCTL and CR3 up to its reserved bits.
unfoldable pub control_test : Machine → Bool
control_test s =
    let cr0 : ℕ = vmcs_readl Field.guest_cr0 s in
    let cr4 : ℕ = vmcs_readl Field.guest_cr4 s in
    has cr0 cr0_pg_mask
    && has cr0 cr0_pe_mask
    && has cr0 cr0_ne_mask
    && has cr4 cr4_vmxe_mask
    && not (has (vmcs_readl Field.guest_ia32_debugctl s) ia32_debugctl_reserved_bits)
    && not (is_long_mode s && not (has cr4 cr4_pae_mask))
    && not (has (vmcs_readl Field.guest_cr3 s) cr3_l_mode_reseved_bits)

-- Outside long mode, with PAE, the four entries that CR3 points to.
unfoldable pub pdpte_test : Machine → Bool
pdpte_test s =
    let cr3 : ℕ = vmcs_readl Field.guest_cr3 s in
    not (
      not (is_long_mode s)
      && has (vmcs_readl Field.guest_cr4 s) cr4_pae_mask
      && any_reserved 4 (shr cr3 page_shift * page_size) (shr (bit_and cr3 (page_size - 1)) 5) s)

-- DR7 and the SYSENTER addresses.
unfoldable pub address_test : Machine → Bool
address_test s =
    not (has (vmcs_readl Field.guest_dr7 s) (not64 (2 ^ 32 - 1)))
    && is_canonical (vmcs_readl Field.guest_sysenter_esp s)
    && is_canonical (vmcs_readl Field.guest_sysenter_eip s)

-- Every segment of the six, as a virtual-8086 guest has them.
unfoldable pub vir8086_test : (SegmentFields → Machine → Bool) → Machine → Bool
vir8086_test test s =
    test Segment.cs s
    && test Segment.ss s
    && test Segment.ds s
    && test Segment.es s
    && test Segment.fs s
    && test Segment.gs s

unfoldable pub selector_test : Machine → Bool
selector_test s =
    not (has (vmcs_read16 Field.guest_tr_selector s) selector_ti_mask)
    && not (
        not (has (vmcs_read32 Field.guest_ldtr_ar_bytes s) ar_unusable_mask)
        && has (vmcs_read16 Field.guest_ldtr_selector s) selector_ti_mask)
    && not (
        not (is_virtual8086 s)
        && bit_and (vmcs_read16 Field.guest_ss_selector s) selector_rpl_mask
          != bit_and (vmcs_read16 Field.guest_cs_selector s) selector_rpl_mask)

unfoldable pub base_test : Machine → Bool
base_test s =
    is_canonical (vmcs_readl Field.guest_tr_base s)
    && is_canonical (vmcs_readl Field.guest_fs_base s)
    && is_canonical (vmcs_readl Field.guest_gs_base s)
    && not (
        not (has (vmcs_read32 Field.guest_ldtr_ar_bytes s) ar_unusable_mask)
        && not (is_canonical (vmcs_readl Field.guest_ldtr_base s)))
    && not (has (vmcs_readl Field.guest_cs_base s) (not64 (2 ^ 32 - 1)))
    && seg_base_test Segment.ss s
    && seg_base_test Segment.ds s
    && seg_base_test Segment.es s

-- `long_mode & (cs_ar & AR_L_MASK) && (cs_ar & AR_DB_MASK)`, where `long_mode` is the masked bit of
-- the entry controls.
unfoldable pub is_long_with_db : Machine → Bool
is_long_with_db s =
    let cs_ar : ℕ = vmcs_read32 Field.guest_cs_ar_bytes s in
    let long_mode : ℕ =
      bit_and (vmcs_read32 Field.vm_entry_controls s) vm_entry_controls_ia32e_mask in
    has long_mode (bit_and cs_ar ar_l_mask) && has cs_ar ar_db_mask

unfoldable pub cs_test : Machine → Bool
cs_test s =
    let cs_ar : ℕ = vmcs_read32 Field.guest_cs_ar_bytes s in
    let type : ℕ = bit_and cs_ar ar_type_mask in
    let rpl : ℕ = bit_and (vmcs_read16 Field.guest_cs_selector s) selector_rpl_mask in
    has cs_ar ar_type_accesses_mask
    && has cs_ar ar_type_code_mask
    && has cs_ar ar_s_mask
    && not (leb 8 type && ltb type 12 && ar_dpl cs_ar != rpl)
    && not (leb 13 type && ltb type 16 && ltb rpl (ar_dpl cs_ar))
    && has cs_ar ar_p_mask
    && not (has cs_ar ar_reservd_mask)
    && not (is_long_with_db s)
    && seg_g_test Segment.cs s

unfoldable pub ss_test : Machine → Bool
ss_test s =
    let ss_ar : ℕ = vmcs_read32 Field.guest_ss_ar_bytes s in
    let type : ℕ = bit_and ss_ar ar_type_mask in
    (has ss_ar ar_unusable_mask
      || not (type != 3 && type != 7)
        && has ss_ar ar_s_mask
        && has ss_ar ar_p_mask
        && not (has ss_ar ar_reservd_mask)
        && seg_g_test Segment.ss s)
    && ar_dpl ss_ar == bit_and (vmcs_read16 Field.guest_ss_selector s) selector_rpl_mask

unfoldable pub tr_test : Machine → Bool
tr_test s =
    let tr_ar : ℕ = vmcs_read32 Field.guest_tr_ar_bytes s in
    let type : ℕ = bit_and tr_ar ar_type_mask in
    (if is_long_mode s
      then type == ar_type_busy_64_tss
      else not (type != ar_type_busy_32_tss && type != ar_type_busy_16_tss))
    && not (has tr_ar ar_s_mask)
    && has tr_ar ar_p_mask
    && not (has tr_ar (bit_or ar_reservd_mask ar_unusable_mask))
    && seg_g_test Segment.tr s

unfoldable pub ldtr_test : Machine → Bool
ldtr_test s =
    let ldtr_ar : ℕ = vmcs_read32 Field.guest_ldtr_ar_bytes s in
    has ldtr_ar ar_unusable_mask
    || bit_and ldtr_ar ar_type_mask == ar_type_ldt
      && not (has ldtr_ar ar_s_mask)
      && has ldtr_ar ar_p_mask
      && not (has ldtr_ar ar_reservd_mask)
      && seg_g_test Segment.ldtr s

unfoldable pub access_test : Machine → Bool
access_test s =
    if is_virtual8086 s
    then vir8086_test vir8086_seg_ar_test s
    else cs_test s
      && ss_test s
      && seg_ar_test Segment.ds s
      && seg_ar_test Segment.es s
      && seg_ar_test Segment.fs s
      && seg_ar_test Segment.gs s
      && tr_test s
      && ldtr_test s

unfoldable pub rip_test : Machine → Bool
rip_test s =
    let rip : ℕ = vmcs_readl Field.guest_rip s in
    not (
      (not (is_long_mode s) || not (has (vmcs_read32 Field.guest_cs_ar_bytes s) ar_l_mask))
      && has rip (not64 (2 ^ 32 - 1)))
    && is_canonical rip

unfoldable pub rflags_test : Machine → Bool
rflags_test s =
    let rflags : ℕ = vmcs_readl Field.guest_rflags s in
    let vm_entry_info : ℕ = vmcs_read32 Field.vm_entry_intr_info_field s in
    not (has rflags rflags_reseved_clear_bits || not (has rflags rflags_reseved_set_bits))
    && not (is_long_mode s && is_virtual8086 s)
    && not (
        not (has rflags rflags_rf)
        && has vm_entry_info intr_info_valid_mask
        && bit_and vm_entry_info intr_info_intr_type_mask == intr_type_ext_intr)

unfoldable pub vm_entry_test_guest : Machine → Bool
vm_entry_test_guest s =
    control_test s
    && pdpte_test s
    && address_test s
    && selector_test s
    && (not (is_virtual8086 s) || vir8086_test vir8086_seg_base_test s)
    && base_test s
    && (not (is_virtual8086 s) || vir8086_test vir8086_seg_limit_test s)
    && access_test s
    && idt_gdt_test Field.guest_gdtr_base Field.guest_gdtr_limit s
    && idt_gdt_test Field.guest_idtr_base Field.guest_idtr_limit s
    && rip_test s
    && rflags_test s
