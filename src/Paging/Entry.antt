-- ===== src/Paging/Entry.antt =====
-- Shadow entries: how a guest entry becomes one, and the checks on a fault
-- (`set_pte_common`, `fix_read_pf`, `may_access`, `inject_page_fault` of
-- src/2006-11-02/kvm-module/mmu.c, `set_pte` and `set_pde` of paging_tmpl.h).
use learn_kvm.Base.{
  ℕ, ◌+◌, ◌-◌, ◌*◌, Bool, true, false, not, ◌&&◌, if◌then◌else◌, bit_and, bit_or, not64, u64, shr,
  shl64,
}
use learn_kvm.State.{Machine}
use learn_kvm.Run.{Cmd, ◌>>=◌, ◌>>◌, act, skip}
use learn_kvm.Vmcs.{has, vmcs_read32, vmcs_write32, is_page_fault, on_vcpu}
use learn_kvm.Slots.{mark_page_dirty, gpa_to_hpa, is_error_hpa}
use learn_kvm.Mmu.Pages.{write64, page_header, header, set_header}
use learn_kvm.Mmu.Nonpaging.{page_header_update_slot}
use learn_kvm.Paging.Guest.{
  PtType, pt_base_addr_mask, pt_dir_base_addr_mask, pt_pte_copy_mask, pt_non_pte_copy_mask, pse36,
}
use learn_kvm.Vmx.Field
use learn_kvm.Vmx.Masks.{
  page_shift, page_size, pt_present_mask, pt_writable_mask, pt_user_mask, pt_dirty_mask,
  pt_global_mask, pt_shadow_bits_offset, pt_shadow_io_mark, pt_shadow_user_mask,
  pt64_base_addr_mask, pt_dir_pat_mask, pt_dir_pat_shift, pt_pat_shift, df_vector, pf_vector,
  intr_type_exception, intr_info_deliever_code_mask, intr_info_valid_mask,
}

-- `page_header(__pa(shadow_pte))->global = 0`.
unfoldable pub mark_pagetable_nonglobal : ℕ → Machine → Machine
mark_pagetable_nonglobal shadow_pte s =
    let h = page_header shadow_pte s in set_header h (record (header h s) { global = 0 }) s

-- The access bits that the entry gets at once: none to write while the guest's entry is clean.
unfoldable pub allowed : Bool → ℕ → ℕ
allowed dirty access_bits =
    if dirty then access_bits else bit_and access_bits (not64 pt_writable_mask)

-- The entry before the page is known: the shadowed and the allowed access bits.
unfoldable pub with_access : ℕ → Bool → ℕ → ℕ
with_access pte dirty access_bits =
    bit_or (bit_or pte (shl64 access_bits pt_shadow_bits_offset)) (allowed dirty access_bits)

-- The entry of an address that no slot has: marked for mmio and not present.
unfoldable pub io_entry : ℕ → ℕ → ℕ
io_entry pte gaddr = bit_and (bit_or (bit_or pte gaddr) pt_shadow_io_mark) (not64 pt_present_mask)

-- `*shadow_pte` starts as `pte`. Nothing reads it before the end, so it is stored once.
unfoldable pub set_pte_common : ℕ → ℕ → ℕ → Bool → ℕ → Cmd (Unit {0})
set_pte_common shadow_pte pte gaddr dirty access_bits =
    let pte' = with_access pte dirty access_bits in
    do
      if has (allowed dirty access_bits) pt_writable_mask
          then mark_page_dirty (shr gaddr page_shift)
          else skip
      paddr ← gpa_to_hpa (bit_and gaddr pt64_base_addr_mask)
      if has pte' pt_global_mask then skip else act (mark_pagetable_nonglobal shadow_pte)
      if is_error_hpa paddr then act (write64 shadow_pte (io_entry pte' gaddr)) else do
        act (write64 shadow_pte (bit_or pte' paddr))
        page_header_update_slot shadow_pte gaddr

unfoldable pub set_pte : PtType → ℕ → ℕ → ℕ → Cmd (Unit {0})
set_pte t guest_pte shadow_pte access_bits =
    set_pte_common shadow_pte (bit_and guest_pte (pt_pte_copy_mask t))
      (bit_and guest_pte (pt_base_addr_mask t)) (has guest_pte pt_dirty_mask)
      (bit_and access_bits guest_pte)

-- The guest physical address of page `index` of a large page.
unfoldable pub large_gaddr : PtType → ℕ → ℕ → ℕ
large_gaddr t guest_pde index =
    bit_or (u64 (bit_and guest_pde (pt_dir_base_addr_mask t) + page_size * index))
      (pse36 t guest_pde)

unfoldable pub set_pde : PtType → ℕ → ℕ → ℕ → ℕ → Cmd (Unit {0})
set_pde t guest_pde shadow_pte access_bits index =
    set_pte_common shadow_pte
      (bit_or (bit_and guest_pde (pt_non_pte_copy_mask t))
        (shr (bit_and guest_pde pt_dir_pat_mask) (pt_dir_pat_shift - pt_pat_shift)))
      (large_gaddr t guest_pde index) (has guest_pde pt_dirty_mask) (bit_and access_bits guest_pde)

-- The event that is delivered to the guest: a processor exception with an error code.
abbrev pub exception_info : ℕ → ℕ
exception_info vector =
    bit_or (bit_or (bit_or vector intr_type_exception) intr_info_deliever_code_mask)
      intr_info_valid_mask

unfoldable pub inject_page_fault : ℕ → ℕ → Machine → Machine
inject_page_fault addr err_code s =
    let vect_info = vmcs_read32 Field.idt_vectoring_info_field s in
    let counted = record s { stat = record s.stat { pf_guest = s.stat.pf_guest + 1 } } in
    if is_page_fault vect_info
    then vmcs_write32 Field.vm_entry_intr_info_field (exception_info df_vector)
        (vmcs_write32 Field.vm_entry_exception_error_code 0 counted)
    else vmcs_write32 Field.vm_entry_intr_info_field (exception_info pf_vector) (
        vmcs_write32 Field.vm_entry_exception_error_code err_code
          (on_vcpu (λ v. record v { cr2 = addr }) counted))

-- The entry after a read fault, and whether that fixed it: a kernel page that is shadowed as a
-- user page becomes readable and loses its write bit.
unfoldable pub fix_read_pf : ℕ → ℕ × Bool
fix_read_pf shadow_ent =
    if has shadow_ent pt_shadow_user_mask && not (has shadow_ent pt_user_mask)
    then (bit_and (bit_or shadow_ent pt_user_mask) (not64 pt_writable_mask), true)
    else (shadow_ent, false)

unfoldable pub may_access : ℕ → Bool → Bool → Bool
may_access pte write user =
    if user && not (has pte pt_user_mask)
    then false
    else if write && not (has pte pt_writable_mask)
    then false
    else true
