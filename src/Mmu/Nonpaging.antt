-- ===== src/Mmu/Nonpaging.antt =====
-- Shadowing a guest that runs without paging: the `nonpaging_*` functions of
-- src/2006-11-02/kvm-module/mmu.c.
use learn_kvm.Base.{
  ℕ, zero, suc, ◌+◌, ◌-◌, ◌*◌, ◌^◌, Bool, true, false, ◌==◌, if◌then◌else◌, bit_and, bit_or, shr,
  none, some,
}
use learn_kvm.State.{Machine}
use learn_kvm.Run.{Cmd, ◌>>=◌, ◌>>◌, pure, act, fault, out_of_fuel}
use learn_kvm.Vmcs.{is_paging, vmcs_writel}
use learn_kvm.Slots.{mark_page_dirty, gpa_to_hpa, is_error_hpa, gfn_to_memslot}
use learn_kvm.Mmu.Pages.{
  read64, write64, is_valid_page, page_header, header, set_header, kvm_mmu_alloc_page,
  release_pt_page_64,
}
use learn_kvm.Vmx.Field
use learn_kvm.Vmx.Masks.{
  page_shift, page_mask, pt_present_mask, pt_writable_mask, pt_user_mask, pt64_base_addr_mask,
  pt32e_root_level, cr3_pcd_mask, cr3_wpt_mask, invalid_page,
}

-- `PT64_INDEX(address, level)`.
unfoldable pub pt64_index : ℕ → ℕ → ℕ
pt64_index address level = bit_and (shr address (page_shift + (level - 1) * 9)) (2 ^ 9 - 1)

abbrev pub set_root : ℕ → Machine → Machine
set_root root s = record s { vcpu = record s.vcpu { mmu = record s.vcpu.mmu { root_hpa = root } } }

-- The slot of `gpa` is recorded in the header of the page that holds `pte`.
unfoldable pub page_header_update_slot : ℕ → ℕ → Cmd (Unit {0})
page_header_update_slot pte gpa s = elim (gfn_to_memslot s.kvm (shr gpa page_shift)) [
  | none ↦ fault
  | some (slot, m) ↦
      let h = page_header pte s in
      let page = header h s in
      act (set_header h (record page { slot_bitmap = bit_or page.slot_bitmap (2 ^ slot) })) s
]

-- An entry that points to a new page, at `level`.
unfoldable pub link_entry : ℕ → ℕ → ℕ
link_entry level new_table =
    if level == pt32e_root_level
    then bit_or new_table pt_present_mask
    else bit_or (bit_or (bit_or new_table pt_present_mask) pt_writable_mask) pt_user_mask

-- A missing table is allocated and linked; false if there is no page.
unfoldable pub ensure_table : ℕ → ℕ → Machine → Bool × Machine
ensure_table level entry s =
    if read64 entry s == 0
    then (let (new_table, s') = kvm_mmu_alloc_page entry s in
        if is_valid_page new_table
        then (true, write64 entry (link_entry level new_table) s')
        else (false, s'))
    else (true, s)

-- The loop of `nonpaging_map` at `level` and `table`; the result false is -ENOMEM. The loop
-- returns at level 1.
unfoldable pub nonpaging_walk : ℕ → ℕ → ℕ → ℕ → Cmd Bool
nonpaging_walk zero table v p = λ s. fault
nonpaging_walk (suc zero) table v p = do
  mark_page_dirty (shr v page_shift)
  page_header_update_slot table v
  act (
      write64 (table + 8 * pt64_index v 1)
        (bit_or (bit_or (bit_or p pt_present_mask) pt_writable_mask) pt_user_mask))
  pure true
nonpaging_walk (suc (suc level)) table v p = λ s.
    let entry = table + 8 * pt64_index v (suc (suc level)) in
    let (there, s') = ensure_table (suc (suc level)) entry s in
    elim there [
      | true ↦ nonpaging_walk (suc level) (bit_and (read64 entry s') pt64_base_addr_mask) v p s'
      | false ↦ pure false s'
    ]

unfoldable pub nonpaging_map : ℕ → ℕ → Cmd Bool
nonpaging_map v p s = nonpaging_walk pt32e_root_level s.vcpu.mmu.root_hpa v p s

unfoldable pub nonpaging_flush : Machine → Machine
nonpaging_flush s =
    let root = s.vcpu.mmu.root_hpa in
    let counted = record s { stat = record s.stat { tlb_flush = s.stat.tlb_flush + 1 } } in
    let released = release_pt_page_64 s.vcpu.mmu.shadow_root_level root counted in
    let (new_root, allocated) = kvm_mmu_alloc_page 0 released in
    let s' = set_root new_root allocated in
    let cr3 =
      if is_paging s'
      then bit_or new_root (bit_and s'.vcpu.cr3 (bit_or cr3_pcd_mask cr3_wpt_mask))
      else new_root in
    vmcs_writel Field.guest_cr3 cr3 s'

-- The loop, with a bound on its rounds. True asks for emulation.
unfoldable pub nonpaging_page_fault : ℕ → ℕ → Cmd Bool
nonpaging_page_fault zero addr = λ s. out_of_fuel
nonpaging_page_fault (suc rounds) addr =
    let again = nonpaging_page_fault rounds addr in
    do
      paddr ← gpa_to_hpa (bit_and addr pt64_base_addr_mask)
      if is_error_hpa paddr then pure true else do
        mapped ← nonpaging_map (bit_and addr page_mask) paddr
        if mapped then pure false else act nonpaging_flush >> again

unfoldable pub nonpaging_free : Machine → Machine
nonpaging_free s =
    let root = s.vcpu.mmu.root_hpa in
    set_root invalid_page
      (if is_valid_page root then release_pt_page_64 s.vcpu.mmu.shadow_root_level root s else s)
