-- ===== src/Paging/Guest.antt =====
-- The guest's own page tables: the walker of src/2006-11-02/kvm-module/paging_tmpl.h.
use learn_kvm.Base.{
  ℕ, zero, suc, ◌+◌, ◌-◌, ◌*◌, ◌/◌, ◌%◌, ◌^◌, Bool, true, false, not, ◌&&◌, ◌||◌, ◌==◌, ◌!=◌,
  if◌then◌else◌, bit_and, bit_or, not64, shr, u32,
}
use learn_kvm.State.{Machine}
use learn_kvm.Run.{Cmd, ◌>>=◌, pure, fault, read}
use learn_kvm.Vmcs.{has, update, is_pse, is_long_mode}
use learn_kvm.Slots.{safe_gpa_to_hpa}
use learn_kvm.Mmu.Pages.{read64, write64, is_present_pte}
use learn_kvm.Mmu.Nonpaging.{pt64_index}
use learn_kvm.Vmx.Masks.{
  page_shift, page_size, page_mask, pt64_base_addr_mask, pt64_dir_base_addr_mask,
  pt32_base_addr_mask, pt32_dir_base_addr_mask, pt64_pte_copy_mask, pt64_non_pte_copy_mask,
  pt32_pte_copy_mask, pt32_non_pte_copy_mask, cr3_flags_mask, pt_user_mask, pt_writable_mask,
  pt_page_size_mask, pt_directory_level, pt_page_table_level, pt32_dir_pse36_mask,
  pt32_dir_pse36_shift, unmapped_gva,
}

-- PTTYPE.
pub data PtType : Type 0 where
  pt64 pt32 : PtType

unfoldable pub is_pt64 : PtType → Bool
is_pt64 pt64 = true
is_pt64 pt32 = false

-- `sizeof(pt_element_t)`.
unfoldable pub element_size : PtType → ℕ
element_size pt64 = 8
element_size pt32 = 4

unfoldable pub pt_base_addr_mask : PtType → ℕ
pt_base_addr_mask pt64 = pt64_base_addr_mask
pt_base_addr_mask pt32 = pt32_base_addr_mask

unfoldable pub pt_dir_base_addr_mask : PtType → ℕ
pt_dir_base_addr_mask pt64 = pt64_dir_base_addr_mask
pt_dir_base_addr_mask pt32 = pt32_dir_base_addr_mask

unfoldable pub pt_pte_copy_mask : PtType → ℕ
pt_pte_copy_mask pt64 = pt64_pte_copy_mask
pt_pte_copy_mask pt32 = pt32_pte_copy_mask

unfoldable pub pt_non_pte_copy_mask : PtType → ℕ
pt_non_pte_copy_mask pt64 = pt64_non_pte_copy_mask
pt_non_pte_copy_mask pt32 = pt32_non_pte_copy_mask

-- `PT32_INDEX(address, level)`.
unfoldable pub pt32_index : ℕ → ℕ → ℕ
pt32_index address level = bit_and (shr address (page_shift + (level - 1) * 10)) (2 ^ 10 - 1)

unfoldable pub pt_index : PtType → ℕ → ℕ → ℕ
pt_index pt64 address level = pt64_index address level
pt_index pt32 address level = pt32_index address level

-- `PT_LEVEL_MASK(level)`.
unfoldable pub pt_level_mask : PtType → ℕ → ℕ
pt_level_mask pt64 level = (2 ^ 9 - 1) * 2 ^ (page_shift + (level - 1) * 9)
pt_level_mask pt32 level = (2 ^ 10 - 1) * 2 ^ (page_shift + (level - 1) * 10)

-- A guest entry in host memory; a 32-bit one is half of a word.
unfoldable pub read_element : PtType → ℕ → Machine → ℕ
read_element pt64 address s = read64 address s
read_element pt32 address s = u32 (s.mem (address / 8) / 2 ^ (32 * (address / 4 % 2)))

unfoldable pub write_element : PtType → ℕ → ℕ → Machine → Machine
write_element pt64 address v s = write64 address v s
write_element pt32 address v s =
    let w = s.mem (address / 8) in
    let w' = if address / 4 % 2 == 0 then w / 2 ^ 32 * 2 ^ 32 + v else v * 2 ^ 32 + w % 2 ^ 32 in
    record s { mem = update s.mem (address / 8) w' }

-- struct guest_walker; `table` is the host address of the guest's table.
pub record GuestWalker : Type 0 where
  pub level : ℕ
  pub table : ℕ
  pub inherited_ar : ℕ

-- `kmap_atomic(pfn_to_page(hpa >> PAGE_SHIFT))`.
abbrev pub page_of : ℕ → ℕ
page_of hpa = shr hpa page_shift * page_size

unfoldable pub init_walker : Cmd GuestWalker
init_walker = do
  cr3 ← read (λ s. s.vcpu.cr3)
  level ← read (λ s. s.vcpu.mmu.root_level)
  hpa ← safe_gpa_to_hpa (bit_and cr3 pt64_base_addr_mask)
  pure (record {
    level = level;
    table = bit_or (page_of hpa) (bit_and cr3 (not64 (bit_or page_mask cr3_flags_mask)));
    inherited_ar = bit_or pt_user_mask pt_writable_mask;
  })

-- The tests on which the walk stops at an entry of `level`.
unfoldable pub stops : PtType → ℕ → ℕ → ℕ → Machine → Bool
stops t wanted level ent s =
    wanted == level
    || not (is_present_pte ent)
    || (level == pt_directory_level && has ent pt_page_size_mask && (is_pt64 t || is_pse s))

-- The loop of `fetch_guest` at `level`: the address of the entry it stops at, and the walker.
unfoldable pub fetch_guest_from : PtType → ℕ → ℕ → ℕ → ℕ → ℕ → Cmd (ℕ × GuestWalker)
fetch_guest_from t wanted addr zero table ar = λ s. fault
fetch_guest_from t wanted addr (suc level) table ar = λ s.
    let entry = table + element_size t * pt_index t addr (suc level) in
    let ent = read_element t entry s in
    elim (stops t wanted (suc level) ent s) [
      | true ↦ pure (entry, record { level = suc level; table = table; inherited_ar = ar }) s
      | false ↦
          let ar' = if suc level != 3 || is_long_mode s then bit_and ar ent else ar in
          (do
            paddr ← safe_gpa_to_hpa (bit_and ent (pt_base_addr_mask t))
            fetch_guest_from t wanted addr level (page_of paddr) ar')
            s
    ]

unfoldable pub fetch_guest : PtType → GuestWalker → ℕ → ℕ → Cmd (ℕ × GuestWalker)
fetch_guest t walker level addr =
    fetch_guest_from t level addr walker.level walker.table walker.inherited_ar

-- `(pde & PT32_DIR_PSE36_MASK) << (32 - PT32_DIR_PSE36_SHIFT)`, of 32-bit directories only.
unfoldable pub pse36 : PtType → ℕ → ℕ
pse36 pt64 pde = 0
pse36 pt32 pde = bit_and pde pt32_dir_pse36_mask * 2 ^ (32 - pt32_dir_pse36_shift)

-- The address that the entry where the walk ended gives `vaddr`.
unfoldable pub gpa_of : PtType → ℕ → ℕ → ℕ → ℕ
gpa_of t level guest_pte vaddr =
    if level == pt_directory_level
    then bit_or
        (bit_or (bit_and guest_pte (pt_dir_base_addr_mask t))
          (bit_and vaddr (bit_or (pt_level_mask t pt_page_table_level) (not64 page_mask))))
        (pse36 t guest_pte)
    else bit_or (bit_and guest_pte (pt_base_addr_mask t)) (bit_and vaddr (not64 page_mask))

unfoldable pub paging_gva_to_gpa : PtType → ℕ → Cmd ℕ
paging_gva_to_gpa t vaddr = do
  walker ← init_walker
  (entry, walker) ← fetch_guest t walker pt_page_table_level vaddr
  guest_pte ← read (read_element t entry)
  pure (if is_present_pte guest_pte then gpa_of t walker.level guest_pte vaddr else unmapped_gva)
