-- ===== src/Mmu/Pages.antt =====
-- Shadow pages and their entries: allocation, release and the scans over all active pages
-- (src/2006-11-02/kvm-module/mmu.c).
use learn_kvm.Base.{
  ℕ, zero, suc, ◌+◌, ◌/◌, ◌^◌, Bool, ◌&&◌, List, [], ◌∷◌, ltb, leb, ◌==◌, ◌!=◌, if◌then◌else◌,
  bit_and, not64, shr,
}
use learn_kvm.State.{Machine, MmuPage}
use learn_kvm.Vmcs.{has, update}
use learn_kvm.Vmx.Masks.{
  invalid_page, page_shift, pt64_ent_per_page, pt_present_mask, pt_writable_mask,
  pt64_base_addr_mask, pt_shadow_io_mark,
}

-- A load and a store of an aligned 64-bit entry.
unfoldable pub read64 : ℕ → Machine → ℕ
read64 address s = s.mem (address / 8)

unfoldable pub write64 : ℕ → ℕ → Machine → Machine
write64 address v s = record s { mem = update s.mem (address / 8) v }

-- `memset(__va(page), 0, PAGE_SIZE)`.
unfoldable pub clear_page : ℕ → Machine → Machine
clear_page page s = record s {
  mem = λ w. if leb (page / 8) w && ltb w (page / 8 + pt64_ent_per_page) then 0 else s.mem w;
}

unfoldable pub is_present_pte : ℕ → Bool
is_present_pte pte = has pte pt_present_mask

unfoldable pub is_writeble_pte : ℕ → Bool
is_writeble_pte pte = has pte pt_writable_mask

unfoldable pub is_io_pte : ℕ → Bool
is_io_pte pte = has pte pt_shadow_io_mark

unfoldable pub is_valid_page : ℕ → Bool
is_valid_page x = x != invalid_page

-- The index of the header of a shadow page.
unfoldable pub page_header : ℕ → Machine → ℕ
page_header shadow_page s = s.private (shr shadow_page page_shift)

abbrev pub header : ℕ → Machine → MmuPage
header h s = s.vcpu.page_header_buf h

abbrev pub set_header : ℕ → MmuPage → Machine → Machine
set_header h page s = record s {
  vcpu = record s.vcpu { page_header_buf = update s.vcpu.page_header_buf h page };
}

-- `list_del`: the header leaves the list that it is on.
unfoldable pub unlink : ℕ → List ℕ → List ℕ
unlink h [] = []
unlink h (x ∷ xs) = if x == h then unlink h xs else x ∷ unlink h xs

abbrev pub set_lists : List ℕ → List ℕ → Machine → Machine
set_lists free active s = record s {
  kvm = record s.kvm { active_mmu_pages = active };
  vcpu = record s.vcpu { free_pages = free };
}

unfoldable pub kvm_mmu_free_page : ℕ → Machine → Machine
kvm_mmu_free_page page_hpa s =
    let h = page_header page_hpa s in
    set_header h (record (header h s) { page_hpa = page_hpa })
      (set_lists (h ∷ unlink h s.vcpu.free_pages) (unlink h s.kvm.active_mmu_pages) s)

-- The page's address, or INVALID_PAGE.
unfoldable pub kvm_mmu_alloc_page : ℕ → Machine → ℕ × Machine
kvm_mmu_alloc_page parent_pte s = elim s.vcpu.free_pages [
  | [] ↦ (invalid_page, s)
  | h ∷ rest ↦ (
    (header h s).page_hpa,
    set_header h (record (header h s) { slot_bitmap = 0; global = 1; parent_pte = parent_pte })
        (set_lists rest (h ∷ s.kvm.active_mmu_pages) s),
  )
]

-- The loop over the entries of a page: each is cleared, and what a present one points to is
-- released by `release`.
unfoldable pub release_entries : (ℕ → Machine → Machine) → ℕ → ℕ → Machine → Machine
release_entries release zero pos s = s
release_entries release (suc n) pos s =
    let current_ent = read64 pos s in
    let cleared = write64 pos 0 s in
    release_entries release n (pos + 8) (
      if is_present_pte current_ent
      then release (bit_and current_ent pt64_base_addr_mask) cleared
      else cleared)

-- Level 0 is excluded by an ASSERT of the source.
unfoldable pub release_pt_page_64 : ℕ → ℕ → Machine → Machine
release_pt_page_64 zero page_hpa s = s
release_pt_page_64 (suc zero) page_hpa s = kvm_mmu_free_page page_hpa (clear_page page_hpa s)
release_pt_page_64 (suc (suc level)) page_hpa s =
    kvm_mmu_free_page page_hpa
      (release_entries (release_pt_page_64 (suc level)) pt64_ent_per_page page_hpa s)

-- One step of the loop of `kvm_mmu_flush_tlb`: a page that has a global entry or no parent stays.
unfoldable pub flush_page : ℕ → Machine → Machine
flush_page h s =
    let page = header h s in
    if page.global != 0
    then s
    else if page.parent_pte == 0
    then s
    else release_pt_page_64 1 page.page_hpa (write64 page.parent_pte 0 s)

unfoldable pub flush_pages : List ℕ → Machine → Machine
flush_pages [] s = s
flush_pages (h ∷ hs) s = flush_pages hs (flush_page h s)

unfoldable pub kvm_mmu_flush_tlb : Machine → Machine
kvm_mmu_flush_tlb s =
    let s' = flush_pages s.kvm.active_mmu_pages s in
    record s' { stat = record s'.stat { tlb_flush = s'.stat.tlb_flush + 1 } }

-- The entries from `pos` on lose their write bit.
unfoldable pub protect_entries : ℕ → ℕ → Machine → Machine
protect_entries zero pos s = s
protect_entries (suc n) pos s =
    let pt = read64 pos s in
    protect_entries n (pos + 8)
      (if has pt pt_writable_mask then write64 pos (bit_and pt (not64 pt_writable_mask)) s else s)

unfoldable pub protect_pages : ℕ → List ℕ → Machine → Machine
protect_pages slot [] s = s
protect_pages slot (h ∷ hs) s = protect_pages slot hs (
    if has (header h s).slot_bitmap (2 ^ slot)
    then protect_entries pt64_ent_per_page (header h s).page_hpa s
    else s)

unfoldable pub kvm_mmu_slot_remove_write_access : ℕ → Machine → Machine
kvm_mmu_slot_remove_write_access slot s = protect_pages slot s.kvm.active_mmu_pages s
