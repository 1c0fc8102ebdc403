-- ===== src/Mmu/Context.antt =====
-- Setting the unit up for the guest's paging mode and taking it down:
-- `*_init_context`, `init_kvm_mmu`, `kvm_mmu_reset_context`, `kvm_mmu_init`, `kvm_mmu_destroy` of
-- src/2006-11-02/kvm-module/mmu.c.
pub mod Kept
use learn_kvm.Base.{
  ℕ, zero, suc, ◌+◌, List, [], ◌∷◌, Option, none, some, not, if◌then◌else◌, bit_and, bit_or, shl64,
}
use learn_kvm.State.{Machine, PagingMode, nonpaging, paging64, paging32}
use learn_kvm.Status.{Status, success, error, enomem}
use learn_kvm.Vmcs.{is_paging, is_long_mode, is_pae, vmcs_writel, update}
use learn_kvm.Mmu.Pages.{header, set_header, clear_page, is_valid_page, kvm_mmu_alloc_page}
use learn_kvm.Mmu.Nonpaging.{set_root, nonpaging_free}
use learn_kvm.Vmx.Field
use learn_kvm.Vmx.Masks.{
  page_shift, pt64_root_level, pt32_root_level, pt32e_root_level, cr3_pcd_mask, cr3_wpt_mask,
  kvm_num_mmu_pages, invalid_page,
}

-- The levels and the functions of a context, and a fresh root.
abbrev pub install : PagingMode → ℕ → ℕ → Machine → Machine
install mode root_level shadow_root_level s =
    let context = record s.vcpu.mmu {
      mode = mode;
      root_level = root_level;
      shadow_root_level = shadow_root_level;
    } in
    let (root, s') = kvm_mmu_alloc_page 0 (record s { vcpu = record s.vcpu { mmu = context } }) in
    set_root root s'

unfoldable pub nonpaging_init_context : Machine → Machine
nonpaging_init_context s =
    let s' = install nonpaging pt32e_root_level pt32e_root_level s in
    vmcs_writel Field.guest_cr3 s'.vcpu.mmu.root_hpa s'

-- GUEST_CR3 of a paging context: the shadow root with the guest's cache bits.
abbrev pub load_root : Machine → Machine
load_root s =
    vmcs_writel Field.guest_cr3
      (bit_or s.vcpu.mmu.root_hpa (bit_and s.vcpu.cr3 (bit_or cr3_pcd_mask cr3_wpt_mask))) s

unfoldable pub paging64_init_context : Machine → Machine
paging64_init_context s = load_root (install paging64 pt64_root_level pt64_root_level s)

unfoldable pub paging32_init_context : Machine → Machine
paging32_init_context s = load_root (install paging32 pt32_root_level pt32e_root_level s)

unfoldable pub paging32e_init_context : Machine → Machine
paging32e_init_context s =
    let s' = paging64_init_context s in
    record s' {
      vcpu = record s'.vcpu {
        mmu = record s'.vcpu.mmu {
          root_level = pt32e_root_level;
          shadow_root_level = pt32e_root_level;
        };
      };
    }

unfoldable pub init_kvm_mmu : Machine → Machine
init_kvm_mmu s =
    if not (is_paging s)
    then nonpaging_init_context s
    else if is_long_mode s
    then paging64_init_context s
    else if is_pae s
    then paging32e_init_context s
    else paging32_init_context s

-- Every context's `free` is `nonpaging_free`, directly or through `paging_free`.
unfoldable pub destroy_kvm_mmu : Machine → Machine
destroy_kvm_mmu s =
    if is_valid_page s.vcpu.mmu.root_hpa then set_root invalid_page (nonpaging_free s) else s

unfoldable pub kvm_mmu_reset_context : Machine → Machine
kvm_mmu_reset_context s = init_kvm_mmu (destroy_kvm_mmu s)

-- Every page of the free list goes back to the kernel.
unfoldable pub free_mmu_pages_list : List ℕ → Machine → Machine
free_mmu_pages_list [] s = s
free_mmu_pages_list (h ∷ hs) s =
    free_mmu_pages_list hs (set_header h (record (header h s) { page_hpa = invalid_page }) s)

unfoldable pub free_mmu_pages : Machine → Machine
free_mmu_pages s =
    let s' = free_mmu_pages_list s.vcpu.free_pages s in
    record s' { vcpu = record s'.vcpu { free_pages = [] } }

-- The pages from header `i` on, `n` of them; `alloc i` is the answer of the kernel's `alloc_page`.
unfoldable pub alloc_mmu_pages : ℕ → ℕ → (ℕ → Option ℕ) → Machine → Status × Machine
alloc_mmu_pages zero i alloc s = (success, s)
alloc_mmu_pages (suc n) i alloc s = elim (alloc i) [
  | none ↦ (error enomem, free_mmu_pages s)
  | some page ↦
      let hpa = shl64 page page_shift in
      let owned = record s { private = update s.private page i } in
      let headed = set_header i (record (header i owned) { page_hpa = hpa }) owned in
      let cleared = clear_page hpa headed in
      alloc_mmu_pages n (i + 1) alloc
        (record cleared { vcpu = record cleared.vcpu { free_pages = i ∷ cleared.vcpu.free_pages } })
]

unfoldable pub kvm_mmu_init : (ℕ → Option ℕ) → Machine → Status × Machine
kvm_mmu_init alloc s =
    let (status, s') = alloc_mmu_pages kvm_num_mmu_pages 0 alloc s in
    elim status [ success ↦ (success, init_kvm_mmu s') | error e ↦ (error e, s') ]

unfoldable pub kvm_mmu_destroy : Machine → Machine
kvm_mmu_destroy s = free_mmu_pages (destroy_kvm_mmu s)
