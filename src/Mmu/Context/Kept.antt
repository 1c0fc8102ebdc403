-- ===== src/Mmu/Context/Kept.antt =====
-- What the shadow page tables' code leaves alone: the virtual processor's registers, every field of
-- the VMCS but the shadow root, and the memory configuration.
use learn_kvm.Base.{
  ℕ, zero, suc, ◌+◌, Bool, ◌≡◌, refl, inl, inr, ◌∙◌, ap, List, [], ◌∷◌, ◌==◌, ◌!=◌, Bool-cases, ◌≢◌,
  ==_of_ne, sym, bit_and,
}
use learn_kvm.State.{Machine, Kvm, Rmode, PagingMode}
use learn_kvm.Vmcs.{is_paging, is_long_mode, is_pae, vmcs_writel}
use learn_kvm.Mmu.Pages.{
  read64, write64, is_present_pte, is_valid_page, kvm_mmu_alloc_page, kvm_mmu_free_page,
  release_entries, release_pt_page_64, clear_page, kvm_mmu_flush_tlb, flush_pages, flush_page,
  header,
}
use learn_kvm.Mmu.Nonpaging.{nonpaging_free}
use learn_kvm.Mmu.Context.{
  destroy_kvm_mmu, install, init_kvm_mmu, nonpaging_init_context, paging64_init_context,
  paging32_init_context, paging32e_init_context, kvm_mmu_reset_context,
}
use learn_kvm.Vmx.Field
use learn_kvm.Vmx.Masks.{pt64_base_addr_mask, pt64_ent_per_page}

-- The virtual machine without its list of shadow pages.
abbrev pub configuration : Kvm → Kvm
configuration kvm = record kvm { active_mmu_pages = [] }

-- The part of the state that the processor's modes are in, the memory configuration, and whether there is a
-- VMCS.
abbrev pub modes : Machine → (ℕ → ℕ) × Rmode × Kvm × Bool
modes s = (s.vmcs, s.vcpu.rmode, configuration s.kvm, s.vcpu.vmcs)

release_entries-modes :
    (release : ℕ → Machine → Machine)
    → ((p : ℕ) (s : Machine) → modes (release p s) ≡ modes s)
    → (n pos : ℕ) (s : Machine) → modes (release_entries release n pos s) ≡ modes s
unfolding release_entries write64
release_entries-modes release keeps zero pos s = refl
release_entries-modes release keeps (suc n) pos s =
    elim (Bool-cases (is_present_pte (read64 pos s))) [
      | inl e ↦
          rw (e, release_entries)
            (release_entries-modes release keeps n (pos + 8) _
              ∙ keeps (bit_and (read64 pos s) pt64_base_addr_mask) (write64 pos 0 s))
      | inr e ↦ rw (e, release_entries) (release_entries-modes release keeps n (pos + 8) _)
    ]

pub release-modes :
    (level page : ℕ) (s : Machine) → modes (release_pt_page_64 level page s) ≡ modes s
unfolding release_pt_page_64 kvm_mmu_free_page clear_page
release-modes zero page s = refl
release-modes (suc zero) page s = refl
release-modes (suc (suc level)) page s =
    release_entries-modes (release_pt_page_64 (suc level)) (release-modes (suc level))
      pt64_ent_per_page page s

alloc-modes : (parent : ℕ) (s : Machine) → modes (kvm_mmu_alloc_page parent s).1 ≡ modes s
unfolding kvm_mmu_alloc_page
alloc-modes parent s = by_list s.vcpu.free_pages refl
  where
    by_list :
        (free : List ℕ) → s.vcpu.free_pages ≡ free → modes (kvm_mmu_alloc_page parent s).1 ≡ modes s
    by_list [] e = rw e refl
    by_list (h ∷ free) e = rw e refl

destroy-modes : (s : Machine) → modes (destroy_kvm_mmu s) ≡ modes s
unfolding destroy_kvm_mmu nonpaging_free
destroy-modes s = elim (Bool-cases (is_valid_page s.vcpu.mmu.root_hpa)) [
  | inl e ↦ rw e (release-modes s.vcpu.mmu.shadow_root_level s.vcpu.mmu.root_hpa s)
  | inr e ↦ rw e refl
]

-- Only the shadow root is written; the modes of the virtual processor and the configuration stay.
abbrev pub Kept : Machine → Machine → Type 0
Kept s s' =
    (s'.vcpu.rmode ≡ s.vcpu.rmode)
    × ((f : ℕ) → f ≢ Field.guest_cr3 → s'.vmcs f ≡ s.vmcs f)
    × (configuration s'.kvm ≡ configuration s.kvm)
    × (s'.vcpu.vmcs ≡ s.vcpu.vmcs)

install-modes : (m : PagingMode) (r q : ℕ) (s : Machine) → modes (install m r q s) ≡ modes s
install-modes m r q s = alloc-modes 0 (record s {
  vcpu = record s.vcpu {
    mmu = record s.vcpu.mmu { mode = m; root_level = r; shadow_root_level = q };
  };
})

write-Kept : (v : ℕ) (s t : Machine) → modes t ≡ modes s → Kept s (vmcs_writel Field.guest_cr3 v t)
unfolding vmcs_writel
write-Kept v s t e = (
  ap (λ x. x.1) e,
  λ f ne. rw (==_of_ne Field.guest_cr3 f λ q. ne (sym q)) (ap (λ x. x.0 f) e),
  ap (λ x. x.2) e,
  ap (λ x. x.3) e,
)

pub init-Kept : (s : Machine) → Kept s (init_kvm_mmu s)
unfolding init_kvm_mmu nonpaging_init_context paging64_init_context paging32_init_context
    paging32e_init_context
init-Kept s = elim (Bool-cases (is_paging s)) [
  | inr e ↦ rw e (write-Kept _ s _ (install-modes _ _ _ s))
  | inl e ↦ elim (Bool-cases (is_long_mode s)) [
    | inl l ↦ rw (e, l) (write-Kept _ s _ (install-modes _ _ _ s))
    | inr l ↦ elim (Bool-cases (is_pae s)) [
      | inl p ↦ rw (e, l, p) (write-Kept _ s _ (install-modes _ _ _ s))
      | inr p ↦ rw (e, l, p) (write-Kept _ s _ (install-modes _ _ _ s))
    ]
  ]
]

pub reset-Kept : (s : Machine) → Kept s (kvm_mmu_reset_context s)
unfolding kvm_mmu_reset_context
reset-Kept s =
    let (r, v, k, l) = init-Kept (destroy_kvm_mmu s) in
    let e = destroy-modes s in
    (
      r ∙ ap (λ x. x.1) e,
      λ f ne. v f ne ∙ ap (λ x. x.0 f) e,
      k ∙ ap (λ x. x.2) e,
      l ∙ ap (λ x. x.3) e,
    )

flush_page-modes : (h : ℕ) (s : Machine) → modes (flush_page h s) ≡ modes s
unfolding flush_page write64
flush_page-modes h s = elim (Bool-cases ((header h s).global != 0)) [
  | inl e ↦ rw e refl
  | inr e ↦ elim (Bool-cases ((header h s).parent_pte == 0)) [
    | inl p ↦ rw (e, p) refl
    | inr p ↦ rw (e, p) (release-modes 1 (header h s).page_hpa _)
  ]
]

flush_pages-modes : (hs : List ℕ) (s : Machine) → modes (flush_pages hs s) ≡ modes s
unfolding flush_pages
flush_pages-modes [] s = refl
flush_pages-modes (h ∷ hs) s = flush_pages-modes hs (flush_page h s) ∙ flush_page-modes h s

pub flush_tlb-modes : (s : Machine) → modes (kvm_mmu_flush_tlb s) ≡ modes s
unfolding kvm_mmu_flush_tlb
flush_tlb-modes s = flush_pages-modes s.kvm.active_mmu_pages s
