-- ===== src/Mmu/Pool.antt =====
-- The pool of shadow pages: where the header of a page is.
use learn_kvm.Base.{
  ℕ, zero, suc, ◌+◌, ◌≡◌, refl, inl, inr, ◌∙◌, ap, sym, List, [], ◌∷◌, false, ◌==◌, ◌!=◌,
  Bool-cases, arith, bit_and, eq_of_==, if◌then◌else◌,
}
use learn_kvm.State.{Machine, PagingMode}
use learn_kvm.Vmcs.{is_paging, is_long_mode, is_pae, vmcs_writel}
use learn_kvm.Mmu.Pages.{
  read64, write64, is_present_pte, is_valid_page, page_header, header, unlink, kvm_mmu_alloc_page,
  kvm_mmu_free_page, release_entries, release_pt_page_64, clear_page, kvm_mmu_flush_tlb,
  flush_pages, flush_page,
}
use learn_kvm.Mmu.Nonpaging.{nonpaging_free}
use learn_kvm.Mmu.Context.{
  destroy_kvm_mmu, install, init_kvm_mmu, nonpaging_init_context, paging64_init_context,
  paging32_init_context, paging32e_init_context, kvm_mmu_reset_context,
}
use learn_kvm.Vmx.Masks.{pt64_base_addr_mask, pt64_ent_per_page}

-- How often a header is on a list.
unfoldable pub count : ℕ → List ℕ → ℕ
count h [] = 0
count h (x ∷ xs) = if x == h then suc (count h xs) else count h xs

count-unlink_self : (h : ℕ) (xs : List ℕ) → count h (unlink h xs) ≡ 0
unfolding count unlink
count-unlink_self h [] = refl
count-unlink_self h (x ∷ xs) = elim (Bool-cases (x == h)) [
  | inl e ↦ rw e (count-unlink_self h xs)
  | inr e ↦ rw (e, e) (count-unlink_self h xs)
]

count-unlink_other : (h k : ℕ) (xs : List ℕ) → (k == h) ≡ false → count h (unlink k xs) ≡ count h xs
unfolding count unlink
count-unlink_other h k [] ne = refl
count-unlink_other h k (x ∷ xs) ne = elim (Bool-cases (x == k)) [
  | inl e ↦
      let same : x ≡ k = eq_of_== x k e in
      let away : (x == h) ≡ false = ap (λ (y : ℕ). y == h) same ∙ ne in
      rw (e, away) (count-unlink_other h k xs ne)
  | inr e ↦ elim (Bool-cases (x == h)) [
    | inl q ↦ rw (e, q) (ap (λ (n : ℕ). suc n) (count-unlink_other h k xs ne))
    | inr q ↦ rw (e, q) (count-unlink_other h k xs ne)
  ]
]

-- The header is on exactly one of the two lists, and there once.
abbrev pub IsPooled : ℕ → Machine → Type 0
IsPooled h s = count h s.vcpu.free_pages + count h s.kvm.active_mmu_pages ≡ 1

module _ (h : ℕ) where
  free_page-IsPooled :
      (page : ℕ) (s : Machine) → IsPooled h s → IsPooled h (kvm_mmu_free_page page s)
  unfolding kvm_mmu_free_page count
  free_page-IsPooled page s p =
      let k : ℕ = page_header page s in
      elim (Bool-cases (k == h)) [
        | inl e ↦
            let same : k ≡ h = eq_of_== k h e in
            let a : count h (unlink k s.vcpu.free_pages) ≡ 0 =
              ap (λ (x : ℕ). count h (unlink x s.vcpu.free_pages)) same
              ∙ count-unlink_self h s.vcpu.free_pages in
            let b : count h (unlink k s.kvm.active_mmu_pages) ≡ 0 =
              ap (λ (x : ℕ). count h (unlink x s.kvm.active_mmu_pages)) same
              ∙ count-unlink_self h s.kvm.active_mmu_pages in
            rw (e, a, b) refl
        | inr e ↦
            rw
              (
                e,
                count-unlink_other h k s.vcpu.free_pages e,
                count-unlink_other h k s.kvm.active_mmu_pages e,
              )
              p
      ]

  moved :
      (k : ℕ) (free active : List ℕ)
      → count h (k ∷ free) + count h active ≡ 1
      → count h free + count h (k ∷ active) ≡ 1
  unfolding count
  moved k free active p = elim (Bool-cases (k == h)) [
    | inl e ↦ let q = rw e at p in rw e (omega arith)
    | inr e ↦ let q = rw e at p in rw e q
  ]

  alloc_page-IsPooled :
      (parent : ℕ) (s : Machine) → IsPooled h s → IsPooled h (kvm_mmu_alloc_page parent s).1
  unfolding kvm_mmu_alloc_page count
  alloc_page-IsPooled parent s p = by_list s.vcpu.free_pages refl
    where
      by_list :
          (free : List ℕ) → s.vcpu.free_pages ≡ free → IsPooled h (kvm_mmu_alloc_page parent s).1
      by_list [] e = rw (e, kvm_mmu_alloc_page) p
      by_list (k ∷ free) e =
          rw (e, kvm_mmu_alloc_page)
            (moved k free s.kvm.active_mmu_pages
              (ap (λ (xs : List ℕ). count h xs + count h s.kvm.active_mmu_pages) (sym e) ∙ p))

  entries-IsPooled :
      (release : ℕ → Machine → Machine)
      → ((p : ℕ) (s : Machine) → IsPooled h s → IsPooled h (release p s))
      → (n pos : ℕ) (s : Machine) → IsPooled h s
      → IsPooled h (release_entries release n pos s)
  unfolding release_entries write64
  entries-IsPooled release keeps zero pos s p = p
  entries-IsPooled release keeps (suc n) pos s p =
      elim (Bool-cases (is_present_pte (read64 pos s))) [
        | inl e ↦
            rw (e, release_entries)
              (entries-IsPooled release keeps n (pos + 8) _
                (keeps (bit_and (read64 pos s) pt64_base_addr_mask) (write64 pos 0 s) p))
        | inr e ↦ rw (e, release_entries) (entries-IsPooled release keeps n (pos + 8) _ p)
      ]

  release-IsPooled :
      (level page : ℕ) (s : Machine) → IsPooled h s → IsPooled h (release_pt_page_64 level page s)
  unfolding release_pt_page_64 clear_page
  release-IsPooled zero page s p = p
  release-IsPooled (suc zero) page s p = free_page-IsPooled page (clear_page page s) p
  release-IsPooled (suc (suc level)) page s p = free_page-IsPooled page _ (
      entries-IsPooled (release_pt_page_64 (suc level)) (release-IsPooled (suc level))
        pt64_ent_per_page page s p)

  flush_page-IsPooled : (k : ℕ) (s : Machine) → IsPooled h s → IsPooled h (flush_page k s)
  unfolding flush_page write64
  flush_page-IsPooled k s p = elim (Bool-cases ((header k s).global != 0)) [
    | inl e ↦ rw (e, flush_page) p
    | inr e ↦ elim (Bool-cases ((header k s).parent_pte == 0)) [
      | inl q ↦ rw (e, q, flush_page) p
      | inr q ↦
          rw (e, q, flush_page)
            (release-IsPooled 1 (header k s).page_hpa (write64 (header k s).parent_pte 0 s) p)
    ]
  ]

  flush_pages-IsPooled : (ks : List ℕ) (s : Machine) → IsPooled h s → IsPooled h (flush_pages ks s)
  unfolding flush_pages
  flush_pages-IsPooled [] s p = p
  flush_pages-IsPooled (k ∷ ks) s p =
      flush_pages-IsPooled ks (flush_page k s) (flush_page-IsPooled k s p)

  destroy-IsPooled : (s : Machine) → IsPooled h s → IsPooled h (destroy_kvm_mmu s)
  unfolding destroy_kvm_mmu nonpaging_free
  destroy-IsPooled s p = elim (Bool-cases (is_valid_page s.vcpu.mmu.root_hpa)) [
    | inl e ↦
        rw (e, destroy_kvm_mmu, nonpaging_free)
          (release-IsPooled s.vcpu.mmu.shadow_root_level s.vcpu.mmu.root_hpa s p)
    | inr e ↦ rw (e, destroy_kvm_mmu) p
  ]

  install-IsPooled :
      (m : PagingMode) (r q : ℕ) (s : Machine) → IsPooled h s → IsPooled h (install m r q s)
  install-IsPooled m r q s p =
      alloc_page-IsPooled 0
        (record s {
          vcpu = record s.vcpu {
            mmu = record s.vcpu.mmu { mode = m; root_level = r; shadow_root_level = q };
          };
        })
        p

  pub init-IsPooled : (s : Machine) → IsPooled h s → IsPooled h (init_kvm_mmu s)
  unfolding init_kvm_mmu nonpaging_init_context paging64_init_context paging32_init_context
      paging32e_init_context vmcs_writel
  init-IsPooled s p = elim (Bool-cases (is_paging s)) [
    | inr e ↦ rw (e, init_kvm_mmu) (install-IsPooled _ _ _ s p)
    | inl e ↦ elim (Bool-cases (is_long_mode s)) [
      | inl l ↦ rw (e, l, init_kvm_mmu) (install-IsPooled _ _ _ s p)
      | inr l ↦ elim (Bool-cases (is_pae s)) [
        | inl q ↦ rw (e, l, q, init_kvm_mmu) (install-IsPooled _ _ _ s p)
        | inr q ↦ rw (e, l, q, init_kvm_mmu) (install-IsPooled _ _ _ s p)
      ]
    ]
  ]

-- One operation on the pool: a page is taken or given back, the tables below a page are released, the
-- shadow is flushed, or the context is set up again.
pub data PoolStep : Machine → Machine → Type 0 where
  takes : (parent : ℕ) {s : Machine} → PoolStep s (kvm_mmu_alloc_page parent s).1
  gives : (page : ℕ) {s : Machine} → PoolStep s (kvm_mmu_free_page page s)
  releases : (level page : ℕ) {s : Machine} → PoolStep s (release_pt_page_64 level page s)
  flushes : {s : Machine} → PoolStep s (kvm_mmu_flush_tlb s)
  resets : {s : Machine} → PoolStep s (kvm_mmu_reset_context s)

-- A header that is on exactly one of the free and the active list, and there once, is so after
-- kvm_mmu_alloc_page, kvm_mmu_free_page, release_pt_page_64, kvm_mmu_flush_tlb or kvm_mmu_reset_context.
pub PoolStep-IsPooled : (h : ℕ) (s t : Machine) → PoolStep s t → IsPooled h s → IsPooled h t
unfolding kvm_mmu_flush_tlb kvm_mmu_reset_context
PoolStep-IsPooled h s t (takes parent) p = alloc_page-IsPooled h parent s p
PoolStep-IsPooled h s t (gives page) p = free_page-IsPooled h page s p
PoolStep-IsPooled h s t (releases level page) p = release-IsPooled h level page s p
PoolStep-IsPooled h s t flushes p = flush_pages-IsPooled h s.kvm.active_mmu_pages s p
PoolStep-IsPooled h s t resets p = init-IsPooled h (destroy_kvm_mmu s) (destroy-IsPooled h s p)
