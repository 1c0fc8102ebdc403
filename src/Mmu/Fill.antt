-- ===== src/Mmu/Fill.antt =====
-- Where the headers of a new virtual processor are: `alloc_mmu_pages` and `kvm_mmu_init` of
-- src/2006-11-02/kvm-module/mmu.c.
use learn_kvm.Base.{
  ℕ, zero, suc, ◌+◌, ◌≤◌, ◌<◌, ◌≡◌, ◌≢◌, refl, ap, ◌∙◌, inl, inr, false, Option, Option-cases, [],
  ◌==◌, Bool-cases, eq_of_==, ==_of_ne, arith,
}
use learn_kvm.State.{Machine}
use learn_kvm.Status.{Status, success, error}
use learn_kvm.Mmu.Pages.{clear_page}
use learn_kvm.Mmu.Context.{kvm_mmu_init, alloc_mmu_pages}
use learn_kvm.Mmu.Pool.{count, IsPooled, init-IsPooled}
use learn_kvm.Vmx.Masks.{kvm_num_mmu_pages}

-- The headers `i` to `i + n - 1` are put on the free list, each once.
alloc-counts :
    (h n i : ℕ) (alloc : ℕ → Option ℕ) (s : Machine)
    → (alloc_mmu_pages n i alloc s).0 ≡ success
    → h < i + n
    → (h < i → count h s.vcpu.free_pages ≡ 1)
    → (i ≤ h → count h s.vcpu.free_pages ≡ 0)
    → count h (alloc_mmu_pages n i alloc s).1.vcpu.free_pages ≡ 1
unfolding alloc_mmu_pages clear_page count
alloc-counts h zero i alloc s ok lt before after = before (omega arith)
alloc-counts h (suc n) i alloc s ok lt before after = elim (Option-cases (alloc i)) [
  | inl e ↦ absurd (let bad = rw (e, alloc_mmu_pages) at ok in cc)
  | inr (page, e) ↦
      let ok' = rw (e, alloc_mmu_pages) at ok in
      rw (e, alloc_mmu_pages)
        (alloc-counts h n (i + 1) alloc _ ok' (omega arith)
          (λ less. elim (Bool-cases (i == h)) [
            | inl q ↦
                let here : i ≡ h = eq_of_== i h q in
                let none_yet = after (omega arith) in rw q (omega arith)
            | inr q ↦ let ne : i ≢ h = ground arith in let once = before (omega arith) in rw q once
          ])
          (λ more.
            let off : (i == h) ≡ false = ==_of_ne i h (omega arith) in
            let none_yet = after (omega arith) in rw off none_yet))
]

alloc-active :
    (n i : ℕ) (alloc : ℕ → Option ℕ) (s : Machine)
    → (alloc_mmu_pages n i alloc s).0 ≡ success
    → (alloc_mmu_pages n i alloc s).1.kvm ≡ s.kvm
unfolding alloc_mmu_pages clear_page
alloc-active zero i alloc s ok = refl
alloc-active (suc n) i alloc s ok = elim (Option-cases (alloc i)) [
  | inl e ↦ absurd (let bad = rw (e, alloc_mmu_pages) at ok in cc)
  | inr (page, e) ↦
      let ok' = rw (e, alloc_mmu_pages) at ok in
      rw (e, alloc_mmu_pages) (alloc-active n (i + 1) alloc _ ok')
]

-- From a virtual processor with empty lists, if `kvm_mmu_init` succeeds, each of the
-- KVM_NUM_MMU_PAGES headers is on exactly one of the free and the active list, the root among them.
pub mmu_init-IsPooled :
    (h : ℕ) (alloc : ℕ → Option ℕ) (s : Machine)
    → h < kvm_num_mmu_pages
    → s.vcpu.free_pages ≡ []
    → s.kvm.active_mmu_pages ≡ []
    → (kvm_mmu_init alloc s).0 ≡ success
    → IsPooled h (kvm_mmu_init alloc s).1
unfolding kvm_mmu_init count
mmu_init-IsPooled h alloc s lt free active ok = by_status _ refl
  where
    got : Machine
    got = (alloc_mmu_pages kvm_num_mmu_pages 0 alloc s).1

    by_status :
        (r : Status)
        → (alloc_mmu_pages kvm_num_mmu_pages 0 alloc s).0 ≡ r
        → IsPooled h (kvm_mmu_init alloc s).1
    by_status (error x) e = absurd (let bad = rw (e, kvm_mmu_init) at ok in cc)
    by_status success e =
        let empty : count h s.vcpu.free_pages ≡ 0 = ap (count h) free in
        let listed =
          alloc-counts h kvm_num_mmu_pages 0 alloc s e (omega arith) (λ less. absurd (omega arith))
            (λ _. empty) in
        let idle : count h got.kvm.active_mmu_pages ≡ 0 =
          ap (λ k. count h k.active_mmu_pages) (alloc-active kvm_num_mmu_pages 0 alloc s e)
          ∙ ap (count h) active in
        rw (e, kvm_mmu_init) (init-IsPooled h got (omega (arith, listed, idle)))
