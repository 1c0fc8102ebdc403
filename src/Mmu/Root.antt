-- ===== src/Mmu/Root.antt =====
-- The root of a new virtual processor's shadow page tables: `kvm_mmu_init` of
-- src/2006-11-02/kvm-module/mmu.c, when the kernel has a page for every header.
use learn_kvm.Base.{
  ℕ, zero, suc, ◌+◌, ◌*◌, ◌/◌, ◌^◌, ◌≤◌, ◌<◌, ◌≡◌, refl, false, Option, some, List, ◌∷◌, arith,
  ==_refl,
}
use learn_kvm.State.{Machine}
use learn_kvm.Status.{success}
use learn_kvm.Vmcs.{update, is_paging, vmcs_writel}
use learn_kvm.Mmu.Pages.{kvm_mmu_alloc_page, header, clear_page}
use learn_kvm.Mmu.Context.{alloc_mmu_pages, init_kvm_mmu, nonpaging_init_context}
use learn_kvm.Vmx.Field
use learn_kvm.Vmx.Masks.{kvm_num_mmu_pages}

-- The kernel has a page below 1 TiB for every header.
abbrev pub IsPlentiful : (ℕ → Option ℕ) → Type 0
IsPlentiful alloc =
    (i : ℕ) → i < kvm_num_mmu_pages → (page : ℕ) × (alloc i ≡ some page) × (page < 2 ^ 28)

-- A page below 1 TiB whose words are 0.
pub record IsBlank (hpa : ℕ) (s : Machine) : Type 0 where
  pub number : ℕ
  pub aligned : hpa ≡ number * 2 ^ 12
  pub low : number < 2 ^ 28
  pub blank : (w : ℕ) → w < 512 → s.mem (hpa / 8 + w) ≡ 0

-- The next page that the pool gives is blank.
pub record HasBlank (s : Machine) : Type 0 where
  pub next : ℕ
  pub rest : List ℕ
  pub free : s.vcpu.free_pages ≡ next ∷ rest
  pub page : IsBlank (header next s).page_hpa s

pub alloc-HasBlank :
    (n i : ℕ) (alloc : ℕ → Option ℕ) (s : Machine)
    → IsPlentiful alloc
    → i + suc n ≤ kvm_num_mmu_pages
    → ((alloc_mmu_pages (suc n) i alloc s).0 ≡ success)
      × HasBlank (alloc_mmu_pages (suc n) i alloc s).1
unfolding alloc_mmu_pages clear_page
alloc-HasBlank (suc n) i alloc s plenty fits =
    let (page, e, low) = plenty i (omega arith) in
    rw (e, alloc_mmu_pages) (alloc-HasBlank n (i + 1) alloc _ plenty (omega arith))
alloc-HasBlank zero i alloc s plenty fits =
    let (page, e, low) = plenty i (omega arith) in
    rw (e, alloc_mmu_pages)
      (
        refl,
        record {
          next = i;
          rest = s.vcpu.free_pages;
          free = refl;
          page = rw (==_refl i) (record {
            number = page;
            aligned = omega arith;
            low = low;
            blank = λ w h. ground arith;
          });
        },
      )

-- The context of a guest that does not page starts at a blank page, and CR3 points to it.
pub record Rooted (s u : Machine) : Type 0 where
  pub root : ℕ
  pub vmcs : u.vmcs ≡ update s.vmcs Field.guest_cr3 root
  pub page : IsBlank root u

pub init-Rooted : (s : Machine) → HasBlank s → is_paging s ≡ false → Rooted s (init_kvm_mmu s)
unfolding init_kvm_mmu nonpaging_init_context kvm_mmu_alloc_page vmcs_writel
init-Rooted s b e = rw e (
    simp (b.free, kvm_mmu_alloc_page)
      (record {
        root = (header b.next s).page_hpa;
        vmcs = refl;
        page = record {
          number = b.page.number;
          aligned = b.page.aligned;
          low = b.page.low;
          blank = b.page.blank;
        };
      }))
