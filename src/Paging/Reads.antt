-- ===== src/Paging/Reads.antt =====
-- The translation of addresses ends and only reads: `gva_to_hpa` of src/2006-11-02/kvm-module/mmu.c and
-- the walks below it.
use learn_kvm.Base.{
  ℕ, zero, suc, ◌+◌, ◌*◌, ◌≡◌, ◌≢◌, false, refl, inl, inr, ◌∙◌, sym, arith, none, some, Bool-cases,
  Option, Option-cases, bit_and, ◌==◌, shr,
}
use learn_kvm.State.{
  Machine, Kvm, KvmMmu, MemorySlot, unset, nonpaging, paging64, paging32, PagingMode,
}
use learn_kvm.Run.{Outcome}
use learn_kvm.Run.Laws.{Ends, ends, breaks, then-Ends, deref-Ends}
use learn_kvm.Slots.{gfn_to_memslot, gfn_to_page, gpa_to_hpa, safe_gpa_to_hpa}
use learn_kvm.Paging.Guest.{
  PtType, pt64, pt32, GuestWalker, init_walker, fetch_guest, fetch_guest_from, paging_gva_to_gpa,
  stops, element_size, pt_index, read_element, pt_base_addr_mask, page_of,
}
use learn_kvm.Paging.Dispatch.{mmu_gva_to_gpa, gva_to_hpa}
use learn_kvm.Vmx.Masks.{page_shift, unmapped_gva, pt_page_table_level, pt64_base_addr_mask}

-- The reasons why a translation faults: no context has been installed, its tables have no level, or a slot
-- has no page where it should have one, because the array of its pages is NULL or too short or has a NULL entry.
pub data Missing (mmu : KvmMmu) (kvm : Kvm) : Type 0 where
  no_context : mmu.mode ≡ unset → Missing mmu kvm
  no_level : mmu.root_level ≡ 0 → Missing mmu kvm
  no_array :
      (gfn i : ℕ) (m : MemorySlot)
      → gfn_to_memslot kvm gfn ≡ some (i, m)
      → gfn_to_page m gfn ≡ none
      → Missing mmu kvm
  no_page :
      (gfn i : ℕ) (m : MemorySlot)
      → gfn_to_memslot kvm gfn ≡ some (i, m)
      → gfn_to_page m gfn ≡ some none
      → Missing mmu kvm

-- Something is missing in a machine.
abbrev pub Lacks : Machine → Type 0
Lacks s = Missing s.vcpu.mmu s.kvm

-- It returns with the state as it was, or it faults for something that is missing.
abbrev pub Looks : {A : Type 0} → Machine → Outcome A → Type 0
Looks s = Ends (Lacks s) λ _ t. t ≡ s

pub gpa_to_hpa-Looks : (gpa : ℕ) (s : Machine) → Looks s (gpa_to_hpa gpa s)
unfolding gpa_to_hpa
gpa_to_hpa-Looks gpa s =
    let gfn : ℕ = shr gpa page_shift in
    elim (Option-cases (gfn_to_memslot s.kvm gfn)) [
      | inl e ↦ rw (e, gpa_to_hpa) (ends refl)
      | inr ((i, slot), e) ↦
          rw (e, gpa_to_hpa)
            (then-Ends (deref-Ends (gfn_to_page slot gfn) s λ q. no_array gfn i slot e q)
              λ (x : Option ℕ) t (there, p).
                then-Ends (deref-Ends x t λ z. no_page gfn i slot e (rw z at there))
                  λ y u q. ends (q.1 ∙ p))
    ]

safe-Looks : (gpa : ℕ) (s : Machine) → Looks s (safe_gpa_to_hpa gpa s)
unfolding safe_gpa_to_hpa
safe-Looks gpa s = then-Ends (gpa_to_hpa-Looks gpa s) λ _ t p. ends p

-- The walk to the last level stops there at the latest.
goes_on :
    (t : PtType) (level ent : ℕ) (s : Machine)
    → stops t pt_page_table_level (suc level) ent s ≡ false
    → level ≢ 0
unfolding stops
goes_on t zero ent s e z = absurd cc
goes_on t (suc level) ent s e z = absurd (omega arith)

walk-Looks :
    (t : PtType) (addr level table ar : ℕ) (s : Machine)
    → (level ≡ 0 → Lacks s)
    → Looks s (fetch_guest_from t pt_page_table_level addr level table ar s)
unfolding fetch_guest_from
walk-Looks t addr zero table ar s why = breaks (why refl)
walk-Looks t addr (suc level) table ar s why =
    let ent = read_element t (table + element_size t * pt_index t addr (suc level)) s in
    elim (Bool-cases (stops t pt_page_table_level (suc level) ent s)) [
      | inl e ↦ rw (e, fetch_guest_from) (ends refl)
      | inr e ↦
          rw (e, fetch_guest_from)
            (then-Ends (safe-Looks (bit_and ent (pt_base_addr_mask t)) s) λ paddr u p.
              rw p (
                walk-Looks t addr level (page_of paddr) _ s
                  λ z. absurd (goes_on t level ent s e z)))
    ]

walker-Looks :
    (s : Machine)
    → Ends
        (Lacks s)
        (λ (w : GuestWalker) t. (w.level ≡ s.vcpu.mmu.root_level) × (t ≡ s))
        (init_walker s)
unfolding init_walker
walker-Looks s =
    then-Ends (safe-Looks (bit_and s.vcpu.cr3 pt64_base_addr_mask) s) λ _ u p. ends (refl, p)

paging-Looks : (t : PtType) (gva : ℕ) (s : Machine) → Looks s (paging_gva_to_gpa t gva s)
unfolding paging_gva_to_gpa fetch_guest
paging-Looks t gva s = then-Ends (walker-Looks s) λ (w : GuestWalker) u (level, p). rw p (
    then-Ends (walk-Looks t gva w.level w.table w.inherited_ar s λ z. no_level (sym level ∙ z))
      λ _ v q. ends q)

pub mmu_gva_to_gpa-Looks : (gva : ℕ) (s : Machine) → Looks s (mmu_gva_to_gpa gva s)
unfolding mmu_gva_to_gpa
mmu_gva_to_gpa-Looks gva s = by_mode s.vcpu.mmu.mode refl
  where
    by_mode : (m : PagingMode) → s.vcpu.mmu.mode ≡ m → Looks s (mmu_gva_to_gpa gva s)
    by_mode unset e = simp (e, mmu_gva_to_gpa) (breaks (no_context e))
    by_mode nonpaging e = simp (e, mmu_gva_to_gpa) (ends refl)
    by_mode paging64 e = simp (e, mmu_gva_to_gpa) (paging-Looks pt64 gva s)
    by_mode paging32 e = simp (e, mmu_gva_to_gpa) (paging-Looks pt32 gva s)

pub gva_to_hpa-Looks : (gva : ℕ) (s : Machine) → Looks s (gva_to_hpa gva s)
unfolding gva_to_hpa
gva_to_hpa-Looks gva s = then-Ends (mmu_gva_to_gpa-Looks gva s) λ (gpa : ℕ) t p.
    elim (Bool-cases (gpa == unmapped_gva)) [
      | inl e ↦ rw e (ends p)
      | inr e ↦ rw (e, p) (gpa_to_hpa-Looks gpa s)
    ]
