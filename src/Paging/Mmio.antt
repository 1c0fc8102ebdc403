-- ===== src/Paging/Mmio.antt =====
-- Shadow entries of addresses that no slot has: `set_pte` of src/2006-11-02/kvm-module/paging_tmpl.h
-- with `set_pte_common` of mmu.c.
use learn_kvm.Base.{
  ℕ, ◌/◌, ◌%◌, ◌^◌, ◌≡◌, refl, ◌∙◌, ap, subst, sym, Bool, true, false, ==_refl, !=_of_ne, none,
  arith, bit_and, bit_or, not64, if◌then◌else◌, shr,
}
use learn_kvm.Bits.{bit, bit_le, bit-and, bit-or, bit-shr, bit_and_assoc, bit_and_self}
use learn_kvm.State.{Machine}
use learn_kvm.Run.{skip, act}
use learn_kvm.Run.Laws.{Returns, returns, bind}
use learn_kvm.Vmcs.{has}
use learn_kvm.Slots.{gfn_to_memslot, mark_page_dirty, gpa_to_hpa, is_error_hpa}
use learn_kvm.Mmu.Pages.{read64, write64}
use learn_kvm.Paging.Guest.{pt64, pt_pte_copy_mask, pt_base_addr_mask}
use learn_kvm.Paging.Entry.{
  set_pte, set_pte_common, with_access, allowed, io_entry, mark_pagetable_nonglobal,
}
use learn_kvm.Vmx.Masks.{
  page_shift, pt_writable_mask, pt_present_mask, pt_dirty_mask, pt_global_mask, pt64_base_addr_mask,
  pt64_pte_copy_mask, pt_shadow_io_mark, hpa_err_mask,
}

-- Not present, and marked for mmio.
abbrev pub IsIo : ℕ → Type 0
IsIo entry = (bit 0 entry ≡ 0) × (bit 9 entry ≡ 1)

io_entry-IsIo : (pte gaddr : ℕ) → IsIo (io_entry pte gaddr)
unfolding io_entry bit
io_entry-IsIo pte gaddr =
    let base = bit_or pte gaddr in
    let x = bit_or base pt_shadow_io_mark in
    let m : ℕ = not64 pt_present_mask in
    (
      omega (arith, bit-and 0 x m),
      omega (arith, bit-and 9 x m, bit-or 9 base pt_shadow_io_mark, bit_le 9 base),
    )

error-hpa : (gpa : ℕ) → is_error_hpa (bit_or gpa hpa_err_mask) ≡ true
unfolding is_error_hpa bit
error-hpa gpa =
    let x = bit_or gpa hpa_err_mask in
    let on : bit 63 x ≡ 1 = omega (arith, bit-or 63 gpa hpa_err_mask, bit_le 63 gpa) in
    let odd : x / 2 ^ 63 % 2 ≡ 1 = bit-shr 63 0 x ∙ on in !=_of_ne (x / 2 ^ 63) 0 (omega arith)

module _ (s : Machine) (gfn : ℕ) (absent : gfn_to_memslot s.kvm gfn ≡ none) where
  mark-Returns : (b : Bool) → Returns (λ _ t. t ≡ s) ((if b then mark_page_dirty gfn else skip) s)
  unfolding mark_page_dirty
  mark-Returns true = rw (absent, mark_page_dirty) (returns refl)
  mark-Returns false = returns refl

  hpa-Returns :
      (gpa : ℕ) (t : Machine)
      → shr gpa page_shift ≡ gfn
      → t ≡ s
      → Returns (λ x u. x ≡ bit_or gpa hpa_err_mask) (gpa_to_hpa gpa t)
  unfolding gpa_to_hpa
  hpa-Returns gpa t e same =
      let there : gfn_to_memslot t.kvm (shr gpa page_shift) ≡ none =
        rw (e, ap (λ (x : Machine). x.kvm) same) absent in
      rw (there, gpa_to_hpa) (returns refl)

nonglobal-Returns :
    (b : Bool) (shadow : ℕ) (s : Machine)
    → Returns (λ _ t. Unit {0}) ((if b then skip else act (mark_pagetable_nonglobal shadow)) s)
unfolding mark_pagetable_nonglobal
nonglobal-Returns true shadow s = returns tt
nonglobal-Returns false shadow s = returns tt

read64-write64 : (pos v : ℕ) (s : Machine) → read64 pos (write64 pos v s) ≡ v
unfolding read64 write64
read64-write64 pos v s = rw (==_refl (pos / 8)) refl

-- A 64-bit guest entry whose frame no slot has: `set_pte` returns, and the shadow entry is not present
-- and is marked for mmio, whatever the guest's entry grants.
pub set_pte-IsIo :
    (guest_pte shadow_pte access_bits : ℕ) (s : Machine)
    → gfn_to_memslot s.kvm (shr (bit_and guest_pte pt64_base_addr_mask) page_shift) ≡ none
    → Returns (λ _ t. IsIo (read64 shadow_pte t)) (set_pte pt64 guest_pte shadow_pte access_bits s)
unfolding set_pte set_pte_common pt_pte_copy_mask pt_base_addr_mask read64 write64
set_pte-IsIo guest shadow access s absent =
    let g : ℕ = bit_and guest pt64_base_addr_mask in
    let inside : bit_and g pt64_base_addr_mask ≡ g =
      bit_and_assoc guest pt64_base_addr_mask pt64_base_addr_mask
      ∙ ap (bit_and guest) (bit_and_self pt64_base_addr_mask) in
    let dirty = has guest pt_dirty_mask in
    let w = has (allowed dirty (bit_and access guest)) pt_writable_mask in
    let pte = with_access (bit_and guest pt64_pte_copy_mask) dirty (bit_and access guest) in
    bind (mark-Returns s (shr g page_shift) absent w) λ _ t e.
      bind
        (hpa-Returns s (shr g page_shift) absent (bit_and g pt64_base_addr_mask) t
          (ap (λ (x : ℕ). shr x page_shift) inside) e)
        λ x u p. bind (nonglobal-Returns (has pte pt_global_mask) shadow u) λ _ v q.
          let bad : is_error_hpa x ≡ true =
            ap is_error_hpa p ∙ error-hpa (bit_and g pt64_base_addr_mask) in
          rw bad (
            returns (
              subst (λ (y : ℕ). IsIo y) (sym (read64-write64 shadow (io_entry pte g) v))
                (io_entry-IsIo pte g)))
