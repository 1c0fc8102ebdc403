-- ===== src/Paging/Rights.antt =====
-- Which accesses a shadow entry grants: `set_pte` of src/2006-11-02/kvm-module/paging_tmpl.h for
-- 64-bit guest entries, with `set_pte_common` of mmu.c.
use learn_kvm.Base.{
  ℕ, ◌/◌, ◌-◌, ◌^◌, ◌≤◌, ◌<◌, ◌≡◌, refl, ◌∙◌, ap, subst, ==_refl, sym, Bool, true, false, some,
  none, arith, bit_and, bit_or, not64, if◌then◌else◌, min, max, shl64, shr,
}
use learn_kvm.Bits.{
  bit, bit_le, bit-and, bit-or, bit_and_assoc, bit_and_self, bit_and_comm, bit_or-lt, bit_and-lt,
}
use learn_kvm.State.{Machine, MemorySlot}
use learn_kvm.Run.{skip, act}
use learn_kvm.Run.Laws.{Returns, returns, bind, weaken}
use learn_kvm.Vmcs.{has}
use learn_kvm.Vmcs.Laws.{has-bit}
use learn_kvm.Slots.{gfn_to_memslot, gfn_to_page, mark_page_dirty, gpa_to_hpa, is_error_hpa}
use learn_kvm.Mmu.Pages.{read64, write64}
use learn_kvm.Mmu.Nonpaging.{page_header_update_slot}
use learn_kvm.Paging.Guest.{pt64, pt_pte_copy_mask, pt_base_addr_mask}
use learn_kvm.Paging.Entry.{set_pte, set_pte_common, with_access, allowed, mark_pagetable_nonglobal}
use learn_kvm.Vmx.Masks.{
  page_shift, page_size, pt_writable_mask, pt_dirty_mask, pt_global_mask, pt64_base_addr_mask,
  pt64_pte_copy_mask,
}

-- The rights that the guest's entry and the entries above it leave: present, write, user.
pub record Grants (guest_pte access_bits entry : ℕ) : Type 0 where
  pub present : bit 0 entry ≡ bit 0 guest_pte
  pub write : bit 1 entry ≡ min (min (bit 1 access_bits) (bit 1 guest_pte)) (bit 6 guest_pte)
  pub user : bit 2 entry ≡ min (bit 2 access_bits) (bit 2 guest_pte)

low_bits_of_page :
    (page : ℕ)
    → (bit 0 (shl64 page 12) ≡ 0) × (bit 1 (shl64 page 12) ≡ 0) × (bit 2 (shl64 page 12) ≡ 0)
unfolding bit
low_bits_of_page page = (omega arith, omega arith, omega arith)

allowed_bits :
    (dirty : Bool) (a : ℕ)
    → (bit 0 (allowed dirty a) ≡ bit 0 a)
      × (bit 1 (allowed dirty a) ≡ (if dirty then bit 1 a else 0))
      × (bit 2 (allowed dirty a) ≡ bit 2 a)
unfolding allowed bit
allowed_bits true a = (refl, refl, refl)
allowed_bits false a =
    let m : ℕ = not64 pt_writable_mask in
    (
      omega (arith, bit-and 0 a m, bit_le 0 a),
      omega (arith, bit-and 1 a m, bit_le 1 a),
      omega (arith, bit-and 2 a m, bit_le 2 a),
    )

dirty_bit : (g b : ℕ) → b ≤ 1 → (if has g pt_dirty_mask then b else 0) ≡ min b (bit 6 g)
dirty_bit g b h = rw (has-bit 6 g) (ground (arith, bit_le 6 g))

module _ (guest access page : ℕ) where
  abbrev stored : ℕ
  stored =
      bit_or
        (with_access (bit_and guest pt64_pte_copy_mask) (has guest pt_dirty_mask)
          (bit_and access guest))
        (bit_or (shl64 page page_shift)
          (bit_and (bit_and guest pt64_base_addr_mask) (page_size - 1)))

  -- The bits of the entry that is stored.
  bit-stored :
      (k : ℕ)
      → bit k stored
        ≡ max
            (max
              (max
                (min (bit k guest) (bit k pt64_pte_copy_mask))
                (bit k (shl64 (bit_and access guest) 9)))
              (bit k (allowed (has guest pt_dirty_mask) (bit_and access guest))))
            (max
              (bit k (shl64 page 12))
              (min (min (bit k guest) (bit k pt64_base_addr_mask)) (bit k 4095)))
  unfolding with_access
  bit-stored k =
      let a = bit_and access guest in
      let c = bit_and guest pt64_pte_copy_mask in
      let w = allowed (has guest pt_dirty_mask) a in
      let g = bit_and guest pt64_base_addr_mask in
      rw
        (
          bit-or k (bit_or (bit_or c (shl64 a 9)) w) (bit_or (shl64 page 12) (bit_and g 4095)),
          bit-or k (bit_or c (shl64 a 9)) w,
          bit-or k c (shl64 a 9),
          bit-and k guest pt64_pte_copy_mask,
          bit-or k (shl64 page 12) (bit_and g 4095),
          bit-and k g 4095,
          bit-and k guest pt64_base_addr_mask,
        )
        refl

  -- Bits 0 to 2 of what is shifted past them.
  shifted_bits :
      (x : ℕ) → (bit 0 (shl64 x 9) ≡ 0) × (bit 1 (shl64 x 9) ≡ 0) × (bit 2 (shl64 x 9) ≡ 0)
  unfolding bit
  shifted_bits x = (omega arith, omega arith, omega arith)

  stored-Grants : Grants guest access stored
  unfolding bit
  stored-Grants =
      let a = bit_and access guest in
      let (a0, a1, a2) = allowed_bits (has guest pt_dirty_mask) a in
      let (p0, p1, p2) = low_bits_of_page page in
      let (q0, q1, q2) = shifted_bits a in
      record {
        present =
            bit-stored 0
            ∙ rw (a0, p0, q0, bit-and 0 access guest)
                (omega (arith, bit_le 0 guest, bit_le 0 access));
        write =
            bit-stored 1
            ∙ rw (a1, p1, q1, dirty_bit guest (bit 1 a) (bit_le 1 a), bit-and 1 access guest)
                (omega (arith, bit_le 1 guest));
        user =
            bit-stored 2 ∙ rw (a2, p2, q2, bit-and 2 access guest) (omega (arith, bit_le 2 guest));
      }

module _ (s : Machine) (gfn : ℕ) (i : ℕ) (m : MemorySlot)
    (found : gfn_to_memslot s.kvm gfn ≡ some (i, m)) where
  mark-Returns :
      (b : Bool)
      → m.dirty_bitmap ≡ none
      → Returns (λ _ t. t ≡ s) ((if b then mark_page_dirty gfn else skip) s)
  unfolding mark_page_dirty
  mark-Returns true off = rw (found, off, mark_page_dirty) (returns refl)
  mark-Returns false off = returns refl

  update-Returns :
      (pte gpa : ℕ) (t : Machine)
      → shr gpa page_shift ≡ gfn
      → t.kvm ≡ s.kvm
      → Returns (λ _ u. u.mem ≡ t.mem) (page_header_update_slot pte gpa t)
  unfolding page_header_update_slot
  update-Returns pte gpa t e k =
      let there : gfn_to_memslot t.kvm (shr gpa page_shift) ≡ some (i, m) = rw (e, k) found in
      rw (there, page_header_update_slot) (returns refl)

  hpa-Returns :
      (gpa page : ℕ) (t : Machine)
      → shr gpa page_shift ≡ gfn
      → gfn_to_page m gfn ≡ some (some page)
      → t ≡ s
      → Returns
          (λ x u.
            (x ≡ bit_or (shl64 page page_shift) (bit_and gpa (page_size - 1))) × (u.kvm ≡ s.kvm))
          (gpa_to_hpa gpa t)
  unfolding gpa_to_hpa
  hpa-Returns gpa page t e p same =
      let there : gfn_to_memslot t.kvm (shr gpa page_shift) ≡ some (i, m) =
        rw (e, ap (λ (x : Machine). x.kvm) same) found in
      let here : gfn_to_page m (shr gpa page_shift) ≡ some (some page) = rw e p in
      rw (there, here, gpa_to_hpa) (returns (refl, ap (λ (x : Machine). x.kvm) same))

nonglobal-Returns :
    (b : Bool) (shadow : ℕ) (s : Machine)
    → Returns (λ _ t. t.kvm ≡ s.kvm) ((if b then skip else act (mark_pagetable_nonglobal shadow)) s)
unfolding mark_pagetable_nonglobal
nonglobal-Returns true shadow s = returns refl
nonglobal-Returns false shadow s = returns refl

-- Where the guest's address is that of a page.
is_error-hpa :
    (page g : ℕ) → page < 2 ^ 51 → is_error_hpa (bit_or (shl64 page 12) (bit_and g 4095)) ≡ false
unfolding is_error_hpa
is_error-hpa page g h =
    let small : bit_and g 4095 < 2 ^ 63 =
      omega (arith, bit_and_comm g 4095, bit_and-lt 63 4095 g (omega arith)) in
    let lt : bit_or (shl64 page 12) (bit_and g 4095) < 2 ^ 63 =
      bit_or-lt 63 _ _ (omega arith) small in
    let z : bit_or (shl64 page 12) (bit_and g 4095) / 2 ^ 63 ≡ 0 = omega arith in rw z refl

-- A 64-bit guest entry whose frame is a page of a slot without dirty logging: `set_pte` returns, and
-- the shadow entry is present exactly if the guest's is, is writable exactly if the guest's entry and
-- the ones above it are and the guest's page is marked dirty, and is open to user mode exactly if the
-- guest's entry and the ones above it are.
pub set_pte-Grants :
    (guest_pte shadow_pte access_bits : ℕ) (s : Machine) (i page : ℕ) (m : MemorySlot)
    → gfn_to_memslot s.kvm (shr (bit_and guest_pte pt64_base_addr_mask) page_shift) ≡ some (i, m)
    → m.dirty_bitmap ≡ none
    → gfn_to_page m (shr (bit_and guest_pte pt64_base_addr_mask) page_shift) ≡ some (some page)
    → page < 2 ^ 51
    → Returns
        (λ _ t. Grants guest_pte access_bits (read64 shadow_pte t))
        (set_pte pt64 guest_pte shadow_pte access_bits s)
unfolding set_pte set_pte_common pt_pte_copy_mask pt_base_addr_mask read64 write64
set_pte-Grants guest shadow access s i page m found off backed small =
    let g : ℕ = bit_and guest pt64_base_addr_mask in
    let inside : bit_and g pt64_base_addr_mask ≡ g =
      bit_and_assoc guest pt64_base_addr_mask pt64_base_addr_mask
      ∙ ap (bit_and guest) (bit_and_self pt64_base_addr_mask) in
    let dirty = has guest pt_dirty_mask in
    let w = has (allowed dirty (bit_and access guest)) pt_writable_mask in
    let pte = with_access (bit_and guest pt64_pte_copy_mask) dirty (bit_and access guest) in
    bind (mark-Returns s (shr g page_shift) i m found w off) λ _ t e.
      bind
        (hpa-Returns s (shr g page_shift) i m found (bit_and g pt64_base_addr_mask) page t
          (ap (λ (x : ℕ). shr x page_shift) inside) backed e)
        λ x u p.
          let hpa : x ≡ bit_or (shl64 page page_shift) (bit_and g (page_size - 1)) =
            p.0
            ∙ ap (λ (y : ℕ). bit_or (shl64 page page_shift) (bit_and y (page_size - 1))) inside in
          bind (nonglobal-Returns (has pte pt_global_mask) shadow u) λ _ v q.
            let fine : is_error_hpa x ≡ false = ap is_error_hpa hpa ∙ is_error-hpa page g small in
            rw fine (
              weaken
                (update-Returns s (shr g page_shift) i m found shadow g
                  (write64 shadow (bit_or pte x) v) refl (q ∙ p.1))
                λ _ z r.
                  (subst (λ (y : ℕ). Grants guest access y)
                    (ap (bit_or pte) (sym hpa)
                      ∙ sym (ap (λ (f : ℕ → ℕ). f (shadow / 8)) r ∙ rw (==_refl (shadow / 8)) refl))
                    (stored-Grants guest access page)))
