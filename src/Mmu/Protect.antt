-- ===== src/Mmu/Protect.antt =====
-- Write protection of a slot for dirty logging: what `kvm_mmu_slot_remove_write_access` of
-- src/2006-11-02/kvm-module/mmu.c leaves in the shadow entries.
use learn_kvm.Base.{
  ℕ, zero, suc, ◌+◌, ◌*◌, ◌/◌, ◌^◌, ◌≤◌, ◌<◌, ◌≡◌, refl, inl, inr, ◌⊎◌, ◌∙◌, ap, subst, List, [],
  ◌∷◌, true, false, some, ◌==◌, ◌!=◌, Bool-cases, arith, bit_and, not64, eq_of_==, ==_refl,
  get_elem?, if◌then◌else◌,
}
use learn_kvm.Bits.{bit_and_assoc, bit_and-zero, bit_and_self}
use learn_kvm.State.{Machine, Vcpu}
use learn_kvm.Vmcs.{has}
use learn_kvm.Mmu.Pages.{
  read64, write64, header, protect_entries, protect_pages, kvm_mmu_slot_remove_write_access,
}
use learn_kvm.Vmx.Masks.{pt_writable_mask, pt64_ent_per_page}

-- The entry without its write bit.
abbrev cleared : ℕ → ℕ
cleared x = bit_and x (not64 pt_writable_mask)

has-cleared : (x : ℕ) → has (cleared x) pt_writable_mask ≡ false
has-cleared x =
    ap (λ (y : ℕ). y != 0)
      (bit_and_assoc x (not64 pt_writable_mask) pt_writable_mask ∙ bit_and-zero x)

-- A word that is protected.
abbrev IsOff : ℕ → Machine → Type 0
IsOff w s = has (s.mem w) pt_writable_mask ≡ false

-- No word but for its write bit is changed, and nothing but memory is.
abbrev pub OnlyProtects : Machine → Machine → Type 0
OnlyProtects s t =
    (t ≡ record s { mem = t.mem }) × ((w : ℕ) → (t.mem w ≡ s.mem w) ⊎ (t.mem w ≡ cleared (s.mem w)))

-- One entry.
abbrev protect : ℕ → Machine → Machine
protect pos s =
    if has (read64 pos s) pt_writable_mask then write64 pos (cleared (read64 pos s)) s else s

write_lem :
    (pos : ℕ) (s : Machine)
    → OnlyProtects s (write64 pos (cleared (read64 pos s)) s)
      × IsOff (pos / 8) (write64 pos (cleared (read64 pos s)) s)
      × ((w : ℕ) → IsOff w s → IsOff w (write64 pos (cleared (read64 pos s)) s))
unfolding write64 read64
write_lem pos s = (
  (
    refl,
    λ w. elim (Bool-cases (pos / 8 == w)) [
      | inl e ↦ rw e (inr (ap (λ (x : ℕ). cleared (s.mem x)) (eq_of_== (pos / 8) w e)))
      | inr e ↦ rw e (inl refl)
    ],
  ),
  rw (==_refl (pos / 8)) (has-cleared (s.mem (pos / 8))),
  λ w h. elim (Bool-cases (pos / 8 == w)) [
    | inl e ↦ rw e (has-cleared (s.mem (pos / 8)))
    | inr e ↦ rw e h
  ],
)

protect_lem :
    (pos : ℕ) (s : Machine)
    → OnlyProtects s (protect pos s)
      × IsOff (pos / 8) (protect pos s)
      × ((w : ℕ) → IsOff w s → IsOff w (protect pos s))
unfolding read64
protect_lem pos s = elim (Bool-cases (has (read64 pos s) pt_writable_mask)) [
  | inl e ↦ rw e (write_lem pos s)
  | inr e ↦ rw e ((refl, λ w. inl refl), e, λ w h. h)
]

cleared_twice : (x : ℕ) → cleared (cleared x) ≡ cleared x
cleared_twice x =
    bit_and_assoc x (not64 pt_writable_mask) (not64 pt_writable_mask)
    ∙ ap (bit_and x) (bit_and_self (not64 pt_writable_mask))

join :
    {x y z : ℕ} → (y ≡ x) ⊎ (y ≡ cleared x) → (z ≡ y) ⊎ (z ≡ cleared y) → (z ≡ x) ⊎ (z ≡ cleared x)
join (inl p) (inl q) = inl (q ∙ p)
join (inl p) (inr q) = inr (q ∙ ap (λ (n : ℕ). cleared n) p)
join (inr p) (inl q) = inr (q ∙ p)
join {x} (inr p) (inr q) = inr (q ∙ ap (λ (n : ℕ). cleared n) p ∙ cleared_twice x)

OnlyProtects-trans : (s t u : Machine) → OnlyProtects s t → OnlyProtects t u → OnlyProtects s u
OnlyProtects-trans s t u p q =
    (q.0 ∙ ap (λ (x : Machine). record x { mem = u.mem }) p.0, λ w. join (p.1 w) (q.1 w))

entries_lem :
    (n pos : ℕ) (s : Machine)
    → OnlyProtects s (protect_entries n pos s)
      × ((w : ℕ) → pos / 8 ≤ w → w < pos / 8 + n → IsOff w (protect_entries n pos s))
      × ((w : ℕ) → IsOff w s → IsOff w (protect_entries n pos s))
unfolding protect_entries
entries_lem zero pos s = ((refl, λ w. inl refl), λ w h k. absurd (omega arith), λ w h. h)
entries_lem (suc n) pos s =
    let (only, now, stay) = protect_lem pos s in
    let (only', rest, stay') = entries_lem n (pos + 8) (protect pos s) in
    (
      OnlyProtects-trans s (protect pos s) (protect_entries n (pos + 8) (protect pos s)) only only',
      λ w h k. elim (Bool-cases (pos / 8 == w)) [
        | inl e ↦ stay' w (subst (λ (x : ℕ). IsOff x (protect pos s)) (eq_of_== (pos / 8) w e) now)
        | inr e ↦ rest w (ground arith) (omega arith)
      ],
      λ w h. stay' w (stay w h),
    )

-- One page of the loop.
abbrev protect_page : ℕ → ℕ → Machine → Machine
protect_page slot h s =
    if has (header h s).slot_bitmap (2 ^ slot)
    then protect_entries pt64_ent_per_page (header h s).page_hpa s
    else s

-- Every entry of the page is protected.
abbrev IsProtected : ℕ → Machine → Type 0
IsProtected page_hpa s =
    (w : ℕ) → page_hpa / 8 ≤ w → w < page_hpa / 8 + pt64_ent_per_page → IsOff w s

page_lem :
    (slot h : ℕ) (s : Machine)
    → OnlyProtects s (protect_page slot h s)
      × (has (header h s).slot_bitmap (2 ^ slot) ≡ true
          → IsProtected (header h s).page_hpa (protect_page slot h s))
      × ((w : ℕ) → IsOff w s → IsOff w (protect_page slot h s))
page_lem slot h s = elim (Bool-cases (has (header h s).slot_bitmap (2 ^ slot))) [
  | inl e ↦
      let (a, b, c) = entries_lem pt64_ent_per_page (header h s).page_hpa s in rw e (a, λ _. b, c)
  | inr e ↦ rw e ((refl, λ w. inl refl), λ q. absurd cc, λ w h. h)
]

module _ (slot k : ℕ) (hs : List ℕ) (s : Machine) where
  abbrev finish : Machine
  finish = protect_pages slot hs (protect_page slot k s)

  -- The page at a place of the list, from the first page and from the rest.
  at_place :
      OnlyProtects s (protect_page slot k s)
      → (has (header k s).slot_bitmap (2 ^ slot) ≡ true
          → IsProtected (header k s).page_hpa (protect_page slot k s))
      → ((j h : ℕ)
          → get_elem? hs j ≡ some h
          → has (header h (protect_page slot k s)).slot_bitmap (2 ^ slot) ≡ true
          → IsProtected (header h (protect_page slot k s)).page_hpa finish)
      → ((w : ℕ) → IsOff w (protect_page slot k s) → IsOff w finish)
      → (j h : ℕ) → get_elem? (k ∷ hs) j ≡ some h
      → has (header h s).slot_bitmap (2 ^ slot) ≡ true
      → IsProtected (header h s).page_hpa finish
  at_place only now rest stay zero h e mine =
      let same : k ≡ h = cc in
      let there =
        subst
          (λ (x : ℕ).
            has (header x s).slot_bitmap (2 ^ slot) ≡ true
            → IsProtected (header x s).page_hpa (protect_page slot k s))
          same now mine in
      λ w a b. stay w (there w a b)
  at_place only now rest stay (suc j) h e mine =
      subst (λ (v : Vcpu). IsProtected (v.page_header_buf h).page_hpa finish)
        (ap (λ (x : Machine). x.vcpu) only.0)
        (rest j h e (
          ap (λ (v : Vcpu). has (v.page_header_buf h).slot_bitmap (2 ^ slot))
            (ap (λ (x : Machine). x.vcpu) only.0)
          ∙ mine))

pages_lem :
    (slot : ℕ) (hs : List ℕ) (s : Machine)
    → OnlyProtects s (protect_pages slot hs s)
      × ((j h : ℕ)
          → get_elem? hs j ≡ some h
          → has (header h s).slot_bitmap (2 ^ slot) ≡ true
          → IsProtected (header h s).page_hpa (protect_pages slot hs s))
      × ((w : ℕ) → IsOff w s → IsOff w (protect_pages slot hs s))
unfolding protect_pages
pages_lem slot [] s = ((refl, λ w. inl refl), λ j h e. absurd cc, λ w h. h)
pages_lem slot (k ∷ hs) s =
    let (only, now, stay) = page_lem slot k s in
    let (only', rest, stay') = pages_lem slot hs (protect_page slot k s) in
    (
      OnlyProtects-trans s (protect_page slot k s) (protect_pages slot hs (protect_page slot k s))
          only only',
      λ j h e mine. at_place slot k hs s only now rest stay' j h e mine,
      λ w h. stay' w (stay w h),
    )

-- After the write protection of a slot every entry of every active page that maps the slot has its
-- write bit clear.
pub remove_write_access-IsOff :
    (slot : ℕ) (s : Machine) (j h i : ℕ)
    → get_elem? s.kvm.active_mmu_pages j ≡ some h
    → has (header h s).slot_bitmap (2 ^ slot) ≡ true
    → i < pt64_ent_per_page
    → has
        (read64 ((header h s).page_hpa + 8 * i) (kvm_mmu_slot_remove_write_access slot s))
        pt_writable_mask
      ≡ false
unfolding kvm_mmu_slot_remove_write_access read64
remove_write_access-IsOff slot s j h i e mine lt =
    (pages_lem slot s.kvm.active_mmu_pages s).1 j h e mine (((header h s).page_hpa + 8 * i) / 8)
      (omega arith) (omega arith)

-- The write protection of a slot changes nothing of the machine but memory, and no word of memory but for its
-- write bit.
pub remove_write_access-OnlyProtects :
    (slot : ℕ) (s : Machine) → OnlyProtects s (kvm_mmu_slot_remove_write_access slot s)
unfolding kvm_mmu_slot_remove_write_access
remove_write_access-OnlyProtects slot s = (pages_lem slot s.kvm.active_mmu_pages s).0
