-- ===== src/Slots/Layout.antt =====
-- Slots that do not overlap, and looking a frame up in them.
use learn_kvm.Base.{
  ℕ, zero, suc, ◌+◌, ◌≤◌, ◌<◌, ◌^◌, ◌≡◌, refl, ◌≢◌, ◌⊎◌, ◌↔◌, inl, inr, true, false, some, List, [],
  ◌∷◌, arith, get_elem?, Bool-cases, ap, ◌∙◌,
}
use native.Mathlib.Nat.{zero-add}
use learn_kvm.State.{MemorySlot, Kvm}
use learn_kvm.Slots.{in_slot, find_slot, gfn_to_memslot}

-- The frames of one slot end before those of the other begin.
abbrev pub Apart : MemorySlot → MemorySlot → Type 0
Apart a b = (a.base_gfn + a.npages ≤ b.base_gfn) ⊎ (b.base_gfn + b.npages ≤ a.base_gfn)

-- No two slots share a frame, and no slot ends past the last address.
pub record IsLayout (ms : List MemorySlot) : Type 0 where
  pub apart :
      (i j : ℕ) (a b : MemorySlot)
      → get_elem? ms i ≡ some a
      → get_elem? ms j ≡ some b
      → i ≢ j
      → Apart a b
  pub fits : (i : ℕ) (a : MemorySlot) → get_elem? ms i ≡ some a → a.base_gfn + a.npages < 2 ^ 64

-- The frame belongs to the slot.
abbrev pub Holds : MemorySlot → ℕ → Type 0
Holds m gfn = (m.base_gfn ≤ gfn) × (gfn < m.base_gfn + m.npages)

in_slot-Holds :
    (m : MemorySlot) (gfn : ℕ)
    → m.base_gfn + m.npages < 2 ^ 64
    → (in_slot m gfn ≡ true) ↔ Holds m gfn
unfolding in_slot
in_slot-Holds m gfn h = ground arith

-- Where the answer is slot `i`, it stands at `i`.
find_slot_sound :
    (n k : ℕ) (ms : List MemorySlot) (gfn i : ℕ) (m : MemorySlot)
    → find_slot n k ms gfn ≡ some (i, m)
    → (j : ℕ) × (i ≡ k + j) × (j < n) × (get_elem? ms j ≡ some m) × (in_slot m gfn ≡ true)
unfolding find_slot
find_slot_sound zero k ms gfn i m h = cc
find_slot_sound (suc n) k [] gfn i m h = cc
find_slot_sound (suc n) k (x ∷ ms) gfn i m h = elim (Bool-cases (in_slot x gfn)) [
  | inl e ↦ let h' = rw e at h in (0, ground arith, omega arith, ground arith, ground arith)
  | inr e ↦
      let (j, p, q, r, t) = find_slot_sound n (k + 1) ms gfn i m (rw e at h) in
      (suc j, omega arith, omega arith, r, t)
]

-- The first slot that holds the frame is found.
find_slot_complete :
    (n k j : ℕ) (ms : List MemorySlot) (gfn : ℕ) (m : MemorySlot)
    → j < n
    → get_elem? ms j ≡ some m
    → in_slot m gfn ≡ true
    → ((i : ℕ) (a : MemorySlot) → i < j → get_elem? ms i ≡ some a → in_slot a gfn ≡ false)
    → find_slot n k ms gfn ≡ some (k + j, m)
unfolding find_slot
find_slot_complete zero k j ms gfn m lt at within before = absurd (omega arith)
find_slot_complete (suc n) k j [] gfn m lt at within before = cc
find_slot_complete (suc n) k zero (x ∷ ms) gfn m lt at within before =
    let same : x ≡ m = cc in let e : k + 0 ≡ k = omega arith in rw (same, within, e)
find_slot_complete (suc n) k (suc j) (x ∷ ms) gfn m lt at within before =
    let e : k + 1 + j ≡ k + suc j = omega arith in
    rw (before 0 x (omega arith) refl, ← e)
      (find_slot_complete n (k + 1) j ms gfn m (omega arith) at within
        λ i a p q. before (suc i) a (omega arith) q)

module _ (kvm : Kvm) (layout : IsLayout kvm.memslots) (gfn i : ℕ) (m : MemorySlot) where
  found-Holds :
      gfn_to_memslot kvm gfn ≡ some (i, m)
      → (i < kvm.nmemslots) × (get_elem? kvm.memslots i ≡ some m) × Holds m gfn
  unfolding gfn_to_memslot
  found-Holds h =
      let (j, p, q, r, t) = find_slot_sound kvm.nmemslots 0 kvm.memslots gfn i m h in
      let e : j ≡ i = omega arith in
      let at : get_elem? kvm.memslots i ≡ some m = rw (← e) r in
      (omega arith, at, (in_slot-Holds m gfn (layout.fits i m at)).0 t)

  Holds-found :
      i < kvm.nmemslots
      → get_elem? kvm.memslots i ≡ some m
      → Holds m gfn
      → gfn_to_memslot kvm gfn ≡ some (i, m)
  unfolding gfn_to_memslot
  Holds-found lt at within =
      find_slot_complete kvm.nmemslots 0 i kvm.memslots gfn m lt at
        ((in_slot-Holds m gfn (layout.fits i m at)).1 within) before
      ∙ ap (λ (t : ℕ). some (t, m)) (zero-add i)
    where
      before :
          (j : ℕ) (a : MemorySlot)
          → j < i
          → get_elem? kvm.memslots j ≡ some a
          → in_slot a gfn ≡ false
      before j a p q = elim (Bool-cases (in_slot a gfn)) [
        | inr e ↦ e
        | inl e ↦ absurd (
            clash ((in_slot-Holds a gfn (layout.fits j a q)).0 e)
              (layout.apart j i a m q at (omega arith)))
      ]
        where
          clash : Holds a gfn → Apart a m → ⊥
          clash x (inl y) = omega arith
          clash x (inr y) = omega arith

-- `gfn_to_memslot` answers slot `i` exactly when `i` is one of the slots in use and its frames
-- include `gfn`.
pub gfn_to_memslot_iff :
    (kvm : Kvm) (layout : IsLayout kvm.memslots) (gfn i : ℕ) (m : MemorySlot)
    → (gfn_to_memslot kvm gfn ≡ some (i, m))
      ↔ ((i < kvm.nmemslots) × (get_elem? kvm.memslots i ≡ some m) × Holds m gfn)
gfn_to_memslot_iff kvm layout gfn i m =
    (found-Holds kvm layout gfn i m, λ h. Holds-found kvm layout gfn i m h.0 h.1 h.2)
