-- ===== src/Slots.antt =====
-- The memory slots of src/2006-11-02/kvm-module/kvm_main.c and kvm.h: which slot holds a guest
-- frame, the host page of a frame, and the dirty bitmap.
pub mod Layout
pub mod Dirty
pub mod Log
pub mod Overrun
pub mod Restart
use learn_kvm.Base.{
  ℕ, zero, suc, ◌+◌, ◌-◌, ◌/◌, ◌%◌, ◌^◌, Bool, ◌&&◌, Option, none, some, List, [], ◌∷◌, ltb, leb,
  ◌!=◌, if◌then◌else◌, get_elem?, set, bit_and, bit_or, u64, shl64, shr, not64,
}
use learn_kvm.State.{MemorySlot, Kvm, Machine}
use learn_kvm.Run.{Cmd, ◌>>=◌, pure, act, skip, deref, read}
use learn_kvm.Vmcs.{has}
use learn_kvm.Vmx.Masks.{page_shift, page_size, page_mask, hpa_err_mask, bits_per_long}

-- The test of `gfn_to_memslot` and `mark_page_dirty`, an addition of `unsigned long`.
unfoldable pub in_slot : MemorySlot → ℕ → Bool
in_slot m gfn = leb m.base_gfn gfn && ltb gfn (u64 (m.base_gfn + m.npages))

-- The loop over the first `n` slots; `i` is the index of the head of the list.
unfoldable pub find_slot : ℕ → ℕ → List MemorySlot → ℕ → Option (ℕ × MemorySlot)
unfolding in_slot
find_slot zero i ms gfn = none
find_slot (suc n) i [] gfn = none
find_slot (suc n) i (m ∷ ms) gfn = if in_slot m gfn then some (i, m) else find_slot n (i + 1) ms gfn

-- `none` is NULL; a slot comes with its index, which is `memslot_id` of the pointer.
unfoldable pub gfn_to_memslot : Kvm → ℕ → Option (ℕ × MemorySlot)
unfolding find_slot
gfn_to_memslot kvm gfn = find_slot kvm.nmemslots 0 kvm.memslots gfn

-- `slot->phys_mem[gfn - slot->base_gfn]`; `none` if the array is NULL or shorter.
unfoldable pub gfn_to_page : MemorySlot → ℕ → Option (Option ℕ)
gfn_to_page slot gfn = elim slot.phys_mem [
  | none ↦ none
  | some pages ↦ get_elem? pages.items (gfn - slot.base_gfn)
]

-- `set_bit` on an array of words, `none` past its end.
unfoldable pub set_bit : ℕ → List ℕ → Option (List ℕ)
set_bit n words = elim (get_elem? words (n / bits_per_long)) [
  | none ↦ none
  | some w ↦ some (set words (n / bits_per_long) (bit_or w (2 ^ (n % bits_per_long))))
]

abbrev pub with_slot : ℕ → MemorySlot → Machine → Machine
with_slot i m s = record s { kvm = record s.kvm { memslots = set s.kvm.memslots i m } }

-- `test_bit` on an array of words.
unfoldable pub test_bit : ℕ → List ℕ → Option Bool
test_bit n words = elim (get_elem? words (n / bits_per_long)) [
  | none ↦ none
  | some w ↦ some (has w (2 ^ (n % bits_per_long)))
]

unfoldable pub mark_page_dirty : ℕ → Cmd (Unit {0})
unfolding gfn_to_memslot set_bit test_bit
mark_page_dirty gfn s = elim (gfn_to_memslot s.kvm gfn) [
  | none ↦ skip s
  | some (i, m) ↦ elim m.dirty_bitmap [
    | none ↦ skip s
    | some map ↦
        (do
          already ← deref (test_bit (gfn - m.base_gfn) map.items)
          if already then skip else do
            words ← deref (set_bit (gfn - m.base_gfn) map.items)
            act (with_slot i (record m { dirty_bitmap = some (record map { items = words }) })))
          s
  ]
]

unfoldable pub is_error_hpa : ℕ → Bool
is_error_hpa hpa = shr hpa 63 != 0

unfoldable pub gpa_to_hpa : ℕ → Cmd ℕ
unfolding gfn_to_memslot gfn_to_page
gpa_to_hpa gpa s = elim (gfn_to_memslot s.kvm (shr gpa page_shift)) [
  | none ↦ pure (bit_or gpa hpa_err_mask) s
  | some (i, slot) ↦
      (do
        entry ← deref (gfn_to_page slot (shr gpa page_shift))
        page ← deref entry
        pure (bit_or (shl64 page page_shift) (bit_and gpa (page_size - 1))))
        s
]

unfoldable pub safe_gpa_to_hpa : ℕ → Cmd ℕ
unfolding gpa_to_hpa is_error_hpa
safe_gpa_to_hpa gpa = do
  hpa ← gpa_to_hpa gpa
  bad ← read (λ s. s.bad_page_address)
  pure (if is_error_hpa hpa then bit_or bad (bit_and gpa (not64 page_mask)) else hpa)
