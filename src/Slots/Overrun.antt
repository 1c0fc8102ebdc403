-- ===== src/Slots/Overrun.antt =====
-- Where the search of a dirty bitmap ends: `kvm_dev_ioctl_get_dirty_log` of
-- src/2006-11-02/kvm-module/kvm_main.c.
use learn_kvm.Base.{
  ℕ, zero, suc, ◌+◌, ◌-◌, ◌^◌, ◌/◌, ◌≤◌, ◌<◌, ◌≡◌, refl, ap, ◌∙◌, inl, inr, Bool, false, leb, none,
  some, get_elem?, replicate, ◌==◌, Bool-cases, arith,
}
use learn_kvm.State.{Machine, MemorySlot, Vmalloc}
use learn_kvm.Run.{fault}
use learn_kvm.Slots.Log.{
  any_dirty, dirty_bytes, is_negative, search_rounds, kvm_dev_ioctl_get_dirty_log,
}
use learn_kvm.Vmx.Masks.{kvm_memory_slots}

get-replicate : (k i : ℕ) → i < k → get_elem? {A = ℕ} (replicate k 0) i ≡ some 0
get-replicate zero i h = absurd (omega arith)
get-replicate (suc k) zero h = refl
get-replicate (suc k) (suc i) h = get-replicate k i (omega arith)

past-replicate : (k i : ℕ) → k ≤ i → get_elem? {A = ℕ} (replicate k 0) i ≡ none
past-replicate zero i h = refl
past-replicate (suc k) zero h = absurd (omega arith)
past-replicate (suc k) (suc i) h = past-replicate k i (omega arith)

-- A search for more words than a clean bitmap has leaves it.
any_dirty-overruns : (n i k : ℕ) → i ≤ k → k < i + n → any_dirty n i (replicate k 0) ≡ none
unfolding any_dirty
any_dirty-overruns zero i k h lt = absurd (omega arith)
any_dirty-overruns (suc n) i k h lt = elim (Bool-cases (i == k)) [
  | inl e ↦ rw (past-replicate k i (ground arith), any_dirty) refl
  | inr e ↦
      let less : i < k = ground arith in
      rw (get-replicate k i less, any_dirty)
        (any_dirty-overruns n (i + 1) k (omega arith) (omega arith))
]

-- Up to 2^34 - 8 pages the number of bytes is not cut off, and not negative.
pub dirty_bytes-exact :
    (m : MemorySlot) → m.npages ≤ 2 ^ 34 - 8 → dirty_bytes m ≡ (m.npages + 7) / 8
unfolding dirty_bytes
dirty_bytes-exact m few = omega arith

pub is_negative-exact :
    (m : MemorySlot) → m.npages ≤ 2 ^ 34 - 8 → is_negative (dirty_bytes m) ≡ false
unfolding is_negative
is_negative-exact m few = rw (dirty_bytes-exact m few) (ground arith)

pub search_rounds-exact :
    (m : MemorySlot) → m.npages ≤ 2 ^ 34 - 8 → search_rounds m ≡ (m.npages + 7) / 8
unfolding search_rounds
search_rounds-exact m few = rw (is_negative-exact m few) (dirty_bytes-exact m few)

-- Of a clean bitmap, as `kvm_dev_ioctl_set_memory_region` allocates it, of a slot of nine pages or more, and of
-- at most 2^34 - 8, for which `n` is not negative, the search of `kvm_dev_ioctl_get_dirty_log` reads past the end: it takes the number of bytes for the number of words.
pub get_dirty_log-Overruns :
    (slot : ℕ) (copied : Bool) (s : Machine) (m : MemorySlot) (map : Vmalloc ℕ)
    → slot < kvm_memory_slots
    → get_elem? s.kvm.memslots slot ≡ some m
    → m.dirty_bitmap ≡ some map
    → map.items ≡ replicate ((m.npages + 63) / 64) 0
    → 9 ≤ m.npages
    → m.npages ≤ 2 ^ 34 - 8
    → kvm_dev_ioctl_get_dirty_log slot copied s ≡ fault
unfolding kvm_dev_ioctl_get_dirty_log
get_dirty_log-Overruns slot copied s m map small there logged clean many few =
    let fits : leb kvm_memory_slots slot ≡ false = ground arith in
    let over : any_dirty (search_rounds m) 0 map.items ≡ none = rw (search_rounds-exact m few) (
      ap (any_dirty ((m.npages + 7) / 8) 0) clean
      ∙ any_dirty-overruns ((m.npages + 7) / 8) 0 ((m.npages + 63) / 64) (omega arith)
          (omega arith)) in
    simp (fits, there, logged, over, kvm_dev_ioctl_get_dirty_log) refl
