-- ===== src/Slots/Restart.antt =====
-- What `kvm_dev_ioctl_get_dirty_log` of src/2006-11-02/kvm-module/kvm_main.c leaves when it has found a dirty
-- page.
use learn_kvm.Base.{
  ℕ, zero, suc, ◌+◌, ◌-◌, ◌*◌, ◌/◌, ◌%◌, ◌^◌, ◌<◌, ◌≡◌, ◌≢◌, refl, ap, ◌∙◌, subst, inl, inr, Bool,
  true, false, leb, some, List, [], ◌∷◌, get_elem?, take, ◌≤◌, get_elem?-set_self, lt-length_of_get,
  ◌==◌, !=_of_ne, Bool-cases, arith, if◌then◌else◌,
}
use learn_kvm.Bits.{bit, bit-zero, bit-mul_pow}
use learn_kvm.State.{Machine, Kvm, MemorySlot, Vmalloc}
use learn_kvm.Run.Laws.{Returns, returns}
use learn_kvm.Status.{success}
use learn_kvm.Vmcs.{has, flush_guest_tlb, vmcs_writel}
use learn_kvm.Vmcs.Laws.{has-bit}
use learn_kvm.Slots.{with_slot, test_bit}
use learn_kvm.Slots.Log.{
  any_dirty, dirty_bytes, search_rounds, bytes_of, clear_bytes, restart_log,
  kvm_dev_ioctl_get_dirty_log,
}
use learn_kvm.Slots.Overrun.{dirty_bytes-exact, is_negative-exact}
use learn_kvm.Slots.Dirty.{test_bit_at}
use learn_kvm.Mmu.Pages.{
  read64, write64, header, protect_entries, protect_pages, kvm_mmu_slot_remove_write_access,
}
use learn_kvm.Mmu.Protect.{remove_write_access-IsOff}
use learn_kvm.Vmx.Masks.{kvm_memory_slots, pt64_ent_per_page, pt_writable_mask}

-- A cleared byte has no bits left.
cleared_word :
    (words : List ℕ) (n i w : ℕ)
    → get_elem? words i ≡ some w
    → get_elem? (clear_bytes n words) i
      ≡ some (if leb 8 (n - 8 * i) then 0 else w / 2 ^ (8 * (n - 8 * i)) * 2 ^ (8 * (n - 8 * i)))
unfolding clear_bytes
cleared_word [] n i w h = absurd cc
cleared_word (x ∷ xs) n zero w h =
    let e : n - 8 * 0 ≡ n = omega arith in let f : x ≡ w = cc in rw (e, f) refl
cleared_word (x ∷ xs) n (suc i) w h =
    let e : n - 8 - 8 * i ≡ n - 8 * suc i = omega arith in
    subst
      (λ (m : ℕ).
        get_elem? (clear_bytes (n - 8) xs) i
        ≡ some (if leb 8 m then 0 else w / 2 ^ (8 * m) * 2 ^ (8 * m)))
      e (cleared_word xs (n - 8) i w h)

off_word :
    (m k w : ℕ)
    → k < 64
    → k < 8 * m
    → bit k (if leb 8 m then 0 else w / 2 ^ (8 * m) * 2 ^ (8 * m)) ≡ 0
off_word m k w small h = elim (Bool-cases (leb 8 m)) [
  | inl e ↦ rw e (bit-zero k)
  | inr e ↦ rw e (bit-mul_pow (8 * m) k (w / 2 ^ (8 * m)) h)
]

-- The bit of a page among the first `8 * n`.
cleared_bit :
    (words : List ℕ) (n j w : ℕ)
    → get_elem? words (j / 64) ≡ some w
    → j < 8 * n
    → test_bit j (clear_bytes n words) ≡ some false
cleared_bit words n j w at lt =
    let m : ℕ = n - 8 * (j / 64) in
    let v : ℕ = if leb 8 m then 0 else w / 2 ^ (8 * m) * 2 ^ (8 * m) in
    let off : bit (j % 64) v ≡ 0 = off_word m (j % 64) w (omega arith) (omega arith) in
    test_bit_at j (clear_bytes n words) v (cleared_word words n (j / 64) w at)
    ∙ ap (λ (b : Bool). some b) (has-bit (j % 64) v ∙ ap (λ (x : ℕ). x == 1) off)

-- The log of `m` has begun again in `t`: no page is marked in it, and no shadow entry that maps the slot
-- can be written through, of the tables that were active in `s`.
pub record IsRestarted (slot : ℕ) (m : MemorySlot) (map : Vmalloc ℕ) (s t : Machine) : Type 0 where
  pub slot_now : MemorySlot
  pub map_now : Vmalloc ℕ
  pub present : get_elem? t.kvm.memslots slot ≡ some slot_now
  pub logged : slot_now.dirty_bitmap ≡ some map_now
  pub unmarked :
      (j w : ℕ)
      → j < m.npages
      → get_elem? map.items (j / 64) ≡ some w
      → test_bit j map_now.items ≡ some false
  pub off :
      (j h i : ℕ)
      → get_elem? s.kvm.active_mmu_pages j ≡ some h
      → has (header h s).slot_bitmap (2 ^ slot) ≡ true
      → i < pt64_ent_per_page
      → has (read64 ((header h s).page_hpa + 8 * i) t) pt_writable_mask ≡ false

-- The protection changes memory only.
entries-kvm : (n pos : ℕ) (s : Machine) → (protect_entries n pos s).kvm ≡ s.kvm
unfolding protect_entries write64
entries-kvm zero pos s = refl
entries-kvm (suc n) pos s = elim (Bool-cases (has (read64 pos s) pt_writable_mask)) [
  | inl e ↦ rw (e, protect_entries) (entries-kvm n (pos + 8) _)
  | inr e ↦ rw (e, protect_entries) (entries-kvm n (pos + 8) s)
]

pages-kvm : (slot : ℕ) (hs : List ℕ) (s : Machine) → (protect_pages slot hs s).kvm ≡ s.kvm
unfolding protect_pages
pages-kvm slot [] s = refl
pages-kvm slot (h ∷ hs) s = elim (Bool-cases (has (header h s).slot_bitmap (2 ^ slot))) [
  | inl e ↦
      rw (e, protect_pages)
        (pages-kvm slot hs _ ∙ entries-kvm pt64_ent_per_page (header h s).page_hpa s)
  | inr e ↦ rw (e, protect_pages) (pages-kvm slot hs s)
]

module _ (slot : ℕ) (m : MemorySlot) (map : Vmalloc ℕ) (s : Machine)
    (there : get_elem? s.kvm.memslots slot ≡ some m) (few : m.npages ≤ 2 ^ 34 - 8) where
  restart-IsRestarted : IsRestarted slot m map s (restart_log slot m map s)
  unfolding restart_log flush_guest_tlb vmcs_writel read64 kvm_mmu_slot_remove_write_access
  restart-IsRestarted =
      let s' = kvm_mmu_slot_remove_write_access slot s in
      let words = clear_bytes (dirty_bytes m) map.items in
      let same : s'.kvm ≡ s.kvm = pages-kvm slot s.kvm.active_mmu_pages s in
      let there' : get_elem? s'.kvm.memslots slot ≡ some m =
        ap (λ (k : Kvm). get_elem? k.memslots slot) same ∙ there in
      let m' = record m { dirty_bitmap = some (record map { items = words }) } in
      let u : Machine = with_slot slot m' s' in
      let fine : IsRestarted slot m map s u = record {
        slot_now = m';
        map_now = record map { items = words };
        present =
            get_elem?-set_self s'.kvm.memslots slot m'
              (lt-length_of_get s'.kvm.memslots slot there');
        logged = refl;
        unmarked = λ j w lt at.
            cleared_bit map.items (dirty_bytes m) j w at (omega (arith, dirty_bytes-exact m few));
        off = λ j h i active maps lt. remove_write_access-IsOff slot s j h i active maps lt;
      } in
      by_vmcs s'.vcpu.vmcs u fine
    where
      by_vmcs :
          (b : Bool) (u : Machine)
          → IsRestarted slot m map s u
          → IsRestarted slot m map s (if b then flush_guest_tlb u else u)
      by_vmcs true u f = record {
        slot_now = f.slot_now;
        map_now = f.map_now;
        present = f.present;
        logged = f.logged;
        unmarked = f.unmarked;
        off = f.off;
      }
      by_vmcs false u f = f

  -- For a slot of at most 2^34 - 8 pages, when the search finds a word that is not 0 and user space takes the
  -- copy, the ioctl returns the bytes of the bitmap as it was that hold a bit for each page, and the log begins again: no page of the slot is marked, and every entry that maps the slot
  -- from an active table is without its write bit, so that the next write is seen.
  pub get_dirty_log-IsRestarted :
      (w : ℕ)
      → slot < kvm_memory_slots
      → m.dirty_bitmap ≡ some map
      → any_dirty (search_rounds m) 0 map.items ≡ some w
      → w ≢ 0
      → Returns
          (λ r t.
            (r ≡ (success, take (dirty_bytes m) (bytes_of map.items))) × IsRestarted slot m map s t)
          (kvm_dev_ioctl_get_dirty_log slot true s)
  unfolding kvm_dev_ioctl_get_dirty_log
  get_dirty_log-IsRestarted w small logged found dirty =
      let fits : leb kvm_memory_slots slot ≡ false = ground arith in
      simp
        (
          fits,
          there,
          logged,
          found,
          is_negative-exact m few,
          !=_of_ne w 0 dirty,
          kvm_dev_ioctl_get_dirty_log,
        )
        (returns (refl, restart-IsRestarted))
