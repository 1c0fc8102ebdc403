-- ===== src/Region.antt =====
-- `kvm_dev_ioctl_set_memory_region` and `kvm_free_physmem_slot` of
-- src/2006-11-02/kvm-module/kvm_main.c. The allocators and the other threads are inputs: a `Round`
-- holds their answers for one pass from the label `raced`.
pub mod Layout
pub mod Outcome
pub mod Ioctl
pub mod Renewed
use learn_kvm.Base.{
  ℕ, zero, suc, ◌+◌, ◌-◌, ◌*◌, ◌/◌, Bool, true, false, not, ◌&&◌, ◌||◌, Option, none, some, List,
  [], ◌∷◌, ◌++◌, ltb, leb, ◌==◌, ◌!=◌, if◌then◌else◌, get_elem?, set, bit_and, u32, u64, not64, shr,
  replicate, is_some,
}
use learn_kvm.State.{MemorySlot, Vmalloc, Kvm}
use learn_kvm.Status.{Status, success, error, einval, eexist, enomem, eagain}
use learn_kvm.Vmcs.{has}
use learn_kvm.Vmx.Masks.{
  page_shift, page_size, kvm_memory_slots, kvm_mem_log_dirty_pages, bits_per_long,
}

-- struct kvm_memory_region.
pub record MemoryRegion : Type 0 where
  pub slot : ℕ
  pub flags : ℕ
  pub guest_phys_addr : ℕ
  pub memory_size : ℕ

-- What the kernel answers in one pass: the address of the page array and of the bitmap (`none` if
-- `vmalloc` fails), the page of each `alloc_page`, and what other threads do to the machine while
-- the lock is not held.
pub record Round : Type 0 where
  pub page_array : Option ℕ
  pub alloc_page : ℕ → Option ℕ
  pub bitmap : Option ℕ
  pub concurrent : Kvm → Kvm

-- The calls that give memory back.
pub data Release : Type 0 where
  free_page : Option ℕ → Release
  vfree : Option ℕ → Release

abbrev pub pointer : {A : Type 0} → Option (Vmalloc A) → Option ℕ
pointer none = none
pointer (some v) = some v.address

abbrev pub same_pointer : Option ℕ → Option ℕ → Bool
same_pointer none none = true
same_pointer none (some _) = false
same_pointer (some _) none = false
same_pointer (some a) (some b) = a == b

-- The first `n` pages of the array are freed.
unfoldable pub free_pages : ℕ → List (Option ℕ) → List Release
free_pages zero pages = []
free_pages (suc n) [] = []
free_pages (suc n) (p ∷ pages) = free_page p ∷ free_pages n pages

-- `!dont || free->x != dont->x`, the pointer of `dont` being `none` where there is no `dont`.
abbrev pub dropped : Option MemorySlot → Option ℕ → (MemorySlot → Option ℕ) → Bool
dropped none p field = true
dropped (some d) p field = not (same_pointer p (field d))

-- The page array, its pages first.
unfoldable pub free_array : MemorySlot → Option MemorySlot → List Release
free_array slot dont = elim slot.phys_mem [
  | none ↦ []
  | some v ↦
      if dropped dont (some v.address) (λ d. pointer d.phys_mem)
      then free_pages slot.npages v.items ++ vfree (some v.address) ∷ []
      else []
]

unfoldable pub free_bitmap : MemorySlot → Option MemorySlot → List Release
free_bitmap slot dont =
    if dropped dont (pointer slot.dirty_bitmap) (λ d. pointer d.dirty_bitmap)
    then vfree (pointer slot.dirty_bitmap) ∷ []
    else []

-- The releases, and the slot as it is left.
unfoldable pub kvm_free_physmem_slot : MemorySlot → Option MemorySlot → List Release × MemorySlot
kvm_free_physmem_slot slot dont = (
  free_array slot dont ++ free_bitmap slot dont,
  record slot { phys_mem = none; npages = 0; dirty_bitmap = none },
)

-- The sanity checks on the request.
unfoldable pub is_sane : MemoryRegion → Bool
is_sane mem =
    not (has mem.memory_size (page_size - 1))
    && not (has mem.guest_phys_addr (page_size - 1))
    && ltb mem.slot kvm_memory_slots
    && not (ltb (u64 (mem.guest_phys_addr + mem.memory_size)) mem.guest_phys_addr)

-- The loop over all slots but `slot`; `i` is the index of the head of the list.
unfoldable pub overlaps : ℕ → ℕ → ℕ → ℕ → List MemorySlot → Bool
overlaps slot base_gfn npages i [] = false
overlaps slot base_gfn npages i (s ∷ ss) =
    (not (i == slot)
      && not
          (leb (u64 (base_gfn + npages)) s.base_gfn || leb (u64 (s.base_gfn + s.npages)) base_gfn))
    || overlaps slot base_gfn npages (i + 1) ss

-- The loop that fills a page array that `memset` has cleared, and whether it got to the end.
unfoldable pub fill_pages : ℕ → ℕ → (ℕ → Option ℕ) → List (Option ℕ) × Bool
fill_pages zero i alloc = ([], true)
fill_pages (suc n) i alloc = elim (alloc i) [
  | none ↦ (replicate (suc n) none, false)
  | some p ↦ let (rest, full) = fill_pages n (i + 1) alloc in (some p ∷ rest, full)
]

-- `ALIGN(n, a)`.
abbrev pub align : ℕ → ℕ → ℕ
align n a = (n + (a - 1)) / a * a

-- Allocate if a slot is being created; the slot, and whether the allocation succeeded.
unfoldable pub allocate_pages : Round → MemorySlot → MemorySlot × Bool
allocate_pages r new =
    if new.npages != 0 && not (is_some new.phys_mem)
    then elim r.page_array [
      | none ↦ (new, false)
      | some address ↦
          let (pages, full) = fill_pages new.npages 0 r.alloc_page in
          (record new { phys_mem = some (record { address = address; items = pages }) }, full)
    ]
    else (new, true)

-- Allocate the page dirty bitmap if needed: `ALIGN(npages, 64) / 8` bytes, of which the variable of type
-- `unsigned` keeps the lower 32 bits, in words.
unfoldable pub allocate_bitmap : Round → MemorySlot → MemorySlot × Bool
allocate_bitmap r new =
    if has new.flags kvm_mem_log_dirty_pages && not (is_some new.dirty_bitmap)
    then elim r.bitmap [
      | none ↦ (new, false)
      | some address ↦
          let words = replicate (u32 (align new.npages bits_per_long / 8) / 8) 0 in
          (record new { dirty_bitmap = some (record { address = address; items = words }) }, true)
    ]
    else (new, true)

-- The slot that the request asks for, its arrays kept where they are still wanted.
unfoldable pub requested : MemorySlot → ℕ → ℕ → ℕ → MemorySlot
requested old base_gfn npages flags = record old {
  base_gfn = base_gfn;
  npages = npages;
  flags = flags;
  phys_mem = if npages == 0 then none else old.phys_mem;
  dirty_bitmap = if has flags kvm_mem_log_dirty_pages then old.dirty_bitmap else none;
}

-- How a pass ends: a return, with the memory that was given back, or a jump to `raced`.
pub data Pass : Type 0 where
  returned : Status → Kvm → List Release → Pass
  raced : Kvm → List Release → Pass

-- The part under the lock: nothing is changed if the configuration has changed or is in use.
unfoldable pub commit : ℕ → ℕ → MemorySlot → MemorySlot → Kvm → Pass
commit slot version old new kvm =
    if version != kvm.memory_config_version
    then raced kvm (kvm_free_physmem_slot new (some old)).0
    else if kvm.busy != 0
    then returned (error eagain) kvm (kvm_free_physmem_slot new (some old)).0
    else returned success
        (record kvm {
          nmemslots = if leb kvm.nmemslots slot then slot + 1 else kvm.nmemslots;
          memslots = set kvm.memslots slot new;
          memory_config_version = kvm.memory_config_version + 1;
        })
        (kvm_free_physmem_slot old (some new)).0

-- The allocations, and the commit if they succeed.
unfoldable pub build : ℕ → Round → MemorySlot → MemorySlot → Kvm → Pass
build slot r old new kvm =
    let (with_pages, paged) = allocate_pages r new in
    let (complete, mapped) = allocate_bitmap r with_pages in
    if not paged
    then returned (error enomem) (r.concurrent kvm) (kvm_free_physmem_slot with_pages (some old)).0
    else if not mapped
    then returned (error enomem) (r.concurrent kvm) (kvm_free_physmem_slot complete (some old)).0
    else commit slot kvm.memory_config_version old complete (r.concurrent kvm)

-- The slot's size would change.
abbrev pub resizes : MemorySlot → ℕ → Bool
resizes old npages = npages != 0 && old.npages != 0 && npages != old.npages

-- `mem->flags`, less the logging flag if the slot is removed.
abbrev pub region_flags : MemoryRegion → ℕ → ℕ
region_flags mem npages =
    if npages == 0 then bit_and mem.flags (not64 kvm_mem_log_dirty_pages) else mem.flags

-- One pass from `raced`, for the slot `old` that the request names.
unfoldable pub region_pass : MemoryRegion → Round → MemorySlot → Kvm → Pass
region_pass mem r old kvm =
    let base_gfn = shr mem.guest_phys_addr page_shift in
    let npages = shr mem.memory_size page_shift in
    let flags = region_flags mem npages in
    let new = record old { base_gfn = base_gfn; npages = npages; flags = flags } in
    if resizes old npages
    then returned (error einval) kvm (kvm_free_physmem_slot new (some old)).0
    else if overlaps mem.slot base_gfn npages 0 kvm.memslots
    then returned (error eexist) kvm (kvm_free_physmem_slot new (some old)).0
    else build mem.slot r old (requested old base_gfn npages flags) kvm

-- A pass that returned ends the call; after one that raced, `again` goes on.
unfoldable pub go_on : (Kvm → List Release → Pass) → List Release → Pass → Pass
go_on again log (returned status kvm freed) = returned status kvm (log ++ freed)
go_on again log (raced kvm freed) = again kvm (log ++ freed)

-- The passes, one for each round that is given; `raced` at the end if every one of them raced.
unfoldable pub region_loop : MemoryRegion → List Round → Kvm → List Release → Pass
region_loop mem [] kvm log = raced kvm log
region_loop mem (r ∷ rs) kvm log = elim (get_elem? kvm.memslots mem.slot) [
  | none ↦ raced kvm log
  | some old ↦ go_on (region_loop mem rs) log (region_pass mem r old kvm)
]

unfoldable pub set_memory_region : MemoryRegion → List Round → Kvm → Pass
set_memory_region mem rounds kvm =
    if is_sane mem then region_loop mem rounds kvm [] else returned (error einval) kvm []
