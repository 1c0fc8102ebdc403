-- ===== src/Region/Outcome.antt =====
-- What one undisturbed request does: an error changes nothing, a success installs the slot, and a
-- page allocation that fails half way hands a NULL page back.
use learn_kvm.Base.{
  ℕ, zero, suc, ◌+◌, ◌/◌, ◌<◌, ◌≡◌, refl, inl, inr, Bool, true, false, not, Option, none, some,
  List, [], ◌∷◌, ◌++◌, arith, get_elem?, set, length, Bool-cases, Option-cases, ap, ◌∙◌, ◌!=◌,
  length-le_of_none,
}
use native.Mathlib.Nat.{add-zero, zero-add}
use learn_kvm.State.{MemorySlot, Kvm, Vmalloc}
use learn_kvm.Status.{success, error, enomem}
use learn_kvm.Region.{
  MemoryRegion, Round, Release, free_page, vfree, is_sane, overlaps, allocate_pages,
  allocate_bitmap, requested, Pass, returned, raced, resizes, region_flags, commit, build,
  region_pass, region_loop, go_on, set_memory_region, fill_pages, free_pages, kvm_free_physmem_slot,
  free_array, free_bitmap,
}
use learn_kvm.Region.Layout.{allocate_pages-Frames, allocate_bitmap-Frames}

-- Nobody else changes the machine while the lock is not held.
abbrev pub IsQuiet : Round → Type 0
IsQuiet r = (kvm : Kvm) → r.concurrent kvm ≡ kvm

-- The slot in place covers the requested frames, the configuration is a new version, and the other
-- slots and the shadow pages are as they were.
pub record Installed (slot base_gfn npages : ℕ) (kvm kvm' : Kvm) : Type 0 where
  pub new : MemorySlot
  pub slots : kvm'.memslots ≡ set kvm.memslots slot new
  pub base : new.base_gfn ≡ base_gfn
  pub size : new.npages ≡ npages
  pub version : kvm'.memory_config_version ≡ kvm.memory_config_version + 1
  pub counted : slot < kvm'.nmemslots
  pub pages : kvm'.active_mmu_pages ≡ kvm.active_mmu_pages

-- The call returns; an error leaves the machine as it is.
abbrev pub Settled : (slot base_gfn npages : ℕ) → Kvm → Pass → Type 0
Settled slot b n kvm (returned success kvm' freed) = Installed slot b n kvm kvm'
Settled slot b n kvm (returned (error e) kvm' freed) = kvm' ≡ kvm
Settled slot b n kvm (raced kvm' freed) = ⊥

commit-Settled :
    (slot b n : ℕ) (old new : MemorySlot) (kvm : Kvm)
    → new.base_gfn ≡ b
    → new.npages ≡ n
    → Settled slot b n kvm (commit slot kvm.memory_config_version old new kvm)
unfolding commit
commit-Settled slot b n old new kvm based sized = elim (Bool-cases (kvm.busy != 0)) [
  | inl e ↦ rw (same, e, Settled) refl
  | inr e ↦
      rw (same, e, Settled)
        (record {
          new = new;
          slots = refl;
          base = based;
          size = sized;
          version = refl;
          counted = ground arith;
          pages = refl;
        })
]
  where
    same : (kvm.memory_config_version != kvm.memory_config_version) ≡ false
    same = ground arith

build-Settled :
    (slot : ℕ) (r : Round) (old new : MemorySlot) (kvm : Kvm)
    → IsQuiet r
    → Settled slot new.base_gfn new.npages kvm (build slot r old new kvm)
unfolding build
build-Settled slot r old new kvm quiet =
    rw (quiet kvm) (elim (Bool-cases (not (allocate_pages r new).1)) [
      | inl e ↦ rw (e, Settled) refl
      | inr e ↦
          rw (e, Settled)
            (elim (Bool-cases (not (allocate_bitmap r paged).1)) [
              | inl b ↦ rw (b, Settled) refl
              | inr b ↦
                  rw b
                    (commit-Settled slot new.base_gfn new.npages old final kvm same_base same_size)
            ])
    ])
  where
    paged : MemorySlot
    paged = (allocate_pages r new).0

    final : MemorySlot
    final = (allocate_bitmap r paged).0

    same_base : final.base_gfn ≡ new.base_gfn
    same_base = (allocate_bitmap-Frames r paged).0 ∙ (allocate_pages-Frames r new).0

    same_size : final.npages ≡ new.npages
    same_size = (allocate_bitmap-Frames r paged).1 ∙ (allocate_pages-Frames r new).1

pass-Settled :
    (mem : MemoryRegion) (r : Round) (old : MemorySlot) (kvm : Kvm)
    → IsQuiet r
    → Settled mem.slot
        (mem.guest_phys_addr / 4096)
        (mem.memory_size / 4096)
        kvm
        (region_pass mem r old kvm)
unfolding region_pass
pass-Settled mem r old kvm quiet = elim (Bool-cases (resizes old npages)) [
  | inl e ↦ rw (e, Settled) refl
  | inr e ↦
      rw (e, Settled)
        (elim (Bool-cases (overlaps mem.slot base npages 0 kvm.memslots)) [
          | inl o ↦ rw (o, Settled) refl
          | inr o ↦ rw o (unfold requested in build-Settled mem.slot r old new kvm quiet)
        ])
]
  where
    base : ℕ
    base = mem.guest_phys_addr / 4096

    npages : ℕ
    npages = mem.memory_size / 4096

    new : MemorySlot
    new = requested old base npages (region_flags mem npages)

slot-lt : (mem : MemoryRegion) → is_sane mem ≡ true → mem.slot < 4
unfolding is_sane
slot-lt mem h = ground arith

go_on-Settled :
    (slot b n : ℕ) (kvm : Kvm) (again : Kvm → List Release → Pass) (p : Pass)
    → Settled slot b n kvm p
    → Settled slot b n kvm (go_on again [] p)
unfolding go_on
go_on-Settled slot b n kvm again (returned success k freed) h = h
go_on-Settled slot b n kvm again (returned (error e) k freed) h = h
go_on-Settled slot b n kvm again (raced k freed) h = absurd h

-- With nobody else at work the ioctl returns in its first pass. An error leaves the machine as it
-- was; a success puts a slot over exactly the requested frames in the requested place, leaves the
-- other slots alone, counts the slot in use and makes a new version.
pub set_memory_region-Settled :
    (mem : MemoryRegion) (r : Round) (rs : List Round) (kvm : Kvm)
    → IsQuiet r
    → length kvm.memslots ≡ 4
    → Settled mem.slot
        (mem.guest_phys_addr / 4096)
        (mem.memory_size / 4096)
        kvm
        (set_memory_region mem (r ∷ rs) kvm)
unfolding set_memory_region region_loop
set_memory_region-Settled mem r rs kvm quiet four = elim (Bool-cases (is_sane mem)) [
  | inr e ↦ rw (e, Settled) refl
  | inl e ↦ rw e (elim (Option-cases (get_elem? kvm.memslots mem.slot)) [
    | inl o ↦ absurd (omega (arith, slot-lt mem e, length-le_of_none kvm.memslots mem.slot o))
    | inr (old, o) ↦
        rw (o, Settled)
          (go_on-Settled mem.slot _ _ kvm (region_loop mem rs) (region_pass mem r old kvm)
            (pass-Settled mem r old kvm quiet))
  ])
]

-- A page that could not be had is among the pages given back.
abbrev pub FreesNull : List Release → Type 0
FreesNull [] = ⊥
FreesNull (free_page none ∷ log) = Unit
FreesNull (_ ∷ log) = FreesNull log

FreesNull-append : (xs ys : List Release) → FreesNull xs → FreesNull (xs ++ ys)
FreesNull-append [] ys h = absurd h
FreesNull-append (free_page none ∷ xs) ys h = tt
FreesNull-append (free_page (some p) ∷ xs) ys h = FreesNull-append xs ys h
FreesNull-append (vfree p ∷ xs) ys h = FreesNull-append xs ys h

fill_pages-FreesNull :
    (n i j : ℕ) (alloc : ℕ → Option ℕ)
    → j < n
    → alloc (i + j) ≡ none
    → ((fill_pages n i alloc).1 ≡ false) × FreesNull (free_pages n (fill_pages n i alloc).0)
unfolding fill_pages free_pages
fill_pages-FreesNull zero i j alloc lt fails = absurd (omega arith)
fill_pages-FreesNull (suc n) i zero alloc lt fails =
    let now : alloc i ≡ none = rw add-zero at fails in rw (now, fill_pages, free_pages) (refl, tt)
fill_pages-FreesNull (suc n) i (suc j) alloc lt fails = elim (Option-cases (alloc i)) [
  | inl e ↦ rw (e, fill_pages, free_pages) (refl, tt)
  | inr (p, e) ↦
      let shift : i + suc j ≡ i + 1 + j = omega arith in
      let later : alloc (i + 1 + j) ≡ none = rw shift at fails in
      rw (e, fill_pages, free_pages) (fill_pages-FreesNull n (i + 1) j alloc (omega arith) later)
]

-- The log of a call that has returned out of memory.
abbrev pub OutOfMemory : (List Release → Type 0) → Pass → Type 0
OutOfMemory P (returned (error enomem) kvm log) = P log
OutOfMemory P p = ⊥

array-FreesNull :
    (slot old : MemorySlot) (v : Vmalloc (Option ℕ))
    → slot.phys_mem ≡ some v
    → old.phys_mem ≡ none
    → FreesNull (free_pages slot.npages v.items)
    → FreesNull (kvm_free_physmem_slot slot (some old)).0
unfolding kvm_free_physmem_slot free_array
array-FreesNull slot old v own was null =
    FreesNull-append (free_array slot (some old)) (free_bitmap slot (some old)) (
      rw (own, was)
        (FreesNull-append (free_pages slot.npages v.items) (vfree (some v.address) ∷ []) null))

-- The page of frame `j` cannot be had for a new slot.
module _ (slot address j : ℕ) (r : Round) (old new : MemorySlot) (kvm : Kvm)
    (fresh : new.phys_mem ≡ none) (was : old.phys_mem ≡ none) (array : r.page_array ≡ some address)
    (lt : j < new.npages) (fails : r.alloc_page j ≡ none) where
  short :
      ((fill_pages new.npages 0 r.alloc_page).1 ≡ false)
      × FreesNull (free_pages new.npages (fill_pages new.npages 0 r.alloc_page).0)
  short = fill_pages-FreesNull new.npages 0 j r.alloc_page lt (rw (zero-add j) fails)

  abbrev half_filled : Vmalloc (Option ℕ)
  half_filled = record { address = address; items = (fill_pages new.npages 0 r.alloc_page).0 }

  allocated : allocate_pages r new ≡ (record new { phys_mem = some half_filled }, false)
  unfolding allocate_pages
  allocated =
      let positive : (new.npages != 0) ≡ true = ground arith in
      rw (positive, fresh, array)
        (ap (λ (b : Bool). (record new { phys_mem = some half_filled }, b)) short.0)

  -- `__free_page` is called on a NULL page on the way out.
  build-FreesNull : OutOfMemory FreesNull (build slot r old new kvm)
  unfolding build
  build-FreesNull =
      rw (allocated, OutOfMemory)
        (array-FreesNull (record new { phys_mem = some half_filled }) old half_filled refl was
          short.1)

go_on-OutOfMemory :
    (P : List Release → Type 0) (again : Kvm → List Release → Pass) (p : Pass)
    → OutOfMemory P p
    → OutOfMemory P (go_on again [] p)
unfolding go_on
go_on-OutOfMemory P again (returned st k freed) h = h
go_on-OutOfMemory P again (raced k freed) h = absurd h

-- A request that creates a slot, passes every check and gets its page array, but not the page of
-- some frame `j` in it, returns -ENOMEM after `__free_page` has been called on a NULL page.
pub set_memory_region-FreesNull :
    (mem : MemoryRegion) (r : Round) (rs : List Round) (kvm : Kvm) (old : MemorySlot)
    (address j : ℕ)
    → is_sane mem ≡ true
    → get_elem? kvm.memslots mem.slot ≡ some old
    → old.npages ≡ 0
    → old.phys_mem ≡ none
    → overlaps mem.slot (mem.guest_phys_addr / 4096) (mem.memory_size / 4096) 0 kvm.memslots ≡ false
    → r.page_array ≡ some address
    → j < mem.memory_size / 4096
    → r.alloc_page j ≡ none
    → OutOfMemory FreesNull (set_memory_region mem (r ∷ rs) kvm)
unfolding set_memory_region region_loop region_pass requested
set_memory_region-FreesNull mem r rs kvm old address j sane at empty was clear array lt fails =
    rw (sane, at, OutOfMemory)
      (go_on-OutOfMemory FreesNull (region_loop mem rs) (region_pass mem r old kvm) (
        rw (same_size, clear, OutOfMemory)
          (build-FreesNull mem.slot address j r old new kvm fresh was array lt fails)))
  where
    same_size : resizes old (mem.memory_size / 4096) ≡ false
    same_size = ground arith

    new : MemorySlot
    new =
        requested old (mem.guest_phys_addr / 4096) (mem.memory_size / 4096)
          (region_flags mem (mem.memory_size / 4096))

    fresh : new.phys_mem ≡ none
    fresh = ground arith
