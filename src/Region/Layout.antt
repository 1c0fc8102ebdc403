-- ===== src/Region/Layout.antt =====
-- Setting a memory region keeps the slots apart.
use learn_kvm.Base.{
  All, ℕ, zero, suc, ◌+◌, ◌/◌, ◌<◌, ◌^◌, ◌≡◌, ◌≢◌, ◌⊎◌, inl, inr, false, not, some, List, [], ◌∷◌,
  ◌++◌, arith, get_elem?, set, Bool-cases, Option-cases, sym, ◌∙◌, get_elem?-set_cases, ◌!=◌,
}
use learn_kvm.State.{MemorySlot, Kvm}
use learn_kvm.Slots.Layout.{Apart, IsLayout}
use learn_kvm.Region.{
  MemoryRegion, Round, Release, is_sane, overlaps, allocate_pages, allocate_bitmap, requested, Pass,
  returned, raced, resizes, region_flags, commit, build, region_pass, region_loop, go_on,
  set_memory_region,
}

-- Same frames.
abbrev pub Frames : MemorySlot → MemorySlot → Type 0
Frames a b = (a.base_gfn ≡ b.base_gfn) × (a.npages ≡ b.npages)

pub allocate_pages-Frames : (r : Round) (new : MemorySlot) → Frames (allocate_pages r new).0 new
unfolding allocate_pages
allocate_pages-Frames r new = ground arith

pub allocate_bitmap-Frames : (r : Round) (new : MemorySlot) → Frames (allocate_bitmap r new).0 new
unfolding allocate_bitmap
allocate_bitmap-Frames r new = ground arith

-- What a passed overlap check says of each other slot.
overlaps_sound :
    (slot i j : ℕ) (new b : MemorySlot) (ms : List MemorySlot)
    → overlaps slot new.base_gfn new.npages i ms ≡ false
    → new.base_gfn + new.npages < 2 ^ 64
    → get_elem? ms j ≡ some b
    → b.base_gfn + b.npages < 2 ^ 64
    → i + j ≢ slot
    → Apart new b
unfolding overlaps
overlaps_sound slot i j new b [] h fit at fits ne = cc
overlaps_sound slot i zero new b (s ∷ ss) h fit at fits ne =
    let e : i ≢ slot = omega arith in ground arith
overlaps_sound slot i (suc j) new b (s ∷ ss) h fit at fits ne =
    overlaps_sound slot (i + 1) j new b ss (ground arith) fit at fits (omega arith)

-- A slot that is apart from all others can be written.
IsLayout-set :
    (slot : ℕ) (new : MemorySlot) (ms : List MemorySlot)
    → IsLayout ms
    → new.base_gfn + new.npages < 2 ^ 64
    → ((j : ℕ) (b : MemorySlot) → get_elem? ms j ≡ some b → j ≢ slot → Apart new b)
    → IsLayout (set ms slot new)
IsLayout-set slot new ms layout fit clear = record {
  apart = λ i j a b p q ne.
      both i j a b ne (get_elem?-set_cases ms slot i new p) (get_elem?-set_cases ms slot j new q);
  fits = λ i a p. one i a (get_elem?-set_cases ms slot i new p);
}
  where
    At : ℕ → MemorySlot → Type 0
    At i a = (i ≡ slot) × (a ≡ new) ⊎ (i ≢ slot) × (get_elem? ms i ≡ some a)

    flip : (a b : MemorySlot) → Apart a b → Apart b a
    flip a b (inl h) = inr h
    flip a b (inr h) = inl h

    both : (i j : ℕ) (a b : MemorySlot) → i ≢ j → At i a → At j b → Apart a b
    both i j a b ne (inl (p, x)) (inl (q, y)) = absurd (omega arith)
    both i j a b ne (inl (p, x)) (inr (q, y)) = rw x (clear j b y q)
    both i j a b ne (inr (p, x)) (inl (q, y)) = rw y (flip new a (clear i a x p))
    both i j a b ne (inr (p, x)) (inr (q, y)) = layout.apart i j a b x y ne

    one : (i : ℕ) (a : MemorySlot) → At i a → a.base_gfn + a.npages < 2 ^ 64
    one i a (inl (p, x)) = rw x fit
    one i a (inr (p, x)) = layout.fits i a x

-- The machine that a pass leaves.
abbrev pub after : Pass → Kvm
after (returned status kvm freed) = kvm
after (raced kvm freed) = kvm

-- What other threads may do while the lock is not held: they keep the slots apart, and a change
-- of the slots changes the version.
pub record IsFair (r : Round) : Type 0 where
  pub keeps : (kvm : Kvm) → IsLayout kvm.memslots → IsLayout (r.concurrent kvm).memslots
  pub versioned :
      (kvm : Kvm)
      → (r.concurrent kvm).memory_config_version ≡ kvm.memory_config_version
      → (r.concurrent kvm).memslots ≡ kvm.memslots

commit-IsLayout :
    (slot version : ℕ) (old new : MemorySlot) (kvm : Kvm)
    → IsLayout kvm.memslots
    → (version ≡ kvm.memory_config_version → IsLayout (set kvm.memslots slot new))
    → IsLayout (after (commit slot version old new kvm)).memslots
unfolding commit
commit-IsLayout slot version old new kvm layout written =
    elim (Bool-cases (version != kvm.memory_config_version)) [
      | inl e ↦ rw e layout
      | inr e ↦ rw e (elim (Bool-cases (kvm.busy != 0)) [
        | inl b ↦ rw b layout
        | inr b ↦ rw b (written (ground arith))
      ])
    ]

build-IsLayout :
    (slot : ℕ) (r : Round) (old new : MemorySlot) (kvm : Kvm)
    → IsFair r
    → IsLayout kvm.memslots
    → new.base_gfn + new.npages < 2 ^ 64
    → ((j : ℕ) (b : MemorySlot) → get_elem? kvm.memslots j ≡ some b → j ≢ slot → Apart new b)
    → IsLayout (after (build slot r old new kvm)).memslots
unfolding build
build-IsLayout slot r old new kvm fair layout fit clear =
    elim (Bool-cases (not (allocate_pages r new).1)) [
      | inl e ↦ rw e kept
      | inr e ↦ rw e (elim (Bool-cases (not (allocate_bitmap r paged).1)) [
        | inl b ↦ rw b kept
        | inr b ↦ rw b (
            commit-IsLayout slot kvm.memory_config_version old final (r.concurrent kvm) kept
              written)
      ])
    ]
  where
    kept : IsLayout (r.concurrent kvm).memslots
    kept = fair.keeps kvm layout

    paged : MemorySlot
    paged = (allocate_pages r new).0

    final : MemorySlot
    final = (allocate_bitmap r paged).0

    same_base : final.base_gfn ≡ new.base_gfn
    same_base = (allocate_bitmap-Frames r paged).0 ∙ (allocate_pages-Frames r new).0

    same_size : final.npages ≡ new.npages
    same_size = (allocate_bitmap-Frames r paged).1 ∙ (allocate_pages-Frames r new).1

    clear_final :
        (j : ℕ) (b : MemorySlot) → get_elem? kvm.memslots j ≡ some b → j ≢ slot → Apart final b
    clear_final j b p q = rw (same_base, same_size) (clear j b p q)

    written :
        kvm.memory_config_version ≡ (r.concurrent kvm).memory_config_version
        → IsLayout (set (r.concurrent kvm).memslots slot final)
    written e =
        rw (fair.versioned kvm (sym e))
          (IsLayout-set slot final kvm.memslots layout (rw (same_base, same_size) fit) clear_final)

pass-IsLayout :
    (mem : MemoryRegion) (r : Round) (old : MemorySlot) (kvm : Kvm)
    → IsFair r
    → mem.guest_phys_addr < 2 ^ 64
    → mem.memory_size < 2 ^ 64
    → IsLayout kvm.memslots
    → IsLayout (after (region_pass mem r old kvm)).memslots
unfolding region_pass
pass-IsLayout mem r old kvm fair addr size layout = elim (Bool-cases (resizes old npages)) [
  | inl e ↦ rw e layout
  | inr e ↦ rw e (elim (Bool-cases (overlaps mem.slot base npages 0 kvm.memslots)) [
    | inl o ↦ rw o layout
    | inr o ↦ rw o (build-IsLayout mem.slot r old new kvm fair layout fit (clear o))
  ])
]
  where
    base : ℕ
    base = mem.guest_phys_addr / 4096

    npages : ℕ
    npages = mem.memory_size / 4096

    new : MemorySlot
    new = requested old base npages (region_flags mem npages)

    fit : new.base_gfn + new.npages < 2 ^ 64
    fit = unfold requested in omega arith

    clear :
        overlaps mem.slot base npages 0 kvm.memslots ≡ false
        → (j : ℕ) (b : MemorySlot) → get_elem? kvm.memslots j ≡ some b
        → j ≢ mem.slot
        → Apart new b
    clear o j b p ne =
        unfold requested in
        overlaps_sound mem.slot 0 j new b kvm.memslots o fit p (layout.fits j b p) (omega arith)

go_on-IsLayout :
    (again : Kvm → List Release → Pass) (log : List Release) (p : Pass)
    → IsLayout (after p).memslots
    → ((k : Kvm) (l : List Release) → IsLayout k.memslots → IsLayout (after (again k l)).memslots)
    → IsLayout (after (go_on again log p)).memslots
unfolding go_on
go_on-IsLayout again log (returned status k freed) h rest = h
go_on-IsLayout again log (raced k freed) h rest = rest k (log ++ freed) h

loop-IsLayout :
    (mem : MemoryRegion) (rs : List Round) (kvm : Kvm) (log : List Release)
    → All IsFair rs
    → mem.guest_phys_addr < 2 ^ 64
    → mem.memory_size < 2 ^ 64
    → IsLayout kvm.memslots
    → IsLayout (after (region_loop mem rs kvm log)).memslots
unfolding region_loop
loop-IsLayout mem [] kvm log fair addr size layout = layout
loop-IsLayout mem (r ∷ rs) kvm log fair addr size layout =
    elim (Option-cases (get_elem? kvm.memslots mem.slot)) [
      | inl e ↦ rw (e, after) layout
      | inr (old, e) ↦
          rw (e, after)
            (go_on-IsLayout (region_loop mem rs) log (region_pass mem r old kvm)
              (pass-IsLayout mem r old kvm fair.0 addr size layout)
              λ k l h. loop-IsLayout mem rs k l fair.1 addr size h)
    ]

-- Whatever the request, the answers of the allocators and the other threads, the slots do not
-- overlap after the ioctl if they did not before, provided that the other threads keep them so and
-- change the configuration's version when they change a slot.
pub set_memory_region-IsLayout :
    (mem : MemoryRegion) (rs : List Round) (kvm : Kvm)
    → All IsFair rs
    → mem.guest_phys_addr < 2 ^ 64
    → mem.memory_size < 2 ^ 64
    → IsLayout kvm.memslots
    → IsLayout (after (set_memory_region mem rs kvm)).memslots
unfolding set_memory_region
set_memory_region-IsLayout mem rs kvm fair addr size layout = elim (Bool-cases (is_sane mem)) [
  | inl e ↦ rw e (loop-IsLayout mem rs kvm [] fair addr size layout)
  | inr e ↦ rw e layout
]
