-- ===== src/Examples/Slots.antt =====
-- Runs of the slots' operations.
use learn_kvm.Base.{
  ℕ, zero, suc, ◌+◌, ◌≤◌, ◌<◌, ◌^◌, ◌≡◌, ◌≢◌, ◌↔◌, refl, subst, inl, inr, arith, none, some, [],
  ◌∷◌, get_elem?,
}
use learn_kvm.State.{MemorySlot, Machine}
use learn_kvm.Slots.{gfn_to_memslot}
use learn_kvm.Slots.Layout.{Apart, IsLayout, Holds, gfn_to_memslot_iff}
use learn_kvm.Region.{MemoryRegion, Round, set_memory_region, is_sane, overlaps}
use learn_kvm.Region.Layout.{IsFair, after, set_memory_region-IsLayout}
use learn_kvm.Region.Outcome.{
  Settled, set_memory_region-Settled, FreesNull, OutOfMemory, set_memory_region-FreesNull,
}
use learn_kvm.Run.Laws.{Returns}
use learn_kvm.Mmu.Pool.{count}
use learn_kvm.Region.Ioctl.{kvm_dev_ioctl_set_memory_region}
use learn_kvm.Region.Renewed.{IsRenewed, set_memory_region-IsRenewed}
use learn_kvm.Examples.Machines.{machine, cpu, vm, ram, unused}

rest-unused :
    (i : ℕ) (a : MemorySlot) → get_elem? (unused ∷ unused ∷ unused ∷ []) i ≡ some a → unused ≡ a
rest-unused zero a e = cc
rest-unused (suc zero) a e = cc
rest-unused (suc (suc zero)) a e = cc
rest-unused (suc (suc (suc i))) a e = cc

vm-Apart :
    (i j : ℕ) (a b : MemorySlot)
    → get_elem? vm.memslots i ≡ some a
    → get_elem? vm.memslots j ≡ some b
    → i ≢ j
    → Apart a b
vm-Apart (suc i) j a b p q ne =
    let e = rest-unused i a p in
    inl (subst (λ (m : MemorySlot). m.base_gfn + m.npages ≤ b.base_gfn) e (omega arith))
vm-Apart zero (suc j) a b p q ne =
    let e = rest-unused j b q in
    inr (subst (λ (m : MemorySlot). m.base_gfn + m.npages ≤ a.base_gfn) e (omega arith))
vm-Apart zero zero a b p q ne = absurd (ne refl)

vm-fits :
    (i : ℕ) (a : MemorySlot) → get_elem? vm.memslots i ≡ some a → a.base_gfn + a.npages < 2 ^ 64
vm-fits zero a p =
    let e : ram ≡ a = cc in
    subst (λ (m : MemorySlot). m.base_gfn + m.npages < 2 ^ 64) e (omega arith)
vm-fits (suc i) a p =
    subst (λ (m : MemorySlot). m.base_gfn + m.npages < 2 ^ 64) (rest-unused i a p) (omega arith)

vm-IsLayout : IsLayout vm.memslots
vm-IsLayout = record { apart = vm-Apart; fits = vm-fits }

gfn_to_memslot_iff_example :
    (gfn_to_memslot vm 5 ≡ some (0, ram))
    ↔ ((0 < vm.nmemslots) × (get_elem? vm.memslots 0 ≡ some ram) × Holds ram 5)
gfn_to_memslot_iff_example = gfn_to_memslot_iff vm vm-IsLayout 5 0 ram

-- A second slot of two pages, and a kernel that has memory for it.
abbrev second : MemoryRegion
second = record { slot = 1; flags = 0; guest_phys_addr = 0x10000; memory_size = 0x2000 }

abbrev plenty : Round
plenty = record {
  page_array = some 0x3000;
  alloc_page = λ i. some (60 + i);
  bitmap = some 0x4000;
  concurrent = λ k. k;
}

-- One page only.
abbrev scarce : Round
scarce = record {
  page_array = some 0x3000;
  alloc_page = λ i. elim i [ zero ↦ some 60 | suc _ ↦ none ];
  bitmap = none;
  concurrent = λ k. k;
}

plenty-IsFair : IsFair plenty
plenty-IsFair = record { keeps = λ k h. h; versioned = λ k e. refl }

set_memory_region-IsLayout_example :
    IsLayout (after (set_memory_region second (plenty ∷ []) vm)).memslots
set_memory_region-IsLayout_example =
    set_memory_region-IsLayout second (plenty ∷ []) vm (plenty-IsFair, tt) (omega arith)
      (omega arith) vm-IsLayout

set_memory_region-Settled_example : Settled 1 16 2 vm (set_memory_region second (plenty ∷ []) vm)
set_memory_region-Settled_example = set_memory_region-Settled second plenty [] vm (λ k. refl) refl

set_memory_region-FreesNull_example :
    OutOfMemory FreesNull (set_memory_region second (scarce ∷ []) vm)
unfolding is_sane overlaps
set_memory_region-FreesNull_example =
    set_memory_region-FreesNull second scarce [] vm unused 0x3000 1 refl refl refl refl refl refl
      (omega arith) refl

abbrev with_page : Machine
with_page = record machine { vcpu = record cpu { free_pages = 7 ∷ [] } }

set_memory_region-IsRenewed_example :
    Returns
      (IsRenewed 7 second with_page)
      (kvm_dev_ioctl_set_memory_region second (plenty ∷ []) with_page)
unfolding count
set_memory_region-IsRenewed_example =
    set_memory_region-IsRenewed 7 second plenty [] with_page refl (λ k. refl) refl
