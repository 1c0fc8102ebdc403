-- ===== src/Examples/Mmu.antt =====
-- Runs of the shadow page tables' operations.
use learn_kvm.Base.{◌+◌, ◌*◌, ◌≡◌, refl, false, none, [], ◌∷◌, arith}
use learn_kvm.State.{Machine, MemorySlot, MmuPage}
use learn_kvm.Run.Laws.{Returns}
use learn_kvm.Vmcs.{has}
use learn_kvm.Slots.{gfn_to_memslot, find_slot, in_slot, gfn_to_page, mark_page_dirty}
use learn_kvm.Slots.Dirty.{IsMarked, mark_page_dirty-IsMarked}
use learn_kvm.Mmu.Pages.{read64, kvm_mmu_alloc_page, kvm_mmu_slot_remove_write_access}
use learn_kvm.Mmu.Pool.{count, IsPooled, takes, PoolStep-IsPooled}
use learn_kvm.Mmu.Protect.{
  OnlyProtects, remove_write_access-IsOff, remove_write_access-OnlyProtects,
}
use learn_kvm.Paging.Guest.{pt64}
use learn_kvm.Paging.Entry.{set_pte}
use learn_kvm.Paging.Mmio.{IsIo, set_pte-IsIo}
use learn_kvm.Paging.Rights.{Grants, set_pte-Grants}
use learn_kvm.Vmx.Masks.{pt_writable_mask}
use learn_kvm.Examples.Machines.{machine, ram, unused}

-- Two free pages.
abbrev pooled : Machine
pooled = record machine { vcpu = record machine.vcpu { free_pages = 7 ∷ 9 ∷ [] } }

PoolStep-IsPooled_example : IsPooled 7 (kvm_mmu_alloc_page 0 pooled).1
unfolding count
PoolStep-IsPooled_example =
    PoolStep-IsPooled 7 pooled (kvm_mmu_alloc_page 0 pooled).1 (takes 0) refl

-- One active page that maps slot 0, in a memory of writable entries.
abbrev mapped_page : MmuPage
mapped_page = record { page_hpa = 0x5000; slot_bitmap = 1; global = 1; parent_pte = 0 }

abbrev mapped : Machine
mapped = record machine {
  kvm = record machine.kvm { active_mmu_pages = 3 ∷ [] };
  vcpu = record machine.vcpu { page_header_buf = λ h. mapped_page };
  mem = λ w. 7;
}

remove_write_access-IsOff_example :
    has (read64 (0x5000 + 8 * 2) (kvm_mmu_slot_remove_write_access 0 mapped)) pt_writable_mask
    ≡ false
remove_write_access-IsOff_example = remove_write_access-IsOff 0 mapped 0 3 2 refl refl (omega arith)

remove_write_access-OnlyProtects_example :
    OnlyProtects mapped (kvm_mmu_slot_remove_write_access 0 mapped)
remove_write_access-OnlyProtects_example = remove_write_access-OnlyProtects 0 mapped

-- The slot without dirty logging.
abbrev unlogged_ram : MemorySlot
unlogged_ram = record ram { dirty_bitmap = none }

abbrev unlogged : Machine
unlogged = record machine {
  kvm = record machine.kvm { memslots = unlogged_ram ∷ unused ∷ unused ∷ unused ∷ [] };
}

-- A writable, dirty page of user mode, below entries that forbid user mode.
set_pte-Grants_example :
    Returns (λ _ t. Grants 0x3067 2 (read64 0x5008 t)) (set_pte pt64 0x3067 0x5008 2 unlogged)
unfolding gfn_to_memslot find_slot in_slot gfn_to_page
set_pte-Grants_example =
    set_pte-Grants 0x3067 0x5008 2 unlogged 0 43 unlogged_ram refl refl refl (omega arith)

mark_page_dirty-IsMarked_example :
    Returns (λ _ t. IsMarked 0 5 (0 ∷ []) t) (mark_page_dirty 5 machine)
unfolding gfn_to_memslot find_slot in_slot
mark_page_dirty-IsMarked_example =
    mark_page_dirty-IsMarked 5 0 0 ram (record { address = 0x2000; items = 0 ∷ [] }) machine refl
      refl refl refl

-- An address above the slot's memory.
set_pte-IsIo_example :
    Returns (λ _ t. IsIo (read64 0x5008 t)) (set_pte pt64 0xfee00067 0x5008 7 machine)
unfolding gfn_to_memslot find_slot in_slot
set_pte-IsIo_example = set_pte-IsIo 0xfee00067 0x5008 7 machine refl
