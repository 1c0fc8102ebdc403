-- ===== src/Slots/Log.antt =====
-- `kvm_dev_ioctl_get_dirty_log` of src/2006-11-02/kvm-module/kvm_main.c, in one step: the other threads
-- that may run while the lock is not held are left out, `copied` is whether user space takes the copy.
use learn_kvm.Base.{
  ℕ, zero, suc, ◌+◌, ◌-◌, ◌*◌, ◌/◌, ◌^◌, Bool, not, ◌&&◌, leb, ◌!=◌, if◌then◌else◌, Option, none,
  some, List, [], ◌∷◌, ◌++◌, get_elem?, take, u32, u64,
}
use learn_kvm.State.{Machine, MemorySlot, Vmalloc}
use learn_kvm.Run.{Cmd, ◌>>=◌, ◌>>◌, pure, act, deref}
use learn_kvm.Status.{Status, success, error, einval, enoent, efault}
use learn_kvm.Vmcs.{flush_guest_tlb}
use learn_kvm.Slots.{with_slot}
use learn_kvm.GuestMemory.Bytes.{to_bytes}
use learn_kvm.Mmu.Pages.{kvm_mmu_slot_remove_write_access}
use learn_kvm.Vmx.Masks.{kvm_memory_slots}

-- The loop over `dirty_bitmap[i]` for `n` more values of `i`; `none` if it leaves the array.
unfoldable pub any_dirty : ℕ → ℕ → List ℕ → Option ℕ
any_dirty zero i words = some 0
any_dirty (suc n) i words =
    let rest = any_dirty n (i + 1) words in
    elim (get_elem? words i) [ none ↦ none | some w ↦ if w != 0 then some w else rest ]

-- `memset(dirty_bitmap, 0, n)`, of `n` bytes.
unfoldable pub clear_bytes : ℕ → List ℕ → List ℕ
clear_bytes n [] = []
clear_bytes n (w ∷ words) =
    (if leb 8 n then 0 else w / 2 ^ (8 * n) * 2 ^ (8 * n)) ∷ clear_bytes (n - 8) words

-- `n`, the 32 bits of an `int`: `ALIGN(memslot->npages, 8) / 8`, cut off. It is negative where bit 31 is set.
unfoldable pub dirty_bytes : MemorySlot → ℕ
dirty_bytes memslot = u32 (u64 (memslot.npages + 7) / 8)

unfoldable pub is_negative : ℕ → Bool
is_negative n = leb (2 ^ 31) n

-- The rounds of the search, none with a negative `n`.
unfoldable pub search_rounds : MemorySlot → ℕ
search_rounds memslot = let n = dirty_bytes memslot in if is_negative n then 0 else n

-- The bytes of an array of words.
unfoldable pub bytes_of : List ℕ → List ℕ
bytes_of [] = []
bytes_of (w ∷ words) = to_bytes 8 w ++ bytes_of words

-- The pages are protected and the log starts again.
unfoldable pub restart_log : ℕ → MemorySlot → Vmalloc ℕ → Machine → Machine
restart_log slot memslot map s =
    let cleared = record memslot {
      dirty_bitmap = some (record map { items = clear_bytes (dirty_bytes memslot) map.items });
    } in
    let s' = with_slot slot cleared (kvm_mmu_slot_remove_write_access slot s) in
    if s'.vcpu.vmcs then flush_guest_tlb s' else s'

-- `kvm->busy` is raised at the start and lowered at the end, so that it is as before in the result.
-- With success come the `n` bytes of the bitmap that are copied to user space. A negative `n` is a size that
-- no process has room for, so that the copy fails.
unfoldable pub kvm_dev_ioctl_get_dirty_log : ℕ → Bool → Cmd (Status × List ℕ)
kvm_dev_ioctl_get_dirty_log slot copied s =
    if leb kvm_memory_slots slot
    then pure (error einval, []) s
    else (do
      memslot ← deref (get_elem? s.kvm.memslots slot)
      elim memslot.dirty_bitmap [
        | none ↦ pure (error enoent, [])
        | some map ↦ do
          any ← deref (any_dirty (search_rounds memslot) 0 map.items)
          if copied && not (is_negative (dirty_bytes memslot))
              then act (if any != 0 then restart_log slot memslot map else λ t. t)
                >> pure (success, take (dirty_bytes memslot) (bytes_of map.items))
              else pure (error efault, [])
      ])
        s
