-- ===== src/User/Memory.antt =====
-- The guest's memory in a process: `kvm_dev_nopage` of src/2006-11-02/kvm-module/kvm_main.c, and `translate`
-- of src/2006-11-02/libkvm/kvmctl.c. The driver is asked for the page at every access, not only at the first.
use learn_kvm.Base.{
  ℕ, zero, suc, ◌+◌, ◌-◌, ◌*◌, ◌%◌, ◌&&◌, ◌||◌, ltb, leb, ◌==◌, ◌!=◌, if◌then◌else◌, Option, none,
  some, List, [], ◌∷◌, bit_and, not64, u64, shr,
}
use learn_kvm.Status.{Status, success, error, efault}
use learn_kvm.Slots.{gfn_to_memslot, gfn_to_page}
use learn_kvm.GuestMemory.Bytes.{read_byte, write_byte}
use learn_kvm.Ioctl.Debug.{KvmTranslation, kvm_dev_ioctl_translate}
use learn_kvm.Vmx.Masks.{page_shift, page_size}
use learn_kvm.Run as Run
use learn_kvm.Run.{Cmd, deref}
use learn_kvm.User.{User, KvmContext, ioctl, give, killed, ◌>>=◌}

-- struct vm_area_struct.
pub record VmArea : Type 0 where
  pub vm_start : ℕ
  pub vm_pgoff : ℕ

-- `none` is NOPAGE_SIGBUS.
unfoldable pub kvm_dev_nopage : VmArea → ℕ → Cmd (Option ℕ)
kvm_dev_nopage vma address s =
    let pgoff = u64 (shr (address - vma.vm_start) page_shift + vma.vm_pgoff) in
    elim (gfn_to_memslot s.kvm pgoff) [
      | none ↦ Run.pure none s
      | some (i, slot) ↦ deref (gfn_to_page slot pgoff) s
    ]

module _ {O : Type 0} (kvm : KvmContext O) where
  -- The place of a mapped byte in the host's memory.
  unfoldable pub touch : ℕ → User O ℕ
  touch address =
      if ltb address kvm.physical_memory || leb (kvm.physical_memory + kvm.mapped) address
      then (λ s o. killed)
      else do
        page ←
            ioctl (kvm_dev_nopage (record { vm_start = kvm.physical_memory; vm_pgoff = 0 }) address)
        elim page [ none ↦ λ s o. killed | some pfn ↦ give (pfn * page_size + address % page_size) ]

  unfoldable pub load_bytes : ℕ → ℕ → User O (List ℕ)
  load_bytes zero address = give []
  load_bytes (suc n) address = do
    place ← touch address
    b ← λ s o. give (read_byte place s) s o
    rest ← load_bytes n (address + 1)
    give (b ∷ rest)

  unfoldable pub store_bytes : ℕ → List ℕ → User O (Unit {0})
  store_bytes address [] = give tt
  store_bytes address (b ∷ bs) = do
    place ← touch address
    λ s o. store_bytes (address + 1) bs (write_byte place b s) o

-- struct translation_cache; 0 is NULL.
pub record TranslationCache : Type 0 where
  pub linear : ℕ
  pub physical : ℕ

unfoldable pub translation_cache_init : TranslationCache → TranslationCache
translation_cache_init tr = record tr { physical = 0 }

-- What the lookup of a page found, with the cache.
unfoldable pub found :
    {O : Type 0}
    → KvmContext O
    → ℕ
    → TranslationCache
    → Status × KvmTranslation
    → Status × TranslationCache
found kvm page tr (error e, kvm_tr) = (error e, tr)
found kvm page tr (success, kvm_tr) = if kvm_tr.valid == 0 then (error efault, tr) else (
  success,
  record { linear = page; physical = u64 (kvm.physical_memory + kvm_tr.physical_address) },
)

-- The cache holds the page, or the driver is asked. The fields of `kvm_tr` that are not set before the call are 0.
unfoldable pub look_up :
    {O : Type 0} → KvmContext O → ℕ → TranslationCache → ℕ → User O (Status × TranslationCache)
look_up kvm vcpu tr page = if tr.physical != 0 && tr.linear == page then give (success, tr) else (do
  answer ← ioctl (
      kvm_dev_ioctl_translate (record {
        linear_address = page;
        vcpu = vcpu;
        physical_address = 0;
        valid = 0;
        writeable = 0;
        usermode = 0;
      }))
  give (found kvm page tr answer))

unfoldable pub address_in : ℕ → Status × TranslationCache → Option ℕ × TranslationCache
address_in offset (success, tr) = (some (u64 (tr.physical + offset)), tr)
address_in offset (error e, tr) = (none, tr)

-- The address is `none` where the result is an error.
unfoldable pub translate :
    {O : Type 0} → KvmContext O → ℕ → TranslationCache → ℕ → User O (Option ℕ × TranslationCache)
translate kvm vcpu tr linear = do
  looked ← look_up kvm vcpu tr (bit_and linear (not64 (page_size - 1)))
  give (address_in (bit_and linear (page_size - 1)) looked)
