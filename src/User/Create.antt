-- ===== src/User/Create.antt =====
-- The creation of a virtual machine by a process: `kvm_init`, `kvm_create`, `kvm_create_phys_mem`,
-- `kvm_destroy_phys_mem` and `kvm_get_dirty_pages` of src/2006-11-02/libkvm/kvmctl.c. The answers of `mmap`,
-- and the host's and other threads' part in the ioctls, are parameters.
use learn_kvm.Base.{ℕ, ◌-◌, Bool, ltb, ◌!=◌, if◌then◌else◌, Option, none, some, List}
use learn_kvm.Status.{Status, success, error}
use learn_kvm.Region.{MemoryRegion, Round}
use learn_kvm.Region.Ioctl.{kvm_dev_ioctl_set_memory_region}
use learn_kvm.Setup.Host.{Host}
use learn_kvm.Setup.Vcpu.{kvm_dev_ioctl_create_vcpu}
use learn_kvm.Slots.Log.{kvm_dev_ioctl_get_dirty_log}
use learn_kvm.Vmx.Masks.{kvm_mem_log_dirty_pages}
use learn_kvm.User.{User, KvmContext, KvmCallbacks, give, quit, ioctl, ◌>>=◌, ◌>>◌}

abbrev dosmem : ℕ
dosmem = 0xa0000

abbrev exmem : ℕ
exmem = 0xc0000

-- `/dev/kvm` is open.
unfoldable pub kvm_init : {O : Type 0} → KvmCallbacks O → KvmContext O
kvm_init callbacks = record { callbacks = callbacks; physical_memory = 0; mapped = 0 }

unfoldable pub low_memory : ℕ → MemoryRegion
low_memory memory = record {
  slot = 3;
  flags = 0;
  guest_phys_addr = 0;
  memory_size = if ltb memory dosmem then memory else dosmem;
}

unfoldable pub extended_memory : ℕ → MemoryRegion
extended_memory memory = record {
  slot = 0;
  flags = 0;
  guest_phys_addr = exmem;
  memory_size = if ltb memory exmem then 0 else memory - exmem;
}

module _ {O : Type 0} where
  -- An error ends the process.
  unfoldable pub insist : Status → User O (Unit {0})
  insist success = give tt
  insist (error e) = quit

  -- KVM_SET_MEMORY_REGION.
  unfoldable pub set_region : MemoryRegion → List Round → User O Status
  set_region mem rounds = do
    (status, log) ← ioctl (kvm_dev_ioctl_set_memory_region mem rounds)
    give status

  unfoldable pub set_extended : MemoryRegion → List Round → User O (Unit {0})
  set_extended mem rounds =
      if mem.memory_size != 0 then (set_region mem rounds >>= insist) else give tt

  -- `none` is MAP_FAILED. The context is the new one.
  unfoldable pub map_memory : KvmContext O → ℕ → Option ℕ → User O (KvmContext O)
  map_memory kvm memory none = quit
  map_memory kvm memory (some vm_mem) =
      give (record kvm { physical_memory = vm_mem; mapped = memory })

  unfoldable pub kvm_create :
      KvmContext O → ℕ → Host → List Round → List Round → Option ℕ → User O (KvmContext O)
  kvm_create kvm memory host low_rounds extended_rounds vm_mem = do
    low ← set_region (low_memory memory) low_rounds
    insist low
    set_extended (extended_memory memory) extended_rounds
    kvm' ← map_memory kvm memory vm_mem
    r ← ioctl (kvm_dev_ioctl_create_vcpu host 0)
    insist r
    give kvm'

  -- `none` is the result 0. `writable` only chooses the protection of the mapping.
  unfoldable pub kvm_create_phys_mem : ℕ → ℕ → ℕ → Bool → List Round → Option ℕ → User O (Option ℕ)
  kvm_create_phys_mem phys_start len slot log rounds ptr = do
    r ←
        set_region
          (record {
            slot = slot;
            flags = if log then kvm_mem_log_dirty_pages else 0;
            guest_phys_addr = phys_start;
            memory_size = len;
          })
          rounds
    give (mapped_at ptr r)
    where
      mapped_at : Option ℕ → Status → Option ℕ
      mapped_at ptr success = ptr
      mapped_at ptr (error e) = none

  unfoldable pub kvm_destroy_phys_mem : ℕ → ℕ → User O (Unit {0})
  kvm_destroy_phys_mem phys_start len = quit

  -- The bytes that are stored to the buffer.
  unfoldable pub kvm_get_dirty_pages : ℕ → Bool → User O (List ℕ)
  kvm_get_dirty_pages slot copied = do
    (status, bytes) ← ioctl (kvm_dev_ioctl_get_dirty_log slot copied)
    insist status
    give bytes
