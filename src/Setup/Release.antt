-- ===== src/Setup/Release.antt =====
-- `kvm_dev_open` and `kvm_dev_release` of src/2006-11-02/kvm-module/kvm_main.c.
use learn_kvm.Base.{ℕ, zero, suc, Bool, true, false, none, List, [], ◌∷◌, ◌++◌, replicate}
use learn_kvm.State.{Machine, Kvm, Vcpu, MemorySlot, unset}
use learn_kvm.Status.{Status, success, error, enomem}
use learn_kvm.Region.{Release, kvm_free_physmem_slot}
use learn_kvm.Setup.Vcpu.{kvm_free_vcpu}
use learn_kvm.Vmx.Masks.{invalid_page, kvm_memory_slots}

-- What `kzalloc` gives.
abbrev pub zero_slot : MemorySlot
zero_slot = record { base_gfn = 0; npages = 0; flags = 0; phys_mem = none; dirty_bitmap = none }

abbrev pub zero_kvm : Kvm
zero_kvm = record {
  nmemslots = 0;
  memslots = replicate kvm_memory_slots zero_slot;
  active_mmu_pages = [];
  memory_config_version = 0;
  busy = 0;
}

-- All zero but the root of the shadow tables.
abbrev pub new_vcpu : Vcpu
new_vcpu = record {
  vmcs = false;
  launched = 0;
  irq_summary = 0;
  irq_pending = λ _. 0;
  regs = λ _. 0;
  rip = 0;
  cr2 = 0;
  cr3 = 0;
  cr8 = 0;
  shadow_efer = 0;
  apic_base = 0;
  guest_msrs = [];
  free_pages = [];
  page_header_buf = λ _. record { page_hpa = 0; slot_bitmap = 0; global = 0; parent_pte = 0 };
  mmu = record { mode = unset; root_hpa = invalid_page; root_level = 0; shadow_root_level = 0 };
  guest_debug = record { enabled = 0; bp = λ _. 0; singlestep = 0 };
  mmio = record {
    needed = false;
    read_completed = false;
    is_write = false;
    size = 0;
    bytes = 0;
    phys_addr = 0;
  };
  rmode = record { active = false; save_iopl = 0; tr = record { base = 0; limit = 0; ar = 0 } };
}

-- `allocated` is the answer of `kzalloc`.
unfoldable pub kvm_dev_open : Bool → Machine → Status × Machine
kvm_dev_open false s = (error enomem, s)
kvm_dev_open true s = (success, record s { kvm = zero_kvm; vcpu = new_vcpu })

-- The first `n` slots.
unfoldable pub free_slots : ℕ → List MemorySlot → List Release × List MemorySlot
free_slots zero slots = ([], slots)
free_slots (suc n) [] = ([], [])
free_slots (suc n) (m ∷ slots) =
    let (released, m') = kvm_free_physmem_slot m none in
    let (more, slots') = free_slots n slots in (released ++ more, m' ∷ slots')

unfoldable pub kvm_free_physmem : Kvm → List Release × Kvm
kvm_free_physmem kvm =
    let (released, slots) = free_slots kvm.nmemslots kvm.memslots in
    (released, record kvm { memslots = slots })

-- There is one vcpu.
unfoldable pub kvm_free_vcpus : Machine → Machine
kvm_free_vcpus s = kvm_free_vcpu s

-- `kvm` itself is freed, so that what is left of it is of no use.
unfoldable pub kvm_dev_release : Machine → List Release × Machine
kvm_dev_release s =
    let s' = kvm_free_vcpus s in
    let (released, kvm) = kvm_free_physmem s'.kvm in (released, record s' { kvm = kvm })
