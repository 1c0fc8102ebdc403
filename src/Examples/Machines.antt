-- ===== src/Examples/Machines.antt =====
-- A virtual machine for the tests: one slot of eight pages, dirty logging on, in real mode.
use learn_kvm.Base.{ℕ, ◌^◌, ◌-◌, true, false, Option, none, some, List, [], ◌∷◌}
use learn_kvm.State.{MmuPage, MemorySlot, Kvm, MsrEntry, Vcpu, Machine, nonpaging}
use learn_kvm.Vmx.Masks.{msr_efer}

abbrev pub pages : List (Option ℕ)
pages = some 40 ∷ some 41 ∷ some 42 ∷ some 43 ∷ some 44 ∷ some 45 ∷ some 46 ∷ some 47 ∷ []

abbrev pub ram : MemorySlot
ram = record {
  base_gfn = 0;
  npages = 8;
  flags = 1;
  phys_mem = some (record { address = 0x1000; items = pages });
  dirty_bitmap = some (record { address = 0x2000; items = 0 ∷ [] });
}

abbrev pub unused : MemorySlot
unused = record { base_gfn = 0; npages = 0; flags = 0; phys_mem = none; dirty_bitmap = none }

abbrev pub efer_entry : MsrEntry
efer_entry = record { index = msr_efer; value = 0 }

abbrev pub no_page : MmuPage
no_page = record { page_hpa = 0; slot_bitmap = 0; global = 0; parent_pte = 0 }

abbrev pub vm : Kvm
vm = record {
  nmemslots = 1;
  memslots = ram ∷ unused ∷ unused ∷ unused ∷ [];
  active_mmu_pages = [];
  memory_config_version = 0;
  busy = 0;
}

abbrev pub cpu : Vcpu
cpu = record {
  vmcs = true;
  launched = 0;
  irq_summary = 0;
  irq_pending = λ i. 0;
  regs = λ i. 0;
  rip = 0;
  cr2 = 0;
  cr3 = 0;
  cr8 = 0;
  shadow_efer = 0;
  apic_base = 0;
  guest_msrs = efer_entry ∷ [];
  free_pages = [];
  page_header_buf = λ h. no_page;
  mmu = record { mode = nonpaging; root_hpa = 2 ^ 64 - 1; root_level = 3; shadow_root_level = 3 };
  guest_debug = record { enabled = 0; bp = λ i. 0; singlestep = 0 };
  mmio = record {
    needed = false;
    read_completed = false;
    is_write = false;
    size = 0;
    bytes = 0;
    phys_addr = 0;
  };
  rmode = record { active = true; save_iopl = 0; tr = record { base = 0; limit = 0; ar = 0 } };
}

abbrev pub machine : Machine
machine = record {
  kvm = vm;
  vcpu = cpu;
  vmcs = λ f. 0;
  mem = λ w. 0;
  private = λ p. 0;
  bad_page_address = 0x9000;
  stat = record {
    pf_fixed = 0;
    pf_guest = 0;
    tlb_flush = 0;
    invlpg = 0;
    exits = 0;
    io_exits = 0;
    mmio_exits = 0;
    signal_exits = 0;
    irq_exits = 0;
  };
}
