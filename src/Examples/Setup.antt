-- ===== src/Examples/Setup.antt =====
-- Runs of the setup of a virtual processor and of the dirty log.
use learn_kvm.Base.{ℕ, zero, suc, ◌+◌, ◌-◌, ◌^◌, ◌≡◌, refl, true, false, some, [], ◌∷◌, arith}
use learn_kvm.State.{Machine, MemorySlot, Vmalloc}
use learn_kvm.Run.{done, fault}
use learn_kvm.Run.Laws.{Returns}
use learn_kvm.Status.{success}
use learn_kvm.Vmcs.{guest_cr0}
use learn_kvm.Slots.{gfn_to_memslot, find_slot, in_slot, gfn_to_page}
use learn_kvm.Slots.Log.{any_dirty, dirty_bytes, kvm_dev_ioctl_get_dirty_log}
use learn_kvm.Slots.Overrun.{get_dirty_log-Overruns}
use learn_kvm.Slots.Restart.{IsRestarted, get_dirty_log-IsRestarted}
use learn_kvm.Mmu.Context.{kvm_mmu_init, alloc_mmu_pages}
use learn_kvm.Mmu.Pool.{IsPooled}
use learn_kvm.Mmu.Fill.{mmu_init-IsPooled}
use learn_kvm.Cpu.Rmode.{rmode_tss_base, sign_extend32}
use learn_kvm.Setup.Host.{Host}
use learn_kvm.Setup.Guest.{init_rmode_tss, init_tss_pages, _gfn_to_page, fill_tss}
use learn_kvm.Setup.Vcpu.{kvm_vcpu_setup, kvm_dev_ioctl_create_vcpu}
use learn_kvm.Setup.Reset.{vcpu_setup-Forced, create_vcpu-IsBare}
use learn_kvm.Vmx.Masks.{kvm_num_mmu_pages}
use learn_kvm.Examples.Machines.{machine, cpu, vm, ram, efer_entry}

abbrev pub host : Host
host = record {
  rdx_init_val = 1;
  tsc = 0;
  ctls = λ _. (0, 2 ^ 32 - 1);
  rdmsr = λ _. some 0;
  cr0 = 0;
  cr3 = 0;
  cr4 = 0;
  kernel_cs = 0x10;
  kernel_ds = 0x18;
  fs = 0;
  gs = 0;
  fs_base = 0;
  gs_base = 0;
  tss_selector = 0x40;
  idt_base = 0;
  vmx_return = 0;
  sysenter_cs = 0;
  sysenter_esp = 0;
  sysenter_eip = 0;
  vmcs_page = true;
  fresh = λ _. efer_entry;
  guest_msrs = some 0x7000;
  host_msrs = some 0x8000;
  mmu_page = λ i. some (100 + i);
}

vcpu_setup-Forced_example :
    Returns
      (λ _ u. (guest_cr0 u ≡ 0x60000010) × (u.vcpu.rmode.active ≡ true))
      (kvm_vcpu_setup host machine)
unfolding init_rmode_tss init_tss_pages _gfn_to_page gfn_to_memslot find_slot in_slot gfn_to_page
    rmode_tss_base sign_extend32
vcpu_setup-Forced_example =
    vcpu_setup-Forced host machine (fill_tss 45 46 47 machine) 0x7000 0x8000 0 refl refl refl refl

-- No memory yet.
abbrev no_memory : Machine
no_memory = record machine { kvm = record vm { nmemslots = 0 }; vcpu = record cpu { vmcs = false } }

create_vcpu-IsBare_example :
    kvm_dev_ioctl_create_vcpu host 0 no_memory
    ≡ done success (record no_memory { vcpu = record cpu { vmcs = true; launched = 0 } })
create_vcpu-IsBare_example = create_vcpu-IsBare host 0 no_memory (omega arith) refl refl refl

-- The host has a page for every header.
all_allocated : (n i : ℕ) (s : Machine) → (alloc_mmu_pages n i host.mmu_page s).0 ≡ success
unfolding alloc_mmu_pages
all_allocated zero i s = refl
all_allocated (suc n) i s = all_allocated n (i + 1) _

started : (s : Machine) → (kvm_mmu_init host.mmu_page s).0 ≡ success
unfolding kvm_mmu_init
started s = rw (all_allocated kvm_num_mmu_pages 0 s, kvm_mmu_init) refl

mmu_init-IsPooled_example : IsPooled 7 (kvm_mmu_init host.mmu_page machine).1
mmu_init-IsPooled_example =
    mmu_init-IsPooled 7 host.mmu_page machine (omega arith) refl refl (started machine)

-- Nine pages, of which none is dirty.
abbrev clean : MemorySlot
clean = record ram { npages = 9; dirty_bitmap = some (record { address = 0x2000; items = 0 ∷ [] }) }

abbrev clean_machine : Machine
clean_machine = record machine { kvm = record vm { memslots = clean ∷ [] } }

get_dirty_log-Overruns_example : kvm_dev_ioctl_get_dirty_log 0 true clean_machine ≡ fault
get_dirty_log-Overruns_example =
    get_dirty_log-Overruns 0 true clean_machine clean (record { address = 0x2000; items = 0 ∷ [] })
      (omega arith) refl refl refl (omega arith) (omega arith)

-- Pages 0 and 2 are dirty.
abbrev marks : Vmalloc ℕ
marks = record { address = 0x2000; items = 5 ∷ [] }

abbrev dirty : MemorySlot
dirty = record ram { dirty_bitmap = some marks }

abbrev dirty_machine : Machine
dirty_machine = record machine { kvm = record vm { memslots = dirty ∷ [] } }

get_dirty_log-IsRestarted_example :
    Returns
      (λ r t. (r ≡ (success, 5 ∷ [])) × IsRestarted 0 dirty marks dirty_machine t)
      (kvm_dev_ioctl_get_dirty_log 0 true dirty_machine)
unfolding any_dirty dirty_bytes learn_kvm.Slots.Log.is_negative learn_kvm.Slots.Log.search_rounds
    learn_kvm.Slots.Log.bytes_of learn_kvm.GuestMemory.Bytes.to_bytes
get_dirty_log-IsRestarted_example =
    get_dirty_log-IsRestarted 0 dirty marks dirty_machine refl (omega arith) 5 (omega arith) refl
      refl (λ e. absurd (omega arith))
