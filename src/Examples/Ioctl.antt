-- ===== src/Examples/Ioctl.antt =====
-- Runs of the register ioctls and of the exits for model-specific registers.
use learn_kvm.Base.{ℕ, ◌*◌, ◌<◌, ◌==◌, if◌then◌else◌, ◌^◌, ◌≡◌, refl, true, false, [], ◌∷◌, arith}
use learn_kvm.State.{Machine, MsrEntry}
use learn_kvm.Run.Laws.{Returns}
use learn_kvm.Status.{success}
use learn_kvm.Cpu.Msr.{find_msr_entry}
use learn_kvm.Ioctl.Regs.{KvmRegs, kvm_dev_ioctl_get_regs, kvm_dev_ioctl_set_regs}
use learn_kvm.Ioctl.Restore.{get_regs-set_regs}
use learn_kvm.Ioctl.Sregs.{
  KvmSegment, KvmDtable, KvmSregs, kvm_dev_ioctl_get_sregs, kvm_dev_ioctl_set_sregs,
}
use learn_kvm.Ioctl.Segments.{Fits, segments}
use learn_kvm.Ioctl.Stored.{get_sregs-set_sregs}
use learn_kvm.Ioctl.Consistent.{Forced, set_sregs-Forced}
use learn_kvm.Exit.Report.{KvmRun}
use learn_kvm.Exit.Msr.{handle_wrmsr}
use learn_kvm.Exit.Recall.{Recalls, by_lstar, wrmsr-rdmsr}
use learn_kvm.Vmx.Masks.{vcpu_regs_rcx, msr_lstar}
use learn_kvm.Examples.Machines.{machine, cpu, efer_entry}

abbrev registers : KvmRegs
registers = record {
  vcpu = 0;
  rax = 1;
  rbx = 2;
  rcx = 3;
  rdx = 4;
  rsi = 5;
  rdi = 6;
  rsp = 7;
  rbp = 8;
  r8 = 9;
  r9 = 10;
  r10 = 11;
  r11 = 12;
  r12 = 13;
  r13 = 14;
  r14 = 15;
  r15 = 16;
  rip = 17;
  rflags = 2;
}

get_regs-set_regs_example :
    ((kvm_dev_ioctl_set_regs registers machine).0 ≡ success)
    × (kvm_dev_ioctl_get_regs registers (kvm_dev_ioctl_set_regs registers machine).1
        ≡ (success, registers))
get_regs-set_regs_example = get_regs-set_regs registers machine (omega arith) refl refl

abbrev segment : ℕ → KvmSegment
segment n = record {
  base = n * 16;
  limit = 0xffff;
  selector = n;
  type_bits = 3;
  present = 1;
  dpl = 3;
  db = 1;
  s_bit = 1;
  l = 0;
  g = 1;
  avl = 0;
  unusable = 0;
}

abbrev table : KvmDtable
table = record { base = 0x1000; limit = 0xff }

abbrev sregs : KvmSregs
sregs = record {
  vcpu = 0;
  cs = segment 1;
  ds = segment 2;
  es = segment 3;
  fs = segment 4;
  gs = segment 5;
  ss = segment 6;
  tr = segment 7;
  ldt = segment 8;
  gdt = table;
  idt = table;
  cr0 = 0x31;
  cr2 = 0;
  cr3 = 0x2000;
  cr4 = 0;
  cr8 = 0;
  efer = 0;
  apic_base = 0xfee00000;
  pending_int = 0;
}

segment-Fits : (n : ℕ) → n < 2 ^ 16 → Fits (segment n)
segment-Fits n h = record {
  limit = omega arith;
  selector = h;
  type_bits = omega arith;
  s_bit = omega arith;
  dpl = omega arith;
  present = omega arith;
  avl = omega arith;
  l = omega arith;
  db = omega arith;
  g = omega arith;
  unusable = refl;
}

get_sregs-set_sregs_example :
    Returns
      (λ status t.
        (status ≡ success)
        × ((kvm_dev_ioctl_get_sregs sregs t).0 ≡ success)
        × (segments (kvm_dev_ioctl_get_sregs sregs t).1 ≡ segments sregs))
      (kvm_dev_ioctl_set_sregs sregs machine)
unfolding find_msr_entry
get_sregs-set_sregs_example =
    get_sregs-set_sregs sregs machine efer_entry (omega arith) refl refl
      (segment-Fits 1 (omega arith)) (segment-Fits 2 (omega arith)) (segment-Fits 3 (omega arith))
      (segment-Fits 4 (omega arith)) (segment-Fits 5 (omega arith)) (segment-Fits 6 (omega arith))
      (segment-Fits 7 (omega arith)) (segment-Fits 8 (omega arith))

set_sregs-Forced_example :
    Returns (λ status t. (status ≡ success) × Forced 0x31 t) (kvm_dev_ioctl_set_sregs sregs machine)
unfolding find_msr_entry
set_sregs-Forced_example =
    set_sregs-Forced sregs machine efer_entry (omega arith) refl (omega arith) refl

abbrev lstar : MsrEntry
lstar = record { index = msr_lstar; value = 0 }

-- RCX is the number of the register, RAX and RDX are 5.
abbrev writing : Machine
writing = record machine {
  vcpu = record cpu {
    guest_msrs = lstar ∷ [];
    regs = λ i. if i == vcpu_regs_rcx then msr_lstar else 5;
  };
}

abbrev pub run : KvmRun
run = record {
  vcpu = 0;
  emulated = 0;
  mmio_completed = 0;
  exit_type = 0;
  exit_reason = 0;
  instruction_length = 0;
  hardware_exit_reason = 0;
  ex = record { exception = 0; error_code = 0 };
  io = record {
    direction = 0;
    size = 0;
    string = false;
    string_down = false;
    rep = false;
    port = 0;
    count = 0;
    address = 0;
    value = 0;
  };
  mmio = record { phys_addr = 0; bytes = 0; len = 0; is_write = false };
}

wrmsr-rdmsr_example :
    Returns (λ r t. (r ≡ (true, run)) × Recalls run writing t) (handle_wrmsr 0 run writing)
unfolding find_msr_entry
wrmsr-rdmsr_example = wrmsr-rdmsr 0 run writing lstar by_lstar refl
