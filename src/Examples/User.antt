-- ===== src/Examples/User.antt =====
-- Runs of the library of user space.
use learn_kvm.Base.{
  ℕ, ◌≡◌, ◌≢◌, ◌⊎◌, ◌+◌, ◌*◌, ◌^◌, ◌-◌, refl, true, false, List, [], ◌∷◌, ◌++◌, arith, ◌==◌,
  if◌then◌else◌,
}
use learn_kvm.State.{Machine}
use learn_kvm.Ioctl.Regs.{KvmRegs}
use learn_kvm.Exit.Report.{KvmRun}
use learn_kvm.User.{User, Result, returned, exited, give, KvmCallbacks, KvmContext}
use learn_kvm.User.Laws.{Finishes, finishes, PortsReturn}
use learn_kvm.User.Io.{handle_io}
use learn_kvm.User.Exits.{new_run, handle_mmio}
use learn_kvm.User.Handshake.{four, handle_mmio-emulator_read}
use learn_kvm.Run.Laws.{Returns}
use learn_kvm.GuestMemory.Bytes.{to_bytes}
use learn_kvm.GuestMemory.Emulator.{continues, emulator_read_emulated}
use learn_kvm.Enter.{take_request}
use learn_kvm.User.Carried.{IsCarriedOut, handle_io-IsCarriedOut}
use learn_kvm.Examples.Machines.{machine, cpu}

-- A device that keeps what is written to its ports, and answers 7.
abbrev log : ℕ → User (List ℕ) ℕ
log value s o = returned 0 s (o ++ value ∷ [])

abbrev seven : User (List ℕ) (ℕ × ℕ)
seven = give (0, 7)

abbrev callbacks : KvmCallbacks (List ℕ)
callbacks = record {
  cpuid = λ a b c d. give (0, a, b, c, d);
  inb = λ port. seven;
  inw = λ port. seven;
  inl = λ port. seven;
  outb = λ port. log;
  outw = λ port. log;
  outl = λ port. log;
  readb = λ addr. seven;
  readw = λ addr. seven;
  readl = λ addr. seven;
  readq = λ addr. seven;
  writeb = λ addr. log;
  writew = λ addr. log;
  writel = λ addr. log;
  writeq = λ addr. log;
  debug = λ vcpu. give 1;
  halt = λ vcpu. give 1;
  io_window = give 0;
}

abbrev process : KvmContext (List ℕ)
process = record { callbacks = callbacks; physical_memory = 2 ^ 30; mapped = 8 * 4096 }

-- REP OUTSB of three bytes from 0x1ffe on: the second and the third are on different pages.
abbrev request : KvmRun
request =
    let run = new_run 0 in
    record run {
      io = record {
        direction = 1;
        size = 1;
        string = true;
        string_down = false;
        rep = true;
        port = 0x3f8;
        count = 3;
        address = 0x1ffe;
        value = 0;
      };
    }

abbrev asking : Machine
asking = record machine {
  vcpu = record cpu { regs = λ i. if i == 1 then 3 else if i == 6 then 0x1ffe else 0 };
  mem = λ w. if w == 41 * 512 + 511 then 0x4241 * 2 ^ 48 else if w == 42 * 512 then 0x43 else 0;
}

abbrev junk : KvmRegs
junk = record {
  vcpu = 0;
  rax = 0;
  rbx = 0;
  rcx = 0;
  rdx = 0;
  rsi = 0;
  rdi = 0;
  rsp = 0;
  rbp = 0;
  r8 = 0;
  r9 = 0;
  r10 = 0;
  r11 = 0;
  r12 = 0;
  r13 = 0;
  r14 = 0;
  r15 = 0;
  rip = 0;
  rflags = 0;
}

-- What a run leaves: the result, what is left to do, RCX and RSI, and what the device was told.
abbrev seen : Result (List ℕ) (ℕ × KvmRun) → List ℕ
seen (returned (r, run) s o) = r ∷ run.io.count ∷ run.emulated ∷ s.vcpu.regs 1 ∷ s.vcpu.regs 6 ∷ o
seen _ = []

outsb :
    seen (handle_io process 4 junk request asking [])
    ≡ 0 ∷ 0 ∷ 1 ∷ 0 ∷ 0x2001 ∷ 0x41 ∷ 0x42 ∷ 0x43 ∷ []
unfolding handle_io learn_kvm.User.Regs.kvm_get_regs learn_kvm.User.Regs.kvm_set_regs
    learn_kvm.User.Io.io_loop learn_kvm.User.Io.more_io learn_kvm.User.Io.start
    learn_kvm.User.Io.io_round learn_kvm.User.Io.value_place learn_kvm.User.Memory.translate
    learn_kvm.User.Memory.look_up learn_kvm.User.Memory.translation_cache_init
    learn_kvm.Ioctl.Debug.kvm_dev_ioctl_translate new_run learn_kvm.Ioctl.Load.vcpu_load
    learn_kvm.Paging.Dispatch.mmu_gva_to_gpa learn_kvm.User.Memory.address_in
    learn_kvm.User.Memory.found learn_kvm.User.Io.transfer learn_kvm.User.Io.loaded_value
    learn_kvm.User.Io.load_value learn_kvm.User.Memory.load_bytes learn_kvm.User.Memory.touch
    learn_kvm.User.Memory.kvm_dev_nopage learn_kvm.Slots.gfn_to_memslot learn_kvm.Slots.find_slot
    learn_kvm.Slots.in_slot learn_kvm.Slots.gfn_to_page learn_kvm.GuestMemory.Bytes.read_byte
    learn_kvm.GuestMemory.Bytes.byte_of learn_kvm.GuestMemory.Bytes.of_bytes
    learn_kvm.User.Io.port_out learn_kvm.User.Io.after_access learn_kvm.User.Io.step_string
    learn_kvm.User.Io.delta learn_kvm.User.Io.end_round learn_kvm.Ioctl.Load.checked
    learn_kvm.Ioctl.Regs.kvm_dev_ioctl_get_regs learn_kvm.Ioctl.Regs.kvm_dev_ioctl_set_regs
    learn_kvm.Ioctl.Regs.read_regs learn_kvm.Ioctl.Regs.reported_rflags
    learn_kvm.Ioctl.Regs.write_regs learn_kvm.Vmcs.vmcs_readl learn_kvm.Vmcs.vmcs_writel
outsb = refl

ports : PortsReturn callbacks
ports = record {
  inb = λ port s o h. finishes h;
  inw = λ port s o h. finishes h;
  inl = λ port s o h. finishes h;
  outb = λ port value s o h. finishes h;
  outw = λ port value s o h. finishes h;
  outl = λ port value s o h. finishes h;
}

handle_io-IsCarriedOut_example :
    Finishes
      (λ r t _. (r.0 ≢ 0) ⊎ (r.0 ≡ 0) × IsCarriedOut request asking r.1 t)
      (handle_io process 4 junk request asking [])
unfolding new_run
handle_io-IsCarriedOut_example =
    handle_io-IsCarriedOut process 4 junk request asking [] ports
      (record {
        vcpu = refl;
        loaded = refl;
        string = refl;
        rep = refl;
        address = omega arith;
        count = omega arith;
        rcx = omega arith;
        rsi = omega arith;
        rdi = omega arith;
      })
      (omega arith)

-- An exit for a read of four bytes.
abbrev reading : KvmRun
reading =
    let run = new_run 0 in
    record run {
      mmio = record { phys_addr = 0xfee00020; bytes = 2 ^ 64 - 1; len = 4; is_write = false };
    }

handle_mmio-emulator_read_example :
    (run' : KvmRun) × (handle_mmio process reading machine [] ≡ returned (0, run') machine [])
    × ((t : Machine) (addr : ℕ)
        → Returns
            (λ got _. got ≡ (continues, to_bytes 4 7))
            (emulator_read_emulated addr 4 (take_request run' t)))
unfolding new_run
handle_mmio-emulator_read_example =
    handle_mmio-emulator_read process reading machine machine [] [] 0 7 4 four refl refl refl
