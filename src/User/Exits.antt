-- ===== src/User/Exits.antt =====
-- The exits that a process handles, and the loop around KVM_RUN: `kvm_run` of
-- src/2006-11-02/libkvm/kvmctl.c. What it prints is left out.
use learn_kvm.Base.{
  ℕ, zero, suc, ◌+◌, ◌-◌, ◌*◌, ◌/◌, ◌%◌, ◌^◌, false, ◌==◌, if◌then◌else◌, List, [], ◌∷◌, bit_and,
  not64, u32,
}
use learn_kvm.Status.{Status, success, error, eintr}
use learn_kvm.Ioctl.Regs.{KvmRegs}
use learn_kvm.Exit.Report.{RunMmio, KvmRun}
use learn_kvm.Exit.Emulate.{Memop}
use learn_kvm.Enter.{Pass, kvm_dev_ioctl_run}
use learn_kvm.Vmx.Masks.{
  kvm_exit_type_fail_entry, kvm_exit_type_vm_exit, kvm_exit_io, kvm_exit_cpuid, kvm_exit_debug,
  kvm_exit_hlt, kvm_exit_mmio,
}
use learn_kvm.User.{User, KvmContext, out_of_rounds, give, quit, ioctl, ◌>>=◌, ◌>>◌}
use learn_kvm.User.Regs.{kvm_get_regs, kvm_set_regs}
use learn_kvm.User.Io.{handle_io}

-- `-1` as an `int`.
abbrev minus_one : ℕ
minus_one = 2 ^ 32 - 1

-- The first `len` bytes of `data`, and a store there.
unfoldable pub first_bytes : ℕ → RunMmio → ℕ
first_bytes len mmio = mmio.bytes % 2 ^ (8 * len)

unfoldable pub store_data : ℕ → KvmRun → ℕ × ℕ → ℕ × KvmRun
store_data len run (r, value) =
    let old = run.mmio.bytes in
    let new = old / 2 ^ (8 * len) * 2 ^ (8 * len) + value % 2 ^ (8 * len) in
    (r, record run { mmio = record run.mmio { bytes = new } })

-- The struct that the loop starts with.
unfoldable pub new_run : ℕ → KvmRun
new_run vcpu = record {
  vcpu = vcpu;
  emulated = 0;
  mmio_completed = 0;
  exit_type = 0;
  exit_reason = 0;
  instruction_length = 0;
  hardware_exit_reason = 0;
  ex = record { exception = 0; error_code = 0 };
  io = record {
    direction = 0;
    size = 0;
    string = false;
    string_down = false;
    rep = false;
    port = 0;
    count = 0;
    address = 0;
    value = 0;
  };
  mmio = record { phys_addr = 0; bytes = 0; len = 0; is_write = false };
}

-- The struct comes back only from a call that succeeds.
unfoldable pub copied_back : KvmRun → Status × KvmRun → Status × KvmRun
copied_back run (success, run') = (success, record run' { emulated = 0; mmio_completed = 0 })
copied_back run (error e, run') = (error e, record run { emulated = 0; mmio_completed = 0 })

module _ {O : Type 0} (kvm : KvmContext O) where
  unfoldable pub handle_debug : KvmRun → User O ℕ
  handle_debug run = kvm.callbacks.debug run.vcpu

  unfoldable pub handle_io_window : KvmRun → User O ℕ
  handle_io_window run = kvm.callbacks.io_window

  unfoldable pub handle_halt : KvmRun → User O ℕ
  handle_halt run = kvm.callbacks.halt run.vcpu

  -- `junk` is what the local variable `regs` holds before. MTRR support is hidden from the guest.
  unfoldable pub handle_cpuid : KvmRegs → KvmRun → User O (ℕ × KvmRun)
  handle_cpuid junk run = do
    (status, regs) ← kvm_get_regs run.vcpu junk
    (r, rax, rbx, rcx, rdx) ← kvm.callbacks.cpuid regs.rax regs.rbx regs.rcx regs.rdx
    kvm_set_regs run.vcpu (record regs {
      rax = rax;
      rbx = rbx;
      rcx = rcx;
      rdx = if u32 regs.rax == 1 then bit_and rdx (not64 (2 ^ 12)) else rdx;
    })
    give (r, record run { emulated = 1 })

  unfoldable pub mmio_write : RunMmio → User O ℕ
  mmio_write mmio =
      if mmio.len == 1
      then kvm.callbacks.writeb mmio.phys_addr (first_bytes 1 mmio)
      else if mmio.len == 2
      then kvm.callbacks.writew mmio.phys_addr (first_bytes 2 mmio)
      else if mmio.len == 4
      then kvm.callbacks.writel mmio.phys_addr (first_bytes 4 mmio)
      else if mmio.len == 8
      then kvm.callbacks.writeq mmio.phys_addr (first_bytes 8 mmio)
      else give minus_one

  unfoldable pub mmio_read : KvmRun → User O (ℕ × KvmRun)
  mmio_read run =
      let addr = run.mmio.phys_addr in
      if run.mmio.len == 1
      then (kvm.callbacks.readb addr >>= λ a. give (store_data 1 run a))
      else if run.mmio.len == 2
      then (kvm.callbacks.readw addr >>= λ a. give (store_data 2 run a))
      else if run.mmio.len == 4
      then (kvm.callbacks.readl addr >>= λ a. give (store_data 4 run a))
      else if run.mmio.len == 8
      then (kvm.callbacks.readq addr >>= λ a. give (store_data 8 run a))
      else give (minus_one, run)

  unfoldable pub handle_mmio : KvmRun → User O (ℕ × KvmRun)
  handle_mmio run =
      if run.mmio.is_write
      then (do r ← mmio_write run.mmio; give (r, run))
      else (do (r, run') ← mmio_read run; give (r, record run' { mmio_completed = 1 }))

  -- The result of a callback that leaves the struct alone.
  abbrev keep : KvmRun → User O ℕ → User O (ℕ × KvmRun)
  keep run m = m >>= λ r. give (r, run)

  -- The inner switch. KVM_EXIT_UNKNOWN, KVM_EXIT_EXCEPTION and every other reason end in `abort`.
  unfoldable pub handle_vm_exit : ℕ → KvmRegs → KvmRun → User O (ℕ × KvmRun)
  handle_vm_exit io_rounds junk run =
      if run.exit_reason == kvm_exit_io
      then handle_io kvm io_rounds junk run
      else if run.exit_reason == kvm_exit_cpuid
      then handle_cpuid junk run
      else if run.exit_reason == kvm_exit_debug
      then keep run (handle_debug run)
      else if run.exit_reason == kvm_exit_mmio
      then handle_mmio run
      else if run.exit_reason == kvm_exit_hlt
      then keep run (handle_halt run)
      else quit

  unfoldable pub handle_exit : ℕ → KvmRegs → KvmRun → User O (ℕ × KvmRun)
  handle_exit io_rounds junk run =
      if run.exit_type == kvm_exit_type_fail_entry
      then quit
      else if run.exit_type == kvm_exit_type_vm_exit
      then handle_vm_exit io_rounds junk run
      else give (0, run)

  -- From the return of KVM_RUN to the label `more`.
  unfoldable pub answer : ℕ → KvmRegs → Status × KvmRun → User O (ℕ × KvmRun)
  answer io_rounds junk (success, run) = handle_exit io_rounds junk run
  answer io_rounds junk (error eintr, run) = keep run (handle_io_window run)
  answer io_rounds junk (error e, run) = quit

  -- The label `more`.
  unfoldable pub more : (KvmRun → User O ℕ) → ℕ × KvmRun → User O ℕ
  more again (zero, run) = again run
  more again (suc r, run) = give (suc r)

  module _ (ffs : ℕ → ℕ) (memop : Memop) (rounds io_rounds : ℕ) (junk : KvmRegs) where
    -- From the label `again` on, with the passes of each call of the driver.
    unfoldable pub run_from : List (List Pass) → KvmRun → User O ℕ
    run_from [] run = λ s o. out_of_rounds
    run_from (passes ∷ calls) run = do
      result ← ioctl (kvm_dev_ioctl_run ffs memop rounds passes run)
      answered ← answer io_rounds junk (copied_back run result)
      more (run_from calls) answered

    unfoldable pub kvm_run : List (List Pass) → ℕ → User O ℕ
    kvm_run calls vcpu = run_from calls (new_run vcpu)
