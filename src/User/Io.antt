-- ===== src/User/Io.antt =====
-- `handle_io` of src/2006-11-02/libkvm/kvmctl.c: the port accesses of one instruction, with the callbacks.
use learn_kvm.Base.{
  ℕ, zero, suc, ◌+◌, ◌-◌, ◌*◌, ◌/◌, ◌%◌, ◌^◌, Bool, true, false, ◌||◌, ◌==◌, ◌!=◌, if◌then◌else◌,
  none, some, u16, u64,
}
use learn_kvm.GuestMemory.Bytes.{of_bytes, to_bytes}
use learn_kvm.Ioctl.Regs.{KvmRegs}
use learn_kvm.Exit.Report.{RunIo, KvmRun}
use learn_kvm.Vmx.Masks.{kvm_exit_io_in, kvm_exit_io_out}
use learn_kvm.User.{User, KvmContext, out_of_rounds, give, quit, ◌>>=◌, ◌>>◌}
use learn_kvm.User.Regs.{kvm_get_regs, kvm_set_regs}
use learn_kvm.User.Memory.{
  TranslationCache, translation_cache_init, translate, load_bytes, store_bytes,
}

-- The variables of the loop.
pub record IoLoop : Type 0 where
  pub io : RunIo
  pub regs : KvmRegs
  pub tr : TranslationCache

unfoldable pub more_io : RunIo → Bool → Bool
more_io io first_time = if io.rep then io.count != 0 else first_time

-- `delta`, modulo 2^64.
unfoldable pub delta : RunIo → ℕ
delta io = if io.string_down then u64 (2 ^ 64 - io.size) else io.size

unfoldable pub start : KvmRun → KvmRegs → IoLoop
start run regs = record {
  io = run.io;
  regs = regs;
  tr = translation_cache_init (record { linear = 0; physical = 0 });
}

-- `value_addr`: RAX or an address.
pub data Place : Type 0 where
  rax : Place
  at : ℕ → Place

-- After an access of a string instruction.
unfoldable pub step_string : IoLoop → IoLoop
step_string l =
    let d = delta l.io in
    let by_one = if l.io.rep then 2 ^ 64 - 1 else 0 in
    record l {
      io = record l.io { address = u64 (l.io.address + d); count = u64 (l.io.count + by_one) };
      regs = record l.regs {
        rdi = if l.io.direction == kvm_exit_io_in then u64 (l.regs.rdi + d) else l.regs.rdi;
        rsi = if l.io.direction == kvm_exit_io_out then u64 (l.regs.rsi + d) else l.regs.rsi;
        rcx = u64 (l.regs.rcx + by_one);
      };
    }

unfoldable pub after_access : IoLoop → IoLoop
after_access l = if l.io.string then step_string l else l

-- A callback's result other than 0 ends the loop.
unfoldable pub end_round :
    {O : Type 0} → (IoLoop → User O (ℕ × IoLoop)) → ℕ × IoLoop → User O (ℕ × IoLoop)
end_round again (zero, l) = again l
end_round again (suc r, l) = give (suc r, l)

module _ {O : Type 0} (kvm : KvmContext O) where
  -- `*(uintN_t *)value_addr`, and a store there.
  unfoldable pub load_value : Place → ℕ → IoLoop → User O ℕ
  load_value rax size l = give (l.regs.rax % 2 ^ (8 * size))
  load_value (at address) size l = do bytes ← load_bytes kvm size address; give (of_bytes bytes)

  unfoldable pub store_value : Place → ℕ → ℕ → IoLoop → User O IoLoop
  store_value rax size value l =
      let high = l.regs.rax / 2 ^ (8 * size) * 2 ^ (8 * size) in
      give (record l { regs = record l.regs { rax = high + value % 2 ^ (8 * size) } })
  store_value (at address) size value l = store_bytes kvm address (to_bytes size value) >> give l

  -- The callback for a size; a bad one ends the process.
  unfoldable pub port_in : ℕ → ℕ → User O (ℕ × ℕ)
  port_in size addr =
      if size == 1
      then kvm.callbacks.inb addr
      else if size == 2
      then kvm.callbacks.inw addr
      else if size == 4
      then kvm.callbacks.inl addr
      else quit

  unfoldable pub port_out : ℕ → ℕ → ℕ → User O ℕ
  port_out size addr value =
      if size == 1
      then kvm.callbacks.outb addr value
      else if size == 2
      then kvm.callbacks.outw addr value
      else if size == 4
      then kvm.callbacks.outl addr value
      else quit

  -- What an output passes on; a bad size ends the process.
  unfoldable pub loaded_value : Place → IoLoop → User O ℕ
  loaded_value place l =
      if l.io.size == 1 || l.io.size == 2 || l.io.size == 4
      then load_value place l.io.size l
      else quit

  -- The switch: an input is stored, an output is loaded first.
  unfoldable pub transfer : Place → IoLoop → User O (ℕ × IoLoop)
  transfer place l =
      if l.io.direction == kvm_exit_io_in
      then (do
        (r, value) ← port_in l.io.size (u16 l.io.port)
        l' ← store_value place l.io.size value l
        give (r, l'))
      else if l.io.direction == kvm_exit_io_out
      then (do
        value ← loaded_value place l
        r ← port_out l.io.size (u16 l.io.port) value
        give (r, l))
      else quit

  unfoldable pub value_place : ℕ → IoLoop → User O (Place × IoLoop)
  value_place vcpu l =
      if l.io.string
      then (do
        (found, tr) ← translate kvm vcpu l.tr l.io.address
        elim found [ none ↦ quit | some address ↦ give (at address, record l { tr = tr }) ])
      else give (rax, l)

  -- The body of the loop, with the result of the callback.
  unfoldable pub io_round : ℕ → IoLoop → User O (ℕ × IoLoop)
  io_round vcpu l = do
    (place, l1) ← value_place vcpu l
    (r, l2) ← transfer place l1
    give (r, after_access l2)

  unfoldable pub io_loop : ℕ → ℕ → Bool → IoLoop → User O (ℕ × IoLoop)
  io_loop zero vcpu first_time l = λ s o. out_of_rounds
  io_loop (suc rounds) vcpu first_time l = elim (more_io l.io first_time) [
    | false ↦ give (0, l)
    | true ↦ io_round vcpu l >>= end_round (io_loop rounds vcpu false)
  ]

  unfoldable pub handle_io : ℕ → KvmRegs → KvmRun → User O (ℕ × KvmRun)
  handle_io rounds regs run = do
    (status, regs') ← kvm_get_regs run.vcpu regs
    (r, l) ← io_loop rounds run.vcpu true (start run regs')
    kvm_set_regs run.vcpu l.regs
    give (r, record run { io = l.io; emulated = if r == 0 then 1 else run.emulated })
