-- ===== src/User/Carried.antt =====
-- `handle_io` of src/2006-11-02/libkvm/kvmctl.c carries out a repeated string instruction.
use learn_kvm.Base.{
  ℕ, zero, suc, ◌+◌, ◌-◌, ◌^◌, ◌<◌, Bool-cases, u64, ap, ◌!=◌, ◌≡◌, ◌≢◌, refl, inl, inr, ◌⊎◌, ◌∙◌,
  true, ◌==◌, if◌then◌else◌,
}
use learn_kvm.State.{Machine}
use learn_kvm.Exit.Report.{KvmRun}
use learn_kvm.Status.{success}
use learn_kvm.Vmcs.{has, vmcs_readl, vmcs_read32, vmcs_writel, vmcs_write32}
use learn_kvm.Cpu.Msr.{skip_emulated_instruction}
use learn_kvm.Enter.{take_request}
use learn_kvm.Vmx.Field
use learn_kvm.Ioctl.Load.{checked, vcpu_load}
use learn_kvm.Ioctl.Regs.{
  KvmRegs, read_regs, write_regs, kvm_dev_ioctl_get_regs, kvm_dev_ioctl_set_regs,
}
use learn_kvm.Vmx.Masks.{
  kvm_exit_io_in, kvm_exit_io_out, vcpu_regs_rcx, vcpu_regs_rsi, vcpu_regs_rdi,
}
use learn_kvm.User.{KvmContext, returned}
use learn_kvm.User.Laws.{Finishes, finishes, then-Finishes, Loaded, PortsReturn}
use learn_kvm.User.Regs.{kvm_get_regs, kvm_set_regs}
use learn_kvm.User.Io.{IoLoop, delta, start, handle_io}
use learn_kvm.User.Walk.{moved, moved_out, Walked, IsRepeated}
use learn_kvm.User.Count.{io_loop-Ended}

-- A repeated string instruction as `handle_io` is asked for it, by a guest whose registers are within their
-- 64 bits.
pub record IsRequest (run : KvmRun) (s : Machine) : Type 0 where
  pub vcpu : run.vcpu ≡ 0
  pub loaded : Loaded s
  pub string : run.io.string ≡ true
  pub rep : run.io.rep ≡ true
  pub address : run.io.address < 2 ^ 64
  pub count : run.io.count < 2 ^ 64
  pub rcx : s.vcpu.regs vcpu_regs_rcx < 2 ^ 64
  pub rsi : s.vcpu.regs vcpu_regs_rsi < 2 ^ 64
  pub rdi : s.vcpu.regs vcpu_regs_rdi < 2 ^ 64

-- What the whole instruction does to the request, and to the registers from `s` to `t`, and where the guest
-- goes on when the driver has taken the struct.
pub record IsCarriedOut (run : KvmRun) (s : Machine) (run' : KvmRun) (t : Machine) : Type 0 where
  pub emulated : run'.emulated ≡ 1
  pub count : run'.io.count ≡ 0
  pub address : run'.io.address ≡ moved true run.io.count (delta run.io) run.io.address
  pub rcx :
      t.vcpu.regs vcpu_regs_rcx ≡ moved true run.io.count (2 ^ 64 - 1) (s.vcpu.regs vcpu_regs_rcx)
  pub rsi :
      t.vcpu.regs vcpu_regs_rsi
      ≡ moved
          (run.io.direction == kvm_exit_io_out)
          run.io.count
          (delta run.io)
          (s.vcpu.regs vcpu_regs_rsi)
  pub rdi :
      t.vcpu.regs vcpu_regs_rdi
      ≡ moved
          (run.io.direction == kvm_exit_io_in)
          run.io.count
          (delta run.io)
          (s.vcpu.regs vcpu_regs_rdi)
  pub rip :
      vmcs_readl Field.guest_rip (take_request run' t)
      ≡ u64 (vmcs_readl Field.guest_rip s + vmcs_read32 Field.vm_exit_instruction_len t)

skip-rip :
    (s : Machine)
    → vmcs_readl Field.guest_rip (skip_emulated_instruction s)
      ≡ u64 (vmcs_readl Field.guest_rip s + vmcs_read32 Field.vm_exit_instruction_len s)
unfolding skip_emulated_instruction vmcs_readl vmcs_writel vmcs_read32 vmcs_write32
skip-rip s = elim (Bool-cases (has (vmcs_read32 Field.guest_interruptibility_info s) 3)) [
  | inl e ↦ rw e refl
  | inr e ↦ rw e refl
]

-- The driver skips the instruction that a process has carried out.
take_request-rip :
    (run : KvmRun) (t : Machine)
    → run.emulated ≡ 1
    → vmcs_readl Field.guest_rip (take_request run t)
      ≡ u64 (vmcs_readl Field.guest_rip t + vmcs_read32 Field.vm_exit_instruction_len t)
unfolding take_request vmcs_readl
take_request-rip run t e = elim (Bool-cases (run.mmio_completed != 0)) [
  | inl m ↦ simp (e, m, take_request) (skip-rip t)
  | inr m ↦ simp (e, m, take_request) (skip-rip t)
]

get_regs-Loaded :
    {O : Type 0} (vcpu : ℕ) (junk : KvmRegs) (s : Machine) (o : O)
    → vcpu ≡ 0
    → Loaded s
    → kvm_get_regs vcpu junk s o ≡ returned (success, read_regs vcpu s) s o
unfolding kvm_get_regs kvm_dev_ioctl_get_regs checked vcpu_load
get_regs-Loaded vcpu junk s o e h = simp (e, h) refl

set_regs-Loaded :
    {O : Type 0} (vcpu : ℕ) (regs : KvmRegs) (s : Machine) (o : O)
    → vcpu ≡ 0
    → Loaded s
    → kvm_set_regs vcpu regs s o ≡ returned success (write_regs (record regs { vcpu = vcpu }) s) o
unfolding kvm_set_regs kvm_dev_ioctl_set_regs checked vcpu_load
set_regs-Loaded vcpu regs s o e h = simp (e, h) refl

written :
    (regs : KvmRegs) (s : Machine)
    → let t = write_regs regs s in
      (t.vcpu.regs vcpu_regs_rcx ≡ regs.rcx)
      × (t.vcpu.regs vcpu_regs_rsi ≡ regs.rsi)
      × (t.vcpu.regs vcpu_regs_rdi ≡ regs.rdi)
      × (vmcs_readl Field.guest_rip t ≡ regs.rip)
unfolding write_regs vmcs_writel vmcs_readl
written regs s = (refl, refl, refl, refl)

start-IsRepeated :
    (run : KvmRun) (s : Machine) → IsRequest run s → IsRepeated (start run (read_regs run.vcpu s))
unfolding start read_regs
start-IsRepeated run s asked = record {
  string = asked.string;
  rep = asked.rep;
  address = asked.address;
  count = asked.count;
  rcx = asked.rcx;
  rsi = asked.rsi;
  rdi = asked.rdi;
}

-- The registers are stored at the end.
start-IsCarriedOut :
    (run : KvmRun) (s t : Machine) (l : IoLoop)
    → Walked run.io.count (start run (read_regs run.vcpu s)) l
    → IsCarriedOut run s
        (record run { io = l.io; emulated = 1 })
        (write_regs (record l.regs { vcpu = run.vcpu }) t)
unfolding start read_regs
start-IsCarriedOut run s t l w =
    let (rcx, rsi, rdi, rip) = written (record l.regs { vcpu = run.vcpu }) t in
    let u : Machine = write_regs (record l.regs { vcpu = run.vcpu }) t in
    record {
      emulated = refl;
      count = w.count ∙ moved_out run.io.count;
      address = w.address;
      rcx = rcx ∙ w.rcx;
      rsi = rsi ∙ w.rsi;
      rdi = rdi ∙ w.rdi;
      rip =
          take_request-rip (record run { io = l.io; emulated = 1 }) u refl
          ∙ ap (λ (x : ℕ). u64 (x + vmcs_read32 Field.vm_exit_instruction_len u)) (rip ∙ w.rip);
    }

-- The end of `handle_io`, after the loop.
concluded :
    (run : KvmRun) (s t : Machine) (r : ℕ) (l : IoLoop)
    → ((r ≢ 0) ⊎ (r ≡ 0) × Walked run.io.count (start run (read_regs run.vcpu s)) l)
    → (r ≢ 0)
      ⊎ (r ≡ 0)
        × IsCarriedOut run s
            (record run { io = l.io; emulated = if r == 0 then 1 else run.emulated })
            (write_regs (record l.regs { vcpu = run.vcpu }) t)
concluded run s t zero l (inl ne) = inl ne
concluded run s t zero l (inr (z, w)) = inr (z, start-IsCarriedOut run s t l w)
concluded run s t (suc r) l p = inl (λ q. cc)

-- While the callbacks of port accesses end and keep the VMCS, handle_io of the user library ends for a
-- repeated string instruction, with any number of rounds above its count. Where it returns 0, the count is
-- used up and emulated is set; the address, and RSI for an output or RDI for an input, have moved by the size
-- of an access, up or down, as often as the count says, and RCX is less by the count, all modulo 2^64; and when
-- the driver takes the struct, RIP is that of before, past the instruction.
pub handle_io-IsCarriedOut :
    {O : Type 0} (kvm : KvmContext O) (rounds : ℕ) (junk : KvmRegs) (run : KvmRun) (s : Machine)
    (o : O)
    → PortsReturn kvm.callbacks
    → IsRequest run s
    → run.io.count < rounds
    → Finishes
        (λ r t _. (r.0 ≢ 0) ⊎ (r.0 ≡ 0) × IsCarriedOut run s r.1 t)
        (handle_io kvm rounds junk run s o)
unfolding handle_io start
handle_io-IsCarriedOut kvm rounds junk run s o ports asked lt =
    let l0 : IoLoop = start run (read_regs run.vcpu s) in
    rw (get_regs-Loaded run.vcpu junk s o asked.vcpu asked.loaded, handle_io)
      (then-Finishes
        (io_loop-Ended kvm ports run.vcpu run.io.count rounds true l0 s o
          (start-IsRepeated run s asked) refl lt asked.loaded)
        λ (r, l) t o' (h, p).
          rw (set_regs-Loaded run.vcpu l.regs t o' asked.vcpu h)
            (finishes (concluded run s t r l p)))
