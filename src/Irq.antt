-- ===== src/Irq.antt =====
-- Interrupts for the guest: `kvm_dev_ioctl_interrupt`, `inject_rmode_irq`, `kvm_do_inject_irq`,
-- `kvm_try_inject_irq` and two exit handlers of src/2006-11-02/kvm-module/kvm_main.c. The kernel's
-- `__ffs` is the parameter `ffs`.
pub mod Queue
pub mod Next
pub mod Inject
use learn_kvm.Base.{
  ℕ, ◌+◌, ◌-◌, ◌*◌, ◌/◌, ◌%◌, ◌^◌, Bool, false, not, ◌&&◌, ◌||◌, ltb, leb, ◌==◌, ◌!=◌,
  if◌then◌else◌, List, length, take, drop, bit_and, bit_or, u16, u64, shr, not32, not64,
}
use learn_kvm.State.{Machine, Vcpu}
use learn_kvm.Run.{Cmd, ◌>>=◌, pure, act, skip}
use learn_kvm.Status.{Status, success, error, einval, enoent}
use learn_kvm.Vmcs.{
  ◌▷◌, has, update, vmcs_readl, vmcs_read32, vmcs_writel, vmcs_write16, vmcs_write32, on_vcpu,
}
use learn_kvm.Ioctl.Load.{vcpu_load}
use learn_kvm.GuestMemory.Bytes.{of_bytes, to_bytes}
use learn_kvm.GuestMemory.Copy.{kvm_read_guest, kvm_write_guest}
use learn_kvm.Vmx.Field
use learn_kvm.Vmx.Masks.{
  bits_per_long, kvm_max_vcpus, x86_eflags_if, x86_eflags_ac, x86_eflags_tf, intr_type_ext_intr,
  intr_info_valid_mask, cpu_based_virtual_intr_pending,
}

-- `set_bit(irq, vcpu->irq_pending)` and the word's bit in the summary.
unfoldable pub queue_irq : ℕ → Vcpu → Vcpu
queue_irq irq v =
    let word = irq / bits_per_long in
    record v {
      irq_pending =
          update v.irq_pending word (bit_or (v.irq_pending word) (2 ^ (irq % bits_per_long)));
      irq_summary = bit_or v.irq_summary (2 ^ word);
    }

unfoldable pub clear_bit : ℕ → ℕ → ℕ
clear_bit n word = bit_and word (not64 (2 ^ n))

-- struct kvm_interrupt.
pub record KvmInterrupt : Type 0 where
  pub vcpu : ℕ
  pub irq : ℕ

unfoldable pub kvm_dev_ioctl_interrupt : KvmInterrupt → Machine → Status × Machine
kvm_dev_ioctl_interrupt irq s =
    if leb kvm_max_vcpus irq.vcpu
    then (error einval, s)
    else if leb 256 irq.irq
    then (error einval, s)
    else if not (vcpu_load s)
    then (error enoent, s)
    else (success, on_vcpu (queue_irq irq.irq) s)

-- The stack has no room; `sp - 6 > sp` is a comparison of `int`s.
unfoldable pub stack_fault : ℕ → ℕ → Bool
stack_fault sp ss_limit = ltb ss_limit sp || ltb (sp + 6) sp

-- `ss_base + sp - n`, and the new stack pointer.
unfoldable pub stack_at : ℕ → ℕ → ℕ → ℕ
stack_at ss_base sp n = u64 (ss_base + sp + (2 ^ 64 - n))

-- FLAGS, CS and IP are pushed; false if one of them cannot be written.
unfoldable pub push_frame : ℕ → ℕ → ℕ → ℕ → ℕ → Cmd Bool
push_frame ss_base sp flags cs ip = do
  a ← kvm_write_guest (stack_at ss_base sp 2) (to_bytes 2 flags)
  if a != 2 then pure false else do
    b ← kvm_write_guest (stack_at ss_base sp 4) (to_bytes 2 cs)
    if b != 2
        then pure false
        else do c ← kvm_write_guest (stack_at ss_base sp 6) (to_bytes 2 ip); pure (c == 2)

-- The guest goes on at the entry of the interrupt table.
unfoldable pub enter_isr : ℕ → ℕ → ℕ → ℕ → Machine → Machine
enter_isr flags segment offset sp s =
    s
    ▷ vmcs_writel Field.guest_rflags
        (bit_and flags (not64 (bit_or (bit_or x86_eflags_if x86_eflags_ac) x86_eflags_tf)))
    ▷ vmcs_write16 Field.guest_cs_selector segment
    ▷ vmcs_writel Field.guest_cs_base (segment * 2 ^ 4)
    ▷ vmcs_writel Field.guest_rip offset
    ▷ vmcs_writel Field.guest_rsp
        (bit_or (bit_and (vmcs_readl Field.guest_rsp s) (not64 0xffff)) (u64 (sp + (2 ^ 64 - 6))))

-- The frame is pushed and the guest goes on at `ent`.
unfoldable pub deliver : ℕ → ℕ → List ℕ → Cmd (Unit {0})
deliver ss_base sp ent s =
    let flags = vmcs_readl Field.guest_rflags s in
    let cs : ℕ = u16 (shr (vmcs_readl Field.guest_cs_base s) 4) in
    let enter = act (enter_isr flags (of_bytes (drop 2 ent)) (of_bytes (take 2 ent)) sp) in
    (do
      pushed ← push_frame ss_base sp flags cs (u16 (vmcs_readl Field.guest_rip s))
      if pushed then enter else skip)
      s

unfoldable pub inject_rmode_irq : ℕ → Cmd (Unit {0})
inject_rmode_irq irq s =
    let ss_base = vmcs_readl Field.guest_ss_base s in
    let sp : ℕ = u16 (vmcs_readl Field.guest_rsp s) in
    if stack_fault sp (vmcs_read32 Field.guest_ss_limit s)
    then skip s
    else (do
      ent ← kvm_read_guest (irq * 4) 4
      if length ent != 4 then skip else deliver ss_base sp ent)
        s

module _ (ffs : ℕ → ℕ) where
  -- The next interrupt, and the vcpu without it.
  unfoldable pub next_irq : Vcpu → ℕ
  next_irq v = let word = ffs v.irq_summary in word * bits_per_long + ffs (v.irq_pending word)

  unfoldable pub dequeue_irq : Vcpu → Vcpu
  dequeue_irq v =
      let word = ffs v.irq_summary in
      let left = clear_bit (ffs (v.irq_pending word)) (v.irq_pending word) in
      record v {
        irq_pending = update v.irq_pending word left;
        irq_summary = if left == 0 then clear_bit word v.irq_summary else v.irq_summary;
      }

  unfoldable pub kvm_do_inject_irq : Cmd (Unit {0})
  kvm_do_inject_irq s =
      let irq = next_irq s.vcpu in
      let s' = on_vcpu dequeue_irq s in
      if s.vcpu.rmode.active
      then inject_rmode_irq irq s'
      else act
          (vmcs_write32 Field.vm_entry_intr_info_field
            (bit_or (bit_or irq intr_type_ext_intr) intr_info_valid_mask))
          s'

  unfoldable pub kvm_try_inject_irq : Cmd (Unit {0})
  kvm_try_inject_irq s =
      if has (vmcs_readl Field.guest_rflags s) x86_eflags_if
        && bit_and (vmcs_read32 Field.guest_interruptibility_info s) 3 == 0
      then kvm_do_inject_irq s
      else act
          (vmcs_write32 Field.cpu_based_vm_exec_control
            (bit_or (vmcs_read32 Field.cpu_based_vm_exec_control s) cpu_based_virtual_intr_pending))
          s

unfoldable pub handle_interrupt_window : Machine → Machine
handle_interrupt_window s =
    vmcs_write32 Field.cpu_based_vm_exec_control
      (bit_and (vmcs_read32 Field.cpu_based_vm_exec_control s)
        (not32 cpu_based_virtual_intr_pending))
      s
