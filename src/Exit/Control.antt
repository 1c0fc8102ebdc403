-- ===== src/Exit/Control.antt =====
-- `handle_cr`, `handle_dr`, `handle_invlpg`, `handle_external_interrupt`, `handle_cpuid` and
-- `handle_halt` of src/2006-11-02/kvm-module/kvm_main.c, and what `KVM_DEBUG` leaves in.
use learn_kvm.Base.{
  ℕ, ◌+◌, true, false, ◌&&◌, ◌==◌, ◌!=◌, if◌then◌else◌, bit_and, u64, shr, Option, none, some,
}
use learn_kvm.State.{Machine}
use learn_kvm.Run.{Cmd, ◌>>◌, pure, act}
use learn_kvm.Vmcs.{◌▷◌, has, vmcs_readl, vmcs_read32, vmcs_writel}
use learn_kvm.Paging.Dispatch.{mmu_inval_page}
use learn_kvm.Cpu.Rmode.{sign_extend32}
use learn_kvm.Cpu.Msr.{skip_emulated_instruction}
use learn_kvm.Cpu.Cr.{set_cr0, set_cr3, set_cr4, set_cr8, lmsw}
use learn_kvm.Ioctl.Load.{vcpu_load_rsp_rip, vcpu_put_rsp_rip}
use learn_kvm.Ioctl.Regs.{set_reg}
use learn_kvm.Exit.Report.{Handler}
use learn_kvm.Vmx.Field
use learn_kvm.Vmx.Masks.{x86_eflags_if, lmsw_source_data_shift, kvm_exit_cpuid, kvm_exit_hlt}

unfoldable pub handle_external_interrupt : Handler
handle_external_interrupt run s =
    pure (true, run) (record s { stat = record s.stat { irq_exits = s.stat.irq_exits + 1 } })

unfoldable pub handle_invlpg : Handler
handle_invlpg run s =
    let address = vmcs_readl Field.exit_qualification s in
    let instruction_length = sign_extend32 (vmcs_read32 Field.vm_exit_instruction_len s) in
    (do
      mmu_inval_page address
      act λ t.
          vmcs_writel Field.guest_rip (u64 (vmcs_readl Field.guest_rip t + instruction_length)) t
      pure (true, run))
      s

-- The write of a control register, `none` for one that has no case.
unfoldable pub mov_to_cr : ℕ → ℕ → Option (Cmd (Unit {0}))
mov_to_cr cr value =
    if cr == 0
    then some (set_cr0 value)
    else if cr == 3
    then some (set_cr3 value)
    else if cr == 4
    then some (set_cr4 value)
    else if cr == 8
    then some (act (set_cr8 value))
    else none

-- The value of a control register that the guest reads.
unfoldable pub mov_from_cr : ℕ → Machine → Option ℕ
mov_from_cr cr s = if cr == 3 then some s.vcpu.cr3 else if cr == 8 then some s.vcpu.cr8 else none

unfoldable pub unhandled_cr : Handler
unhandled_cr run = pure (false, record run { exit_reason = 0 })

-- The instruction is skipped even if the write was refused.
unfoldable pub do_mov_to_cr : Option (Cmd (Unit {0})) → Handler
do_mov_to_cr none run = unhandled_cr run
do_mov_to_cr (some write) run = do write; act skip_emulated_instruction; pure (true, run)

unfoldable pub do_mov_from_cr : ℕ → Option ℕ → Handler
do_mov_from_cr reg none run = unhandled_cr run
do_mov_from_cr reg (some value) run = do
  act (λ s. vcpu_load_rsp_rip s ▷ set_reg reg value ▷ vcpu_put_rsp_rip)
  act skip_emulated_instruction
  pure (true, run)

-- RSP is among the registers that a `mov` to CR0, CR3, CR4 or CR8 reads.
unfoldable pub handle_mov_to_cr : ℕ → ℕ → Handler
handle_mov_to_cr cr reg run s = elim (mov_to_cr cr 0) [
  | none ↦ unhandled_cr run s
  | some _ ↦
      let loaded = vcpu_load_rsp_rip s in
      do_mov_to_cr (mov_to_cr cr (loaded.vcpu.regs reg)) run loaded
]

unfoldable pub handle_cr : Handler
handle_cr run s =
    let q = vmcs_readl Field.exit_qualification s in
    let cr : ℕ = bit_and q 15 in
    let reg : ℕ = bit_and (shr q 8) 15 in
    let op : ℕ = bit_and (shr q 4) 3 in
    if op == 0
    then handle_mov_to_cr cr reg run s
    else if op == 1
    then do_mov_from_cr reg (mov_from_cr cr s) run s
    else if op == 3
    then pure (true, run)
        (skip_emulated_instruction (lmsw (bit_and (shr q lmsw_source_data_shift) 0x0f) s))
    else unhandled_cr run s

-- What a `mov` from a debug register reads.
unfoldable pub debug_register : ℕ → ℕ
debug_register dr = if dr == 6 then 0xffff0ff0 else if dr == 7 then 0x400 else 0

unfoldable pub handle_dr : Handler
handle_dr run s =
    let q = vmcs_readl Field.exit_qualification s in
    let dr : ℕ = bit_and q 7 in
    let reg : ℕ = bit_and (shr q 8) 15 in
    let loaded = vcpu_load_rsp_rip s in
    let read = if has q 16 then set_reg reg (debug_register dr) loaded else loaded in
    pure (true, run) (skip_emulated_instruction (vcpu_put_rsp_rip read))

unfoldable pub handle_cpuid : Handler
handle_cpuid run = pure (false, record run { exit_reason = kvm_exit_cpuid })

unfoldable pub handle_halt : Handler
handle_halt run s =
    let s' = skip_emulated_instruction s in
    if s'.vcpu.irq_summary != 0 && has (vmcs_readl Field.guest_rflags s') x86_eflags_if
    then pure (true, run) s'
    else pure (false, record run { exit_reason = kvm_exit_hlt }) s'
