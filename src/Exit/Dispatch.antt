-- ===== src/Exit/Dispatch.antt =====
-- `kvm_vmx_exit_handlers` and `kvm_handle_exit` of src/2006-11-02/kvm-module/kvm_main.c.
use learn_kvm.Base.{ℕ, ◌+◌, true, false, ltb, ◌==◌, if◌then◌else◌, Option, none, some}
use learn_kvm.Run.{pure}
use learn_kvm.Vmcs.{vmcs_read32}
use learn_kvm.Irq.{handle_interrupt_window}
use learn_kvm.Exit.Report.{Handler}
use learn_kvm.Exit.Emulate.{Memop}
use learn_kvm.Exit.Exception.{handle_exception}
use learn_kvm.Exit.Io.{handle_io}
use learn_kvm.Exit.Control.{
  handle_external_interrupt, handle_invlpg, handle_cr, handle_dr, handle_cpuid, handle_halt,
}
use learn_kvm.Exit.Msr.{handle_rdmsr, handle_wrmsr}
use learn_kvm.Vmx.Field
use learn_kvm.Vmx.Masks.{
  exit_reason_exception_nmi, exit_reason_external_interrupt, exit_reason_pending_interrupt,
  exit_reason_cpuid, exit_reason_hlt, exit_reason_invlpg, exit_reason_cr_access,
  exit_reason_dr_access, exit_reason_io_instruction, exit_reason_msr_read, exit_reason_msr_write,
  kvm_exit_unknown,
}

abbrev pub kvm_vmx_max_exit_handlers : ℕ
kvm_vmx_max_exit_handlers = exit_reason_msr_write + 1

module _ (memop : Memop) (rounds tsc : ℕ) where
  -- `none` is a NULL entry.
  unfoldable pub kvm_vmx_exit_handlers : ℕ → Option Handler
  kvm_vmx_exit_handlers reason =
      if reason == exit_reason_exception_nmi
      then some (handle_exception memop rounds)
      else if reason == exit_reason_external_interrupt
      then some handle_external_interrupt
      else if reason == exit_reason_io_instruction
      then some handle_io
      else if reason == exit_reason_invlpg
      then some handle_invlpg
      else if reason == exit_reason_cr_access
      then some handle_cr
      else if reason == exit_reason_dr_access
      then some handle_dr
      else if reason == exit_reason_cpuid
      then some handle_cpuid
      else if reason == exit_reason_msr_read
      then some handle_rdmsr
      else if reason == exit_reason_msr_write
      then some (handle_wrmsr tsc)
      else if reason == exit_reason_pending_interrupt
      then some (λ run s. pure (true, run) (handle_interrupt_window s))
      else if reason == exit_reason_hlt
      then some handle_halt
      else none

  unfoldable pub unknown_exit : ℕ → Handler
  unknown_exit reason run =
      pure (false, record run { exit_reason = kvm_exit_unknown; hardware_exit_reason = reason })

  unfoldable pub kvm_handle_exit : Handler
  kvm_handle_exit run s =
      let exit_reason = vmcs_read32 Field.vm_exit_reason s in
      let run' = record run { instruction_length = vmcs_read32 Field.vm_exit_instruction_len s } in
      if ltb exit_reason kvm_vmx_max_exit_handlers
      then elim (kvm_vmx_exit_handlers exit_reason) [
        | some handler ↦ handler run' s
        | none ↦ unknown_exit exit_reason run' s
      ]
      else unknown_exit exit_reason run' s
