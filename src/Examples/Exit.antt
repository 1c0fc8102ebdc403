-- ===== src/Examples/Exit.antt =====
-- A run of three steps: a guest in real mode sets PE with LMSW, goes on, and halts.
use learn_kvm.Base.{refl, true, false, ◌==◌, if◌then◌else◌}
use learn_kvm.State.{Machine}
use learn_kvm.Run.{pure}
use learn_kvm.Vmcs.{vmcs_readl, vmcs_read32, vmcs_writel, vmcs_write32, vmcs_write16, guest_cr0}
use learn_kvm.Cpu.Cr.{lmsw}
use learn_kvm.Cpu.Msr.{skip_emulated_instruction}
use learn_kvm.Cpu.Rmode.{enter_pmode, update_exception_bitmap}
use learn_kvm.Cpu.Segment.{fix_pmode_dataseg}
use learn_kvm.Cpu.Mode.{IsConsistent}
use learn_kvm.Exit.Emulate.{Memop}
use learn_kvm.Exit.Control.{handle_cr, handle_halt}
use learn_kvm.Exit.Dispatch.{kvm_handle_exit, kvm_vmx_exit_handlers}
use learn_kvm.Exit.Steps.{stop, step, by_guest, by_exit, ExitSteps-IsConsistent}
use learn_kvm.Vmx.Field
use learn_kvm.Vmx.Masks.{exit_reason_cr_access, exit_reason_hlt, kvm_exit_hlt}
use learn_kvm.Examples.Machines.{machine}
use learn_kvm.Examples.Ioctl.{run}

abbrev at_lmsw : Machine
at_lmsw = record machine {
  vmcs = λ f.
      if f == Field.vm_exit_reason
      then exit_reason_cr_access
      else if f == Field.exit_qualification
      then 0x10030
      else 0;
}

abbrev after_lmsw : Machine
after_lmsw = skip_emulated_instruction (lmsw 1 at_lmsw)

abbrev at_halt : Machine
at_halt = record after_lmsw {
  vmcs = λ f. if f == Field.vm_exit_reason then exit_reason_hlt else after_lmsw.vmcs f;
}

-- An emulator that knows no instruction.
abbrev memop : Memop
memop ctxt = pure (true, 0)

ExitSteps-IsConsistent_example : IsConsistent (skip_emulated_instruction at_halt)
unfolding kvm_handle_exit kvm_vmx_exit_handlers handle_cr handle_halt guest_cr0 vmcs_readl
    vmcs_read32 skip_emulated_instruction vmcs_writel lmsw enter_pmode vmcs_write32 vmcs_write16
    fix_pmode_dataseg update_exception_bitmap
ExitSteps-IsConsistent_example =
    ExitSteps-IsConsistent memop 0 0 {s = at_lmsw} {t = skip_emulated_instruction at_halt}
      (step
        (by_exit run {s = at_lmsw} {t = after_lmsw}
          {r = (true, record run { instruction_length = 0 })} refl refl)
        (step (by_guest {s = after_lmsw} {t = at_halt} refl refl) (
          step
            (by_exit run {s = at_halt}
              {r = (false, record run { exit_reason = kvm_exit_hlt; instruction_length = 0 })} refl
              refl)
            stop)))
      refl
