-- ===== src/Examples/Enter.antt =====
-- A run of the guest that is cut off by a signal.
use learn_kvm.Base.{◌≡◌, refl, true, false, [], ◌∷◌}
use learn_kvm.Run.{pure}
use learn_kvm.Run.Laws.{Ensures}
use learn_kvm.Vmcs.{vmcs_writel, vmcs_read32, guest_cr0, vmcs_readl}
use learn_kvm.Cpu.Mode.{IsConsistent}
use learn_kvm.Exit.Emulate.{Memop}
use learn_kvm.Enter.{Pass, kvm_dev_ioctl_run}
use learn_kvm.Enter.Signal.{ioctl_run_until}
use learn_kvm.Enter.Mode.{ioctl_run-IsConsistent}
use learn_kvm.Vmx.Field
use learn_kvm.Vmx.Masks.{exit_reason_external_interrupt}
use learn_kvm.Examples.Machines.{machine}
use learn_kvm.Examples.Ioctl.{run}

-- An emulator that knows no instruction.
abbrev memop : Memop
memop ctxt = pure (true, 0)

-- The guest runs until an interrupt of the host.
abbrev interrupted : Pass
interrupted = record {
  fs_sel = 0;
  gs_sel = 0;
  ldt_sel = 0;
  fs_base = 0;
  gs_base = 0;
  guest = λ s. (false, vmcs_writel Field.vm_exit_reason exit_reason_external_interrupt s);
  rdmsr = λ i. 0;
  tsc = 0;
  signal = false;
}

abbrev stopped : Pass
stopped = record interrupted { signal = true }

ioctl_run_until_example :
    kvm_dev_ioctl_run (λ w. 0) memop 0 (interrupted ∷ stopped ∷ interrupted ∷ []) run machine
    ≡ kvm_dev_ioctl_run (λ w. 0) memop 0 (interrupted ∷ stopped ∷ []) run machine
ioctl_run_until_example =
    ioctl_run_until (λ w. 0) memop 0 stopped refl (interrupted ∷ []) (interrupted ∷ []) run machine

ioctl_run-IsConsistent_example :
    Ensures
      (λ _ t. IsConsistent t)
      (kvm_dev_ioctl_run (λ w. 0) memop 0 (interrupted ∷ stopped ∷ []) run machine)
unfolding vmcs_writel vmcs_read32 guest_cr0 vmcs_readl
ioctl_run-IsConsistent_example =
    ioctl_run-IsConsistent (λ w. 0) memop 0 (interrupted ∷ stopped ∷ []) run machine
      (
        record { keeps = λ s. refl; plain = λ s. refl },
        (record { keeps = λ s. refl; plain = λ s. refl }, tt),
      )
      refl
