-- ===== src/Enter.antt =====
-- The entries to the guest: `kvm_dev_ioctl_run` of src/2006-11-02/kvm-module/kvm_main.c. What the hardware
-- does between the two halves of the assembler statement, and what the host answers, are the inputs of
-- one pass from the label `again`. The host's own registers, its FPU and its list of registers are left out.

pub mod Signal
pub mod Mode
pub mod Inject
use learn_kvm.Base.{
  ℕ, zero, suc, Bool, true, false, not, ◌&&◌, List, [], ◌∷◌, leb, ◌==◌, ◌!=◌, bit_and, bit_or,
  if◌then◌else◌,
}
use learn_kvm.State.{Machine, MsrEntry, Mmio}
use learn_kvm.Run.{Cmd, Outcome, ◌>>=◌, ◌>>◌, pure, act, skip, out_of_fuel}
use learn_kvm.Status.{Status, success, error, einval, enoent, eintr}
use learn_kvm.Vmcs.{◌▷◌, has, vmcs_read32, vmcs_writel, vmcs_write16, on_vcpu}
use learn_kvm.Cpu.Msr.{skip_emulated_instruction}
use learn_kvm.Irq.{kvm_try_inject_irq}
use learn_kvm.Ioctl.Load.{vcpu_load}
use learn_kvm.Ioctl.Debug.{kvm_guest_debug_pre}
use learn_kvm.Setup.Controls.{nr_bad_msrs}
use learn_kvm.Exit.Report.{KvmRun}
use learn_kvm.Exit.Emulate.{Memop}
use learn_kvm.Exit.Dispatch.{kvm_handle_exit}
use learn_kvm.Vmx.Field
use learn_kvm.Vmx.Masks.{
  kvm_max_vcpus, intr_info_valid_mask, kvm_exit_type_fail_entry, kvm_exit_type_vm_exit,
}

-- One pass: the host's selectors and bases, the guest's run, which may fail to start, `rdmsr` after it,
-- the time stamp, and `signal_pending(current)`.
pub record Pass : Type 0 where
  pub fs_sel : ℕ
  pub gs_sel : ℕ
  pub ldt_sel : ℕ
  pub fs_base : ℕ
  pub gs_base : ℕ
  pub guest : Machine → Bool × Machine
  pub rdmsr : ℕ → ℕ
  pub tsc : ℕ
  pub signal : Bool

-- What user space has done since the last call.
unfoldable pub take_request : KvmRun → Machine → Machine
take_request run s =
    s
    ▷ (λ s. if run.emulated != 0 then skip_emulated_instruction s else s)
    ▷ (λ s.
        if run.mmio_completed != 0
        then on_vcpu
            (λ v. record v {
              mmio = record v.mmio { bytes = run.mmio.bytes; read_completed = true };
            })
            s
        else s)
    ▷ on_vcpu (λ v. record v { mmio = record v.mmio { needed = false } })

-- HOST_FS_SELECTOR, HOST_GS_SELECTOR and the bases.
unfoldable pub set_host_segments : Pass → Machine → Machine
set_host_segments pass s =
    let reload =
      bit_or (bit_or (bit_and pass.fs_sel 7) (bit_and pass.gs_sel 7)) pass.ldt_sel != 0 in
    s
    ▷ vmcs_write16 Field.host_fs_selector (if reload then 0 else pass.fs_sel)
    ▷ vmcs_write16 Field.host_gs_selector (if reload then 0 else pass.gs_sel)
    ▷ vmcs_writel Field.host_fs_base pass.fs_base
    ▷ vmcs_writel Field.host_gs_base pass.gs_base

-- `save_msrs`: the first `n` entries are read back.
unfoldable pub save_msrs : (ℕ → ℕ) → ℕ → List MsrEntry → List MsrEntry
save_msrs rdmsr zero es = es
save_msrs rdmsr (suc n) [] = []
save_msrs rdmsr (suc n) (e ∷ es) = record e { value = rdmsr e.index } ∷ save_msrs rdmsr n es

-- The exit is counted, and the registers that VMX does not switch are read.
unfoldable pub after_guest : Pass → Machine → Machine
after_guest pass s =
    on_vcpu (λ v. record v { guest_msrs = save_msrs pass.rdmsr nr_bad_msrs v.guest_msrs })
      (record s { stat = record s.stat { exits = suc s.stat.exits } })

unfoldable pub count_signal_exit : Machine → Machine
count_signal_exit s = record s { stat = record s.stat { signal_exits = suc s.stat.signal_exits } }

-- The report of an entry that failed.
unfoldable pub failed_entry : KvmRun → Machine → KvmRun
failed_entry run s = record run {
  exit_type = kvm_exit_type_fail_entry;
  exit_reason = vmcs_read32 Field.vm_instruction_error s;
}

-- The end of a pass: the call returns, or another pass begins.
unfoldable pub end_pass :
    Pass → (KvmRun → Cmd (Status × KvmRun)) → Bool × KvmRun → Cmd (Status × KvmRun)
end_pass pass again (handled, run) =
    if not handled
    then pure (success, run)
    else if pass.signal
    then act count_signal_exit >> pure (error eintr, run)
    else again run

module _ (ffs : ℕ → ℕ) (memop : Memop) (rounds : ℕ) where
  unfoldable pub inject_pending : Cmd (Unit {0})
  inject_pending s =
      if s.vcpu.irq_summary != 0
        && not (has (vmcs_read32 Field.vm_entry_intr_info_field s) intr_info_valid_mask)
      then kvm_try_inject_irq ffs s
      else skip s

  unfoldable pub before_guest : Pass → Cmd (Unit {0})
  before_guest pass = do
    act (set_host_segments pass)
    inject_pending
    act (λ s. if s.vcpu.guest_debug.enabled != 0 then (kvm_guest_debug_pre s).1 else s)

  -- The exit is handled. `true` asks for another pass.
  unfoldable pub settle : Pass → KvmRun → Bool × Machine → Outcome (Bool × KvmRun)
  settle pass run (true, s) = let s' = after_guest pass s in pure (false, failed_entry run s') s'
  settle pass run (false, s) =
      kvm_handle_exit memop rounds pass.tsc (record run { exit_type = kvm_exit_type_vm_exit })
        (on_vcpu (λ v. record v { launched = 1 }) (after_guest pass s))

  unfoldable pub one_pass : Pass → KvmRun → Cmd (Bool × KvmRun)
  one_pass pass run = do before_guest pass; λ s. settle pass run (pass.guest s)

  -- From the label `again` on. Out of fuel is a guest that has no pass left.
  unfoldable pub passes : List Pass → KvmRun → Cmd (Status × KvmRun)
  passes [] run = λ s. out_of_fuel
  passes (pass ∷ rest) run = one_pass pass run >>= end_pass pass (passes rest)

  unfoldable pub kvm_dev_ioctl_run : List Pass → KvmRun → Cmd (Status × KvmRun)
  kvm_dev_ioctl_run list run s =
      if leb kvm_max_vcpus run.vcpu
      then pure (error einval, run) s
      else if not (vcpu_load s)
      then pure (error enoent, run) s
      else passes list (if run.emulated != 0 then record run { emulated = 0 } else run)
          (take_request run s)
