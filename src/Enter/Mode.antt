-- ===== src/Enter/Mode.antt =====
-- The processor's mode through `kvm_dev_ioctl_run` of src/2006-11-02/kvm-module/kvm_main.c.
use learn_kvm.Base.{
  All, ℕ, ◌≡◌, refl, ◌∙◌, inl, inr, Bool, true, false, not, ◌&&◌, Bool-cases, List, [], ◌∷◌, leb,
  ◌==◌, ◌!=◌, if◌then◌else◌,
}
use learn_kvm.State.{Machine}
use learn_kvm.Run.{Outcome}
use learn_kvm.Run.Laws.{Ensures, ensures, faults, follow, runs_out}
use learn_kvm.Vmcs.{has, vmcs_read32, vmcs_writel, vmcs_write16}
use learn_kvm.Cpu.Cr.Stays.{core, Stays}
use learn_kvm.Cpu.Mode.{Agrees, IsConsistent, agree, to_Agrees, of_Agrees}
use learn_kvm.Ioctl.Load.{vcpu_load}
use learn_kvm.Ioctl.Debug.{kvm_guest_debug_pre}
use learn_kvm.Exit.Report.{KvmRun}
use learn_kvm.Exit.Emulate.{Memop}
use learn_kvm.Exit.Modes.{Good, skip-Agrees}
use learn_kvm.Exit.Steps.{handle_exit-Good}
use learn_kvm.Enter.{
  Pass, take_request, set_host_segments, after_guest, count_signal_exit, inject_pending,
  before_guest, settle, one_pass, end_pass, passes, kvm_dev_ioctl_run,
}
use learn_kvm.Enter.Inject.{try_inject-Stays}
use learn_kvm.Vmx.Field
use learn_kvm.Vmx.Masks.{exit_reason_exception_nmi, intr_info_valid_mask, kvm_max_vcpus}

-- The guest changes neither the driver's flag nor the read shadow of CR0, and does not exit by an exception.
pub record IsPlain (pass : Pass) : Type 0 where
  pub keeps : (s : Machine) → core (pass.guest s).1 ≡ core s
  pub plain :
      (s : Machine)
      → (vmcs_read32 Field.vm_exit_reason (pass.guest s).1 == exit_reason_exception_nmi) ≡ false

consistent : {A : Type 0} {r : Outcome A} → Good r → Ensures (λ _ t. IsConsistent t) r
consistent (ensures {s = t} a) = ensures (of_Agrees t a)
consistent faults = faults
consistent runs_out = runs_out

take-Agrees : (run : KvmRun) (s : Machine) → Agrees (core s) → Agrees (core (take_request run s))
unfolding take_request
take-Agrees run s a = elim (Bool-cases (run.emulated != 0)) [
  | inl h ↦ elim (Bool-cases (run.mmio_completed != 0)) [
    | inl k ↦ rw (h, k) (skip-Agrees s a)
    | inr k ↦ rw (h, k) (skip-Agrees s a)
  ]
  | inr h ↦ elim (Bool-cases (run.mmio_completed != 0)) [
    | inl k ↦ rw (h, k) a
    | inr k ↦ rw (h, k) a
  ]
]

module _ (ffs : ℕ → ℕ) (memop : Memop) (rounds : ℕ) where
  pending-Stays : (s : Machine) → Stays (core s) (inject_pending ffs memop rounds s)
  unfolding inject_pending
  pending-Stays s =
      elim (Bool-cases (
        s.vcpu.irq_summary != 0
        && not (has (vmcs_read32 Field.vm_entry_intr_info_field s) intr_info_valid_mask))) [
          | inl h ↦ rw (h, inject_pending) (try_inject-Stays ffs s)
          | inr h ↦ rw (h, inject_pending) (ensures refl)
        ]

  before-Stays : (pass : Pass) (s : Machine) → Stays (core s) (before_guest ffs memop rounds pass s)
  unfolding before_guest set_host_segments kvm_guest_debug_pre vmcs_writel vmcs_write16
  before-Stays pass s = follow (pending-Stays (set_host_segments pass s)) λ _ t p.
      elim (Bool-cases (t.vcpu.guest_debug.enabled != 0)) [
        | inr h ↦ rw h (ensures p)
        | inl h ↦ elim (Bool-cases (t.vcpu.guest_debug.singlestep != 0)) [
          | inl k ↦ rw (h, k) (ensures p)
          | inr k ↦ rw (h, k) (ensures p)
        ]
      ]

  settle-Good :
      (pass : Pass) (run : KvmRun) (r : Bool × Machine)
      → Agrees (core r.1)
      → (vmcs_read32 Field.vm_exit_reason r.1 == exit_reason_exception_nmi) ≡ false
      → Good (settle ffs memop rounds pass run r)
  unfolding settle after_guest vmcs_read32
  settle-Good pass run (true, s) a plain = ensures a
  settle-Good pass run (false, s) a plain = handle_exit-Good memop rounds pass.tsc _ _ plain a

  pass-Good :
      (pass : Pass) (run : KvmRun) (s : Machine)
      → IsPlain pass
      → Agrees (core s)
      → Good (one_pass ffs memop rounds pass run s)
  unfolding one_pass
  pass-Good pass run s plain a = follow (before-Stays pass s) λ _ t p.
      settle-Good pass run (pass.guest t) (agree s (pass.guest t).1 (plain.keeps t ∙ p) a)
        (plain.plain t)

  passes-Good :
      (list : List Pass) (run : KvmRun) (s : Machine)
      → All IsPlain list
      → Agrees (core s)
      → Good (passes ffs memop rounds list run s)
  unfolding passes end_pass count_signal_exit
  passes-Good [] run s plain a = runs_out
  passes-Good (pass ∷ rest) run s plain a =
      follow (pass-Good pass run s plain.0 a) λ (r : Bool × KvmRun) t p.
        elim (Bool-cases (not r.0)) [
          | inl h ↦ rw h (ensures p)
          | inr h ↦ elim (Bool-cases pass.signal) [
            | inl k ↦ rw (h, k) (ensures p)
            | inr k ↦ rw (h, k) (passes-Good rest r.1 t plain.1 p)
          ]
        ]

  -- Through kvm_dev_ioctl_run, refused calls, failed entries and signals included, the driver goes on to emulate
  -- real mode exactly when the guest sees PE clear, if each run of the guest changes neither the driver's flag nor the
  -- read shadow of CR0 and does not exit by an exception, and if the call returns.
  pub ioctl_run-IsConsistent :
      (list : List Pass) (run : KvmRun) (s : Machine)
      → All IsPlain list
      → IsConsistent s
      → Ensures (λ _ t. IsConsistent t) (kvm_dev_ioctl_run ffs memop rounds list run s)
  unfolding kvm_dev_ioctl_run
  ioctl_run-IsConsistent list run s plain ok = elim (Bool-cases (leb kvm_max_vcpus run.vcpu)) [
    | inl h ↦ rw h (ensures ok)
    | inr h ↦ elim (Bool-cases (not (vcpu_load s))) [
      | inl k ↦ rw (h, k) (ensures ok)
      | inr k ↦
          rw (h, k)
            (consistent (
              passes-Good list (if run.emulated != 0 then record run { emulated = 0 } else run)
                (take_request run s) plain (take-Agrees run s (to_Agrees s ok))))
    ]
  ]
