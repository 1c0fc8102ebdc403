-- ===== src/Exit/Steps.antt =====
-- The processor's mode through `kvm_handle_exit` of src/2006-11-02/kvm-module/kvm_main.c.
use learn_kvm.Base.{ℕ, ◌≡◌, subst, inl, inr, Bool, false, some, Option-cases, ltb, ◌==◌, Bool-cases}
use learn_kvm.State.{Machine}
use learn_kvm.Run.{Outcome, done}
use learn_kvm.Run.Laws.{ensured}
use learn_kvm.Vmcs.{vmcs_read32}
use learn_kvm.Cpu.Cr.Stays.{core}
use learn_kvm.Cpu.Mode.{IsConsistent, Agrees, to_Agrees, of_Agrees, agree}
use learn_kvm.Exit.Report.{KvmRun, Handler}
use learn_kvm.Exit.Emulate.{Memop}
use learn_kvm.Exit.Modes.{Good, handle_cr-Good, handle_wrmsr-Good}
use learn_kvm.Exit.Dispatch.{kvm_vmx_exit_handlers, kvm_handle_exit, kvm_vmx_max_exit_handlers}
use learn_kvm.Vmx.Field
use learn_kvm.Vmx.Masks.{
  exit_reason_exception_nmi, exit_reason_external_interrupt, exit_reason_pending_interrupt,
  exit_reason_cpuid, exit_reason_hlt, exit_reason_invlpg, exit_reason_cr_access,
  exit_reason_dr_access, exit_reason_io_instruction, exit_reason_msr_read, exit_reason_msr_write,
}
use learn_kvm.Exit.Handlers.{
  IsGood, external-IsGood, cpuid-IsGood, window-IsGood, halt-IsGood, dr-IsGood, rdmsr-IsGood,
  io-IsGood, unknown-IsGood, invlpg-IsGood,
}

given : {g h : Handler} → some g ≡ some h → IsGood g → IsGood h
given e good = subst (λ (k : Handler). IsGood k) (of_some e) good
  where
    of_some : {A : Type 0} {x y : A} → some x ≡ some y → x ≡ y
    of_some e = cc

module _ (memop : Memop) (rounds tsc : ℕ) where
  handlers-IsGood :
      (reason : ℕ) (handler : Handler)
      → (reason == exit_reason_exception_nmi) ≡ false
      → kvm_vmx_exit_handlers memop rounds tsc reason ≡ some handler
      → IsGood handler
  unfolding kvm_vmx_exit_handlers
  handlers-IsGood reason handler other e =
      elim (Bool-cases (reason == exit_reason_external_interrupt)) [
        | inl a ↦ given (rw (other, a) at e) external-IsGood
        | inr a ↦ elim (Bool-cases (reason == exit_reason_io_instruction)) [
          | inl b ↦ given (rw (other, a, b) at e) io-IsGood
          | inr b ↦ elim (Bool-cases (reason == exit_reason_invlpg)) [
            | inl c ↦ given (rw (other, a, b, c) at e) invlpg-IsGood
            | inr c ↦ elim (Bool-cases (reason == exit_reason_cr_access)) [
              | inl d ↦ given (rw (other, a, b, c, d) at e) handle_cr-Good
              | inr d ↦ elim (Bool-cases (reason == exit_reason_dr_access)) [
                | inl f ↦ given (rw (other, a, b, c, d, f) at e) dr-IsGood
                | inr f ↦ elim (Bool-cases (reason == exit_reason_cpuid)) [
                  | inl g ↦ given (rw (other, a, b, c, d, f, g) at e) cpuid-IsGood
                  | inr g ↦ elim (Bool-cases (reason == exit_reason_msr_read)) [
                    | inl j ↦ given (rw (other, a, b, c, d, f, g, j) at e) rdmsr-IsGood
                    | inr j ↦ elim (Bool-cases (reason == exit_reason_msr_write)) [
                      | inl k ↦
                          given (rw (other, a, b, c, d, f, g, j, k) at e) (handle_wrmsr-Good tsc)
                      | inr k ↦ elim (Bool-cases (reason == exit_reason_pending_interrupt)) [
                        | inl l ↦ given (rw (other, a, b, c, d, f, g, j, k, l) at e) window-IsGood
                        | inr l ↦ elim (Bool-cases (reason == exit_reason_hlt)) [
                          | inl m ↦
                              given (rw (other, a, b, c, d, f, g, j, k, l, m) at e) halt-IsGood
                          | inr m ↦
                              absurd (let bad = rw (other, a, b, c, d, f, g, j, k, l, m) at e in cc)
                        ]
                      ]
                    ]
                  ]
                ]
              ]
            ]
          ]
        ]
      ]

  pub handle_exit-Good :
      (run : KvmRun) (s : Machine)
      → (vmcs_read32 Field.vm_exit_reason s == exit_reason_exception_nmi) ≡ false
      → Agrees (core s)
      → Good (kvm_handle_exit memop rounds tsc run s)
  unfolding kvm_handle_exit
  handle_exit-Good run s other a =
      let reason : ℕ = vmcs_read32 Field.vm_exit_reason s in
      let run' = record run { instruction_length = vmcs_read32 Field.vm_exit_instruction_len s } in
      elim (Bool-cases (ltb reason kvm_vmx_max_exit_handlers)) [
        | inr b ↦ rw (b, kvm_handle_exit) (unknown-IsGood memop rounds tsc reason run' s a)
        | inl b ↦ elim (Option-cases (kvm_vmx_exit_handlers memop rounds tsc reason)) [
          | inl c ↦ rw (b, c, kvm_handle_exit) (unknown-IsGood memop rounds tsc reason run' s a)
          | inr (handler, c) ↦
              rw (b, c, kvm_handle_exit) (handlers-IsGood reason handler other c run' s a)
        ]
      ]

  -- A run of the guest, which leaves the driver's flag and the shadow of CR0 that the guest reads,
  -- or one exit that is not an exception, and whose handler returns.
  pub data ExitStep : Machine → Machine → Type 0 where
    by_guest :
        {s t : Machine}
        → t.vcpu.rmode.active ≡ s.vcpu.rmode.active
        → t.vmcs Field.cr0_read_shadow ≡ s.vmcs Field.cr0_read_shadow
        → ExitStep s t
    by_exit :
        (run : KvmRun) {s t : Machine} {r : Bool × KvmRun}
        → (vmcs_read32 Field.vm_exit_reason s == exit_reason_exception_nmi) ≡ false
        → kvm_handle_exit memop rounds tsc run s ≡ done r t
        → ExitStep s t

came : {A : Type 0} (r : Outcome A) {a : A} {t : Machine} → r ≡ done a t → Good r → Agrees (core t)
came r e h = ensured (subst (λ x. Good x) e h)

module _ (memop : Memop) (rounds tsc : ℕ) where
  -- Any number of them.
  pub data ExitSteps : Machine → Machine → Type 0 where
    stop : {s : Machine} → ExitSteps s s
    step : {s t u : Machine} → ExitStep memop rounds tsc s t → ExitSteps t u → ExitSteps s u

  ExitStep-Agrees :
      {s t : Machine} → ExitStep memop rounds tsc s t → Agrees (core s) → Agrees (core t)
  ExitStep-Agrees (by_guest {s} {t} f e) a = agree s t (simp (f, e)) a
  ExitStep-Agrees (by_exit run {s} other e) a =
      came (kvm_handle_exit memop rounds tsc run s) e
        (handle_exit-Good memop rounds tsc run s other a)

  steps-Agrees : {s t : Machine} → ExitSteps s t → Agrees (core s) → Agrees (core t)
  steps-Agrees stop a = a
  steps-Agrees (step one rest) a = steps-Agrees rest (ExitStep-Agrees one a)

  -- Through any sequence of exits other than exceptions that kvm_handle_exit returns from, and of
  -- runs of the guest between them, which change neither the driver's flag nor the read shadow of
  -- CR0, the driver goes on to emulate real mode exactly when the guest sees PE clear.
  pub ExitSteps-IsConsistent : {s t : Machine} → ExitSteps s t → IsConsistent s → IsConsistent t
  ExitSteps-IsConsistent {s} {t} steps ok = of_Agrees t (steps-Agrees steps (to_Agrees s ok))
