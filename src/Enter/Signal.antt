-- ===== src/Enter/Signal.antt =====
-- A signal ends `kvm_dev_ioctl_run` of src/2006-11-02/kvm-module/kvm_main.c.
use mathlib.Core.Path.{fun_ext}
use learn_kvm.Base.{ℕ, ◌≡◌, refl, ap, inl, inr, Bool, true, List, [], ◌∷◌, ◌++◌, Bool-cases, not}
use learn_kvm.State.{Machine}
use learn_kvm.Run.{Cmd, ◌>>=◌}
use learn_kvm.Status.{Status}
use learn_kvm.Exit.Report.{KvmRun}
use learn_kvm.Exit.Emulate.{Memop}
use learn_kvm.Enter.{Pass, end_pass, one_pass, passes, kvm_dev_ioctl_run}

-- With a signal pending, what would come next does not matter.
signalled :
    (pass : Pass) (f g : KvmRun → Cmd (Status × KvmRun)) (r : Bool × KvmRun) (s : Machine)
    → pass.signal ≡ true
    → end_pass pass f r s ≡ end_pass pass g r s
unfolding end_pass
signalled pass f g (handled, run) s e = elim (Bool-cases (not handled)) [
  | inl h ↦ rw h refl
  | inr h ↦ rw (h, e) refl
]

module _ (ffs : ℕ → ℕ) (memop : Memop) (rounds : ℕ) (last : Pass)
    (pending : last.signal ≡ true) where
  passes_until :
      (first rest : List Pass) (run : KvmRun)
      → passes ffs memop rounds (first ++ last ∷ rest) run
        ≡ passes ffs memop rounds (first ++ last ∷ []) run
  unfolding passes
  passes_until [] rest run =
      ap (λ next. one_pass ffs memop rounds last run >>= next)
        (fun_ext λ r. fun_ext λ s.
          signalled last (passes ffs memop rounds rest) (passes ffs memop rounds []) r s pending)
  passes_until (pass ∷ first) rest run =
      ap (λ again. one_pass ffs memop rounds pass run >>= end_pass pass again)
        (fun_ext λ run'. passes_until first rest run')

  -- A pass that finds a signal pending is the last one: what kvm_dev_ioctl_run returns does not depend on any
  -- pass after it.
  pub ioctl_run_until :
      (first rest : List Pass) (run : KvmRun) (s : Machine)
      → kvm_dev_ioctl_run ffs memop rounds (first ++ last ∷ rest) run s
        ≡ kvm_dev_ioctl_run ffs memop rounds (first ++ last ∷ []) run s
  unfolding kvm_dev_ioctl_run
  ioctl_run_until first rest run s = rw (passes_until first rest _) refl
