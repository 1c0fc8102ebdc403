-- ===== src/Exit/Pending.antt =====
-- The queue of interrupts through everything that changes it: the ioctl that queues one, the exits that
-- queue again one whose delivery was cut short, and the injection before an entry
-- (src/2006-11-02/kvm-module/kvm_main.c).
use learn_kvm.Base.{
  ℕ, ◌<◌, ◌≡◌, ◌≢◌, subst, inl, inr, not, ◌&&◌, leb, ◌==◌, Bool-cases, arith, bit_and,
}
use learn_kvm.Bits.{bit_and-low}
use learn_kvm.State.{Machine}
use learn_kvm.Run.{Outcome, done}
use learn_kvm.Run.Laws.{Ends, ends, weaken-Ends}
use learn_kvm.Vmcs.{has, is_external_interrupt, vmcs_readl, vmcs_read32, vmcs_writel, vmcs_write32}
use learn_kvm.Ioctl.Load.{vcpu_load}
use learn_kvm.Irq.{
  KvmInterrupt, kvm_dev_ioctl_interrupt, kvm_try_inject_irq, handle_interrupt_window,
}
use learn_kvm.Irq.Queue.{IsQueue, IsFfs, queue_irq-IsQueue}
use learn_kvm.Paging.Reads.{Lacks}
use learn_kvm.Irq.Inject.{do_inject-Took}
use learn_kvm.Exit.Exception.{requeue}
use learn_kvm.Vmx.Field
use learn_kvm.Vmx.Masks.{kvm_max_vcpus, vectoring_info_vector_mask, x86_eflags_if}

-- One operation on the queue. `kvm_try_inject_irq` is called with a summary that is not 0.
pub data IrqStep (ffs : ℕ → ℕ) : Machine → Machine → Type 0 where
  by_ioctl : (irq : KvmInterrupt) {s : Machine} → IrqStep ffs s (kvm_dev_ioctl_interrupt irq s).1
  by_exit : (vect_info : ℕ) {s : Machine} → IrqStep ffs s (requeue vect_info s)
  by_window : {s : Machine} → IrqStep ffs s (handle_interrupt_window s)
  by_entry :
      {s t : Machine}
      → s.vcpu.irq_summary ≢ 0
      → kvm_try_inject_irq ffs s ≡ done tt t
      → IrqStep ffs s t

-- Any number of them.
pub data IrqSteps (ffs : ℕ → ℕ) : Machine → Machine → Type 0 where
  stop : {s : Machine} → IrqSteps ffs s s
  step : {s t u : Machine} → IrqStep ffs s t → IrqSteps ffs t u → IrqSteps ffs s u

ioctl-IsQueue :
    (irq : KvmInterrupt) (s : Machine)
    → IsQueue s.vcpu
    → IsQueue (kvm_dev_ioctl_interrupt irq s).1.vcpu
unfolding kvm_dev_ioctl_interrupt
ioctl-IsQueue irq s q = elim (Bool-cases (leb kvm_max_vcpus irq.vcpu)) [
  | inl a ↦ rw (a, kvm_dev_ioctl_interrupt) q
  | inr a ↦ elim (Bool-cases (leb 256 irq.irq)) [
    | inl b ↦ rw (a, b, kvm_dev_ioctl_interrupt) q
    | inr b ↦ elim (Bool-cases (not (vcpu_load s))) [
      | inl c ↦ rw (a, b, c, kvm_dev_ioctl_interrupt) q
      | inr c ↦
          let small : irq.irq < 256 = ground arith in
          rw (a, b, c, kvm_dev_ioctl_interrupt) (queue_irq-IsQueue irq.irq s.vcpu small q)
    ]
  ]
]

requeue-IsQueue :
    (vect_info : ℕ) (s : Machine) → IsQueue s.vcpu → IsQueue (requeue vect_info s).vcpu
unfolding requeue
requeue-IsQueue vect_info s q = elim (Bool-cases (is_external_interrupt vect_info)) [
  | inl e ↦
      let small : bit_and vect_info vectoring_info_vector_mask < 256 =
        omega (arith, bit_and-low 8 vect_info) in
      rw (e, requeue) (queue_irq-IsQueue _ s.vcpu small q)
  | inr e ↦ rw (e, requeue) q
]

try_inject-IsQueue :
    (ffs : ℕ → ℕ) (s : Machine)
    → IsFfs ffs
    → IsQueue s.vcpu
    → s.vcpu.irq_summary ≢ 0
    → Ends (Lacks s) (λ _ t. IsQueue t.vcpu) (kvm_try_inject_irq ffs s)
unfolding kvm_try_inject_irq vmcs_write32 vmcs_writel
try_inject-IsQueue ffs s low q any =
    elim (Bool-cases (
      has (vmcs_readl Field.guest_rflags s) x86_eflags_if
      && bit_and (vmcs_read32 Field.guest_interruptibility_info s) 3 == 0)) [
        | inl e ↦
            rw (e, kvm_try_inject_irq)
              (weaken-Ends (do_inject-Took ffs low s q any) λ _ t p. p.queue)
        | inr e ↦ rw (e, kvm_try_inject_irq) (ends q)
      ]

ended : {F : Type 0} {P : Machine → Type 0} {t : Machine} → Ends F (λ _ u. P u) (done tt t) → P t
ended (ends p) = p

IrqStep-IsQueue :
    (ffs : ℕ → ℕ) (s t : Machine) → IsFfs ffs → IrqStep ffs s t → IsQueue s.vcpu → IsQueue t.vcpu
unfolding handle_interrupt_window vmcs_write32 vmcs_writel
IrqStep-IsQueue ffs s t low (by_ioctl irq) q = ioctl-IsQueue irq s q
IrqStep-IsQueue ffs s t low (by_exit vect_info) q = requeue-IsQueue vect_info s q
IrqStep-IsQueue ffs s t low by_window q = q
IrqStep-IsQueue ffs s t low (by_entry any e) q = ended {P = λ u. IsQueue u.vcpu} (
    subst (λ (r : Outcome (Unit {0})). Ends (Lacks s) (λ _ u. IsQueue u.vcpu) r) e
      (try_inject-IsQueue ffs s low q any))

-- Through any sequence of interrupts from user space, of exits that cut a delivery short, of open windows
-- and of injections that return, the summary word marks exactly the words of the queue that are not
-- empty, for an `__ffs` that finds the lowest bit.
pub IrqSteps-IsQueue :
    (ffs : ℕ → ℕ) (s t : Machine) → IsFfs ffs → IrqSteps ffs s t → IsQueue s.vcpu → IsQueue t.vcpu
IrqSteps-IsQueue ffs s t low stop q = q
IrqSteps-IsQueue ffs s t low (step {t = u} a rest) q =
    IrqSteps-IsQueue ffs u t low rest (IrqStep-IsQueue ffs s u low a q)
