-- ===== src/Examples/Irq.antt =====
-- Runs of the interrupt queue, with a search for the lowest bit in the place of `__ffs`.
use native.Mathlib.Nat.{pow-suc}
use learn_kvm.Base.{
  ℕ, zero, suc, ◌+◌, ◌/◌, ◌%◌, ◌^◌, ◌≤◌, ◌<◌, ◌≡◌, ◌≢◌, ◌⊎◌, ◌↔◌, refl, inl, inr, false, ◌==◌,
  Bool-cases, [], ◌∷◌, arith, if◌then◌else◌,
}
use learn_kvm.Bits.{bit, bit-zero}
use learn_kvm.State.{Machine}
use learn_kvm.Run.Laws.{Returns, Ends}
use learn_kvm.GuestMemory.Copy.{kvm_read_guest, kvm_write_guest}
use learn_kvm.GuestMemory.Finish.{
  HasRead, HasWritten, kvm_read_guest-HasRead, kvm_write_guest-HasWritten,
}
use learn_kvm.Irq.{queue_irq, next_irq, kvm_do_inject_irq, KvmInterrupt, kvm_dev_ioctl_interrupt}
use learn_kvm.Irq.Queue.{IsPending, IsQueue, IsFfs, queue_irq-IsPending, queue_irq-IsQueue}
use learn_kvm.Paging.Reads.{Lacks}
use learn_kvm.Irq.Inject.{Took, do_inject-Took, do_inject_told}
use learn_kvm.Exit.Exception.{requeue}
use learn_kvm.Exit.Pending.{step, stop, by_ioctl, by_exit, IrqSteps-IsQueue}
use learn_kvm.Vmx.Field
use learn_kvm.Examples.Machines.{machine, cpu}

-- The lowest bit among the first `f`.
unfoldable lowest : ℕ → ℕ → ℕ
lowest zero w = 0
lowest (suc f) w = let rest = lowest f (w / 2) in if w % 2 == 1 then 0 else suc rest

lowest_lem :
    (f w : ℕ)
    → w ≢ 0
    → w < 2 ^ f
    → (bit (lowest f w) w ≡ 1) × ((k : ℕ) → bit k w ≡ 1 → lowest f w ≤ k)
unfolding lowest bit
lowest_lem zero w h lt = absurd (h (omega arith))
lowest_lem (suc f) w h lt = elim (Bool-cases (w % 2 == 1)) [
  | inl e ↦ let odd : w % 2 ≡ 1 = ground arith in rw (e, lowest) (odd, λ k _. omega arith)
  | inr e ↦
      let even : w % 2 ≢ 1 = ground arith in
      let (on, least) = lowest_lem f (w / 2) (λ z. h (omega arith)) (omega (arith, pow-suc 2 f)) in
      rw (e, lowest) (on, λ k. by_digit k even least)
]
  where
    by_digit :
        (k : ℕ)
        → w % 2 ≢ 1
        → ((k : ℕ) → bit k (w / 2) ≡ 1 → lowest f (w / 2) ≤ k)
        → bit k w ≡ 1
        → suc (lowest f (w / 2)) ≤ k
    by_digit zero even least on = absurd (even on)
    by_digit (suc k) even least on = omega (arith, least k on)

unfoldable scan : ℕ → ℕ
scan = lowest 64

scan-IsFfs : IsFfs scan
unfolding scan
scan-IsFfs = lowest_lem 64

empty-IsQueue : IsQueue cpu
empty-IsQueue = record {
  marks = λ w h. absurd (omega (arith, bit-zero w));
  is_marked = λ w h. absurd (h refl);
  summary_small = omega arith;
  words_small = λ w. omega arith;
}

-- Interrupt 33 is pending, in real mode and out of it.
abbrev waiting : Machine
waiting = record machine { vcpu = queue_irq 33 cpu }

abbrev waiting_protected : Machine
waiting_protected = record machine {
  vcpu = queue_irq 33 (record cpu { rmode = record cpu.rmode { active = false } });
}

waiting-IsQueue : IsQueue (queue_irq 33 cpu)
waiting-IsQueue = queue_irq-IsQueue 33 cpu (omega arith) empty-IsQueue

some_irq : waiting.vcpu.irq_summary ≢ 0
unfolding queue_irq
some_irq e = absurd (omega arith)

protected-IsQueue : IsQueue waiting_protected.vcpu
protected-IsQueue =
    queue_irq-IsQueue 33 (record cpu { rmode = record cpu.rmode { active = false } }) (omega arith)
      (record {
        marks = empty-IsQueue.marks;
        is_marked = empty-IsQueue.is_marked;
        summary_small = empty-IsQueue.summary_small;
        words_small = empty-IsQueue.words_small;
      })

some_irq_protected : waiting_protected.vcpu.irq_summary ≢ 0
unfolding queue_irq
some_irq_protected e = absurd (omega arith)

do_inject-Took_example :
    Ends
      (Lacks waiting)
      (λ _ t. Took (next_irq scan waiting.vcpu) waiting.vcpu t.vcpu)
      (kvm_do_inject_irq scan waiting)
do_inject-Took_example = do_inject-Took scan scan-IsFfs waiting waiting-IsQueue some_irq

do_inject_told_example :
    Returns
      (λ _ t. t.vmcs Field.vm_entry_intr_info_field ≡ next_irq scan waiting_protected.vcpu + 2 ^ 31)
      (kvm_do_inject_irq scan waiting_protected)
unfolding queue_irq
do_inject_told_example =
    do_inject_told scan scan-IsFfs waiting_protected protected-IsQueue some_irq_protected refl

next : next_irq scan waiting.vcpu ≡ 33
unfolding next_irq queue_irq scan lowest
next = refl

abbrev other : ℕ
other = 40

queue_irq-IsPending_example :
    IsPending other (queue_irq 33 cpu) ↔ (other ≡ 33) ⊎ IsPending other cpu
queue_irq-IsPending_example = queue_irq-IsPending 33 cpu other

-- An interrupt from user space, and one that is queued again.
abbrev irq_request : KvmInterrupt
irq_request = record { vcpu = 0; irq = 33 }

abbrev queued : Machine
queued = (kvm_dev_ioctl_interrupt irq_request machine).1

IrqSteps-IsQueue_example : IsQueue (requeue 0x80000021 queued).vcpu
IrqSteps-IsQueue_example =
    IrqSteps-IsQueue scan machine (requeue 0x80000021 queued) scan-IsFfs
      (step (by_ioctl irq_request) (step (by_exit 0x80000021) stop)) empty-IsQueue

-- From the middle of one page of the guest into the next.
kvm_read_guest-HasRead_example : HasRead 6 machine (kvm_read_guest 4092 6 machine)
kvm_read_guest-HasRead_example = kvm_read_guest-HasRead 4092 6 machine

kvm_write_guest-HasWritten_example :
    HasWritten 3 machine (kvm_write_guest 4094 (1 ∷ 2 ∷ 3 ∷ []) machine)
kvm_write_guest-HasWritten_example = kvm_write_guest-HasWritten 4094 (1 ∷ 2 ∷ 3 ∷ []) machine
