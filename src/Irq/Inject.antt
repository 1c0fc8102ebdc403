-- ===== src/Irq/Inject.antt =====
-- Delivery of the next interrupt: `kvm_do_inject_irq` and `kvm_try_inject_irq` of
-- src/2006-11-02/kvm-module/kvm_main.c.
use learn_kvm.Base.{
  ℕ, ◌+◌, ◌*◌, ◌^◌, ◌<◌, ◌≤◌, ◌≡◌, ◌≢◌, refl, sym, ap, ◌∙◌, subst, ◌↔◌, inl, inr, Bool, false, ◌!=◌,
  Bool-cases, List, length, arith, bit_or, u16, u32,
}
use learn_kvm.Bits.{or-pow, bit_or-zero}
use learn_kvm.State.{Machine, Vcpu}
use learn_kvm.Run.{Outcome}
use learn_kvm.Run.Laws.{Returns, returns, Ends, ends, then-Ends, weaken-Ends, excuse}
use learn_kvm.Vmcs.{vmcs_readl, vmcs_read32, vmcs_writel, vmcs_write16, vmcs_write32}
use learn_kvm.GuestMemory.Bytes.{to_bytes}
use learn_kvm.GuestMemory.Finish.{kvm_read_guest-HasRead, kvm_write_guest-HasWritten}
use learn_kvm.Irq.{
  next_irq, dequeue_irq, kvm_do_inject_irq, inject_rmode_irq, deliver, push_frame, enter_isr,
  stack_fault, stack_at,
}
use learn_kvm.Irq.Queue.{IsPending, IsQueue, IsFfs}
use learn_kvm.Irq.Next.{
  dequeue_irq-IsPending, dequeue_irq-IsQueue, next_irq-lt, next_irq-least, next_irq-IsPending,
}
use learn_kvm.Paging.Reads.{Lacks}
use learn_kvm.Vmx.Field

-- Only memory changes from `s` to `t`, so that `t` lacks what `s` does.
abbrev Keeps : Machine → Machine → Type 0
Keeps s t = t ≡ record s { mem = t.mem }

Keeps-trans : (s t u : Machine) → Keeps s t → Keeps t u → Keeps s u
Keeps-trans s t u p q = q ∙ ap (λ (x : Machine). record x { mem = u.mem }) p

further :
    {A : Type 0} {P : A → Machine → Type 0} {r : Outcome A} (s t : Machine)
    → Keeps s t
    → Ends (Lacks t) P r
    → Ends (Lacks s) P r
further s t p = excuse (subst Lacks p)

push_frame-Keeps :
    (ss_base sp flags cs ip : ℕ) (s : Machine)
    → Ends (Lacks s) (λ _ t. Keeps s t) (push_frame ss_base sp flags cs ip s)
unfolding push_frame
push_frame-Keeps ss_base sp flags cs ip s =
    then-Ends (kvm_write_guest-HasWritten (stack_at ss_base sp 2) (to_bytes 2 flags) s)
      λ (a : ℕ) t (_, p). elim (Bool-cases (a != 2)) [
        | inl e ↦ rw e (ends p)
        | inr e ↦ rw e (
            further s t p (
              then-Ends (kvm_write_guest-HasWritten (stack_at ss_base sp 4) (to_bytes 2 cs) t)
                λ (b : ℕ) u (_, q). elim (Bool-cases (b != 2)) [
                  | inl e ↦ rw e (ends (Keeps-trans s t u p q))
                  | inr e ↦ rw e (
                      further t u q (
                        then-Ends
                          (kvm_write_guest-HasWritten (stack_at ss_base sp 6) (to_bytes 2 ip) u)
                          λ c v (_, r). ends (Keeps-trans s u v (Keeps-trans s t u p q) r)))
                ]))
      ]

-- The virtual processor's struct is left as it was.
abbrev Leaves : {A : Type 0} → Machine → Outcome A → Type 0
Leaves s = Ends (Lacks s) λ _ t. t.vcpu ≡ s.vcpu

deliver-Leaves : (ss_base sp : ℕ) (ent : List ℕ) (s : Machine) → Leaves s (deliver ss_base sp ent s)
unfolding deliver enter_isr vmcs_writel vmcs_write16
deliver-Leaves ss_base sp ent s =
    then-Ends (push_frame-Keeps ss_base sp _ _ _ s) λ (pushed : Bool) t p.
      let same : t.vcpu ≡ s.vcpu = ap (λ (x : Machine). x.vcpu) p in
      elim (Bool-cases pushed) [ inl e ↦ rw e (ends same) | inr e ↦ rw e (ends same) ]

inject_rmode-Leaves : (irq : ℕ) (s : Machine) → Leaves s (inject_rmode_irq irq s)
unfolding inject_rmode_irq
inject_rmode-Leaves irq s =
    let ss_base : ℕ = vmcs_readl Field.guest_ss_base s in
    let sp : ℕ = u16 (vmcs_readl Field.guest_rsp s) in
    elim (Bool-cases (stack_fault sp (vmcs_read32 Field.guest_ss_limit s))) [
      | inl e ↦ rw (e, inject_rmode_irq) (ends refl)
      | inr e ↦
          rw (e, inject_rmode_irq)
            (then-Ends (kvm_read_guest-HasRead (irq * 4) 4 s) λ (ent : List ℕ) t p.
              elim (Bool-cases (length ent != 4)) [
                | inl d ↦ rw d (ends (ap (λ (x : Machine). x.vcpu) p.0))
                | inr d ↦ rw (d, p.0) (deliver-Leaves ss_base sp ent s)
              ])
    ]

-- Of the pending interrupts `irq` is the first, and it alone is no longer pending.
pub record Took (irq : ℕ) (v w : Vcpu) : Type 0 where
  pub was_pending : IsPending irq v
  pub least : (j : ℕ) → IsPending j v → irq ≤ j
  pub queue : IsQueue w
  pub others : (j : ℕ) → IsPending j w ↔ (j ≢ irq) × IsPending j v

module _ (ffs : ℕ → ℕ) (low : IsFfs ffs) (s : Machine) (q : IsQueue s.vcpu)
    (any : s.vcpu.irq_summary ≢ 0) where
  dequeue_irq-Took : Took (next_irq ffs s.vcpu) s.vcpu (dequeue_irq ffs s.vcpu)
  dequeue_irq-Took = record {
    was_pending = next_irq-IsPending ffs low s.vcpu q any;
    least = next_irq-least ffs low s.vcpu q any;
    queue = dequeue_irq-IsQueue ffs low s.vcpu q any;
    others = dequeue_irq-IsPending ffs low s.vcpu q any;
  }

  -- With a queue in order that is not empty, and an `__ffs` that finds the lowest bit, `kvm_do_inject_irq`
  -- ends, in real mode too: whether or not the guest's stack and interrupt table can be used, exactly the
  -- interrupt with the lowest number leaves the queue, which is in order again. It faults only where the context
  -- of the guest's tables is not set up or has no level, or a slot lacks a page of its array.
  pub do_inject-Took :
      Ends (Lacks s) (λ _ t. Took (next_irq ffs s.vcpu) s.vcpu t.vcpu) (kvm_do_inject_irq ffs s)
  unfolding kvm_do_inject_irq vmcs_write32 vmcs_writel next_irq dequeue_irq
  do_inject-Took = elim (Bool-cases s.vcpu.rmode.active) [
    | inr e ↦ simp (e, kvm_do_inject_irq) (ends dequeue_irq-Took)
    | inl e ↦
        let s' = record s { vcpu = dequeue_irq ffs s.vcpu } in
        simp (e, kvm_do_inject_irq)
          (weaken-Ends (inject_rmode-Leaves (next_irq ffs s.vcpu) s') λ _ t p.
            subst (λ (w : Vcpu). Took (next_irq ffs s.vcpu) s.vcpu w) (sym p) dequeue_irq-Took)
  ]

  -- Outside real mode, with a queue in order that is not empty and an `__ffs` that finds the lowest bit,
  -- `kvm_do_inject_irq` returns, and what it leaves for the next entry is the number of the next interrupt
  -- with the valid bit 31 and no other.
  pub do_inject_told :
      s.vcpu.rmode.active ≡ false
      → Returns
          (λ _ t. t.vmcs Field.vm_entry_intr_info_field ≡ next_irq ffs s.vcpu + 2 ^ 31)
          (kvm_do_inject_irq ffs s)
  unfolding kvm_do_inject_irq vmcs_write32 vmcs_writel
  do_inject_told e =
      let irq : ℕ = next_irq ffs s.vcpu in
      let small : irq < 256 = next_irq-lt ffs low s.vcpu q any in
      let told : u32 (bit_or (bit_or irq 0) (2 ^ 31)) ≡ irq + 2 ^ 31 =
        rw (bit_or-zero irq, or-pow 31 irq (omega arith)) (omega arith) in
      simp (e, kvm_do_inject_irq) (returns told)
