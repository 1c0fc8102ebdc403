-- ===== src/Enter/Inject.antt =====
-- The processor's mode through the injection of interrupts before an entry to the guest, in
-- src/2006-11-02/kvm-module/kvm_main.c.
use learn_kvm.Base.{
  ℕ, ◌*◌, ◌≡◌, refl, ap, ◌∙◌, inl, inr, Bool, true, ◌&&◌, Bool-cases, List, length, ◌==◌, ◌!=◌,
  bit_and, u16, shr,
}
use learn_kvm.State.{Machine}
use learn_kvm.Run.Laws.{ensures, follow}
use learn_kvm.Vmcs.{has, vmcs_readl, vmcs_read32, vmcs_writel, vmcs_write16, vmcs_write32, on_vcpu}
use learn_kvm.GuestMemory.Bytes.{to_bytes}
use learn_kvm.GuestMemory.Copy.{kvm_write_guest}
use learn_kvm.GuestMemory.Finish.{kvm_read_guest-HasRead, kvm_write_guest-HasWritten}
use learn_kvm.Cpu.Cr.Stays.{core, Stays}
use learn_kvm.Irq.{
  stack_at, stack_fault, push_frame, enter_isr, deliver, inject_rmode_irq, dequeue_irq, next_irq,
  kvm_do_inject_irq, kvm_try_inject_irq,
}
use learn_kvm.Exit.Handlers.{of_Ends}
use learn_kvm.Vmx.Field
use learn_kvm.Vmx.Masks.{x86_eflags_if}

written :
    (c : Bool × ℕ) (addr : ℕ) (bytes : List ℕ) (s : Machine)
    → core s ≡ c
    → Stays c (kvm_write_guest addr bytes s)
written c addr bytes s e =
    of_Ends (kvm_write_guest-HasWritten addr bytes s) λ n t p. ap core p.1 ∙ e

push_frame-Stays :
    (c : Bool × ℕ) (ss_base sp flags cs ip : ℕ) (s : Machine)
    → core s ≡ c
    → Stays c (push_frame ss_base sp flags cs ip s)
unfolding push_frame
push_frame-Stays c ss_base sp flags cs ip s e =
    follow (written c (stack_at ss_base sp 2) (to_bytes 2 flags) s e) λ (a : ℕ) t p.
      elim (Bool-cases (a != 2)) [
        | inl h ↦ rw h (ensures p)
        | inr h ↦ rw h (
            follow (written c (stack_at ss_base sp 4) (to_bytes 2 cs) t p) λ (b : ℕ) u q.
              elim (Bool-cases (b != 2)) [
                | inl k ↦ rw k (ensures q)
                | inr k ↦ rw k (
                    follow (written c (stack_at ss_base sp 6) (to_bytes 2 ip) u q)
                      λ _ v r. ensures r)
              ])
      ]

deliver-Stays :
    (c : Bool × ℕ) (ss_base sp : ℕ) (ent : List ℕ) (s : Machine)
    → core s ≡ c
    → Stays c (deliver ss_base sp ent s)
unfolding deliver enter_isr vmcs_writel vmcs_write16
deliver-Stays c ss_base sp ent s e =
    let cs : ℕ = u16 (shr (vmcs_readl Field.guest_cs_base s) 4) in
    follow
      (push_frame-Stays c ss_base sp (vmcs_readl Field.guest_rflags s) cs
        (u16 (vmcs_readl Field.guest_rip s)) s e)
      λ (pushed : Bool) t p. elim (Bool-cases pushed) [
        | inl h ↦ rw h (ensures p)
        | inr h ↦ rw h (ensures p)
      ]

rmode_irq-Stays :
    (c : Bool × ℕ) (irq : ℕ) (s : Machine) → core s ≡ c → Stays c (inject_rmode_irq irq s)
unfolding inject_rmode_irq
rmode_irq-Stays c irq s e =
    let sp : ℕ = u16 (vmcs_readl Field.guest_rsp s) in
    elim (Bool-cases (stack_fault sp (vmcs_read32 Field.guest_ss_limit s))) [
      | inl h ↦ rw h (ensures e)
      | inr h ↦ rw h (
          follow (of_Ends (kvm_read_guest-HasRead (irq * 4) 4 s) λ _ t p. ap core p.0 ∙ e)
            λ (ent : List ℕ) t p. elim (Bool-cases (length ent != 4)) [
              | inl k ↦ rw k (ensures p)
              | inr k ↦ rw k (deliver-Stays c (vmcs_readl Field.guest_ss_base s) sp ent t p)
            ])
    ]

module _ (ffs : ℕ → ℕ) where
  do_inject-Stays : (s : Machine) → Stays (core s) (kvm_do_inject_irq ffs s)
  unfolding kvm_do_inject_irq dequeue_irq vmcs_write32 vmcs_writel
  do_inject-Stays s = elim (Bool-cases s.vcpu.rmode.active) [
    | inl h ↦
        simp (h, kvm_do_inject_irq)
          (rmode_irq-Stays (true, s.vmcs Field.cr0_read_shadow) (next_irq ffs s.vcpu)
            (on_vcpu (dequeue_irq ffs) s) (ap (λ (b : Bool). (b, s.vmcs Field.cr0_read_shadow)) h))
    | inr h ↦
        simp (h, kvm_do_inject_irq)
          (ensures (ap (λ (b : Bool). (b, s.vmcs Field.cr0_read_shadow)) h))
  ]

  pub try_inject-Stays : (s : Machine) → Stays (core s) (kvm_try_inject_irq ffs s)
  unfolding kvm_try_inject_irq vmcs_write32 vmcs_writel
  try_inject-Stays s =
      elim (Bool-cases (
        has (vmcs_readl Field.guest_rflags s) x86_eflags_if
        && bit_and (vmcs_read32 Field.guest_interruptibility_info s) 3 == 0)) [
          | inl h ↦ rw (h, kvm_try_inject_irq) (do_inject-Stays s)
          | inr h ↦ rw (h, kvm_try_inject_irq) (ensures refl)
        ]
