-- ===== src/Cpu/Mode.antt =====
-- The processor's mode through the control registers' operations: the step relation of the guest's
-- writes to CR0, CR3, CR4, CR8 and EFER and of LMSW, and what it keeps.
use learn_kvm.Base.{
  ℕ, ◌≡◌, subst, inl, inr, ◌∙◌, sym, ap, Bool, true, false, not, ◌&&◌, Bool-cases, if◌then◌else◌,
}
use learn_kvm.State.{Machine}
use learn_kvm.Run.{Outcome, ◌>>◌, done, act}
use learn_kvm.Run.Laws.{Ensures, ensures, follow, ensured}
use learn_kvm.Vmcs.{has, guest_cr0, vmcs_writel, vmcs_write32, vmcs_write16}
use learn_kvm.Vmcs.Laws.{has-or_pe, guest_cr0-pe}
use learn_kvm.Mmu.Context.{kvm_mmu_reset_context}
use learn_kvm.Cpu.Segment.{fix_pmode_dataseg}
use learn_kvm.Cpu.Rmode.{inject_gp, enter_pmode, update_exception_bitmap}
use learn_kvm.Cpu.Msr.{set_efer}
use learn_kvm.Cpu.Cr.{switch_pmode, load_cr0, set_cr0, is_bad_cr0, lmsw, set_cr4, set_cr3, set_cr8}
use learn_kvm.Cpu.Cr.Load.{switch_pmode-Switched}
use learn_kvm.Vmx.Masks.{cr0_pe_mask}
use learn_kvm.Cpu.Cr.Stays.{
  core, Stays, inject_gp-core, reset-core, refuses_paging-Reads, switch_lmode-Stays, set_cr3-Stays,
  set_cr4-Stays, set_cr8-core, set_efer-Stays,
}

-- Real mode is emulated exactly when the PE bit that the guest sees is clear.
abbrev pub IsConsistent : Machine → Type 0
IsConsistent s = s.vcpu.rmode.active ≡ not (has (guest_cr0 s) cr0_pe_mask)

-- The same, of the mode.
abbrev pub Agrees : Bool × ℕ → Type 0
Agrees c = c.0 ≡ not (has c.1 cr0_pe_mask)

pub to_Agrees : (s : Machine) → IsConsistent s → Agrees (core s)
to_Agrees s h = h ∙ ap not (guest_cr0-pe s)

pub of_Agrees : (s : Machine) → Agrees (core s) → IsConsistent s
of_Agrees s h = h ∙ ap not (sym (guest_cr0-pe s))

pub agree : (s t : Machine) → core t ≡ core s → Agrees (core s) → Agrees (core t)
agree s t e h =
    ap (λ (c : Bool × ℕ). c.0) e ∙ h ∙ sym (ap (λ (c : Bool × ℕ). not (has c.1 cr0_pe_mask)) e)

load_cr0-Agrees :
    (refused : Bool) (cr0 : ℕ) (s : Machine)
    → Agrees (core s)
    → Ensures
        (λ _ t. Agrees (core t))
        ((if refused then act inject_gp else load_cr0 cr0 >> act kvm_mmu_reset_context) s)
unfolding load_cr0 vmcs_writel
load_cr0-Agrees true cr0 s h = ensures (agree s (inject_gp s) (inject_gp-core s) h)
load_cr0-Agrees false cr0 s h =
    follow
      (follow (switch_lmode-Stays cr0 (switch_pmode cr0 s))
        λ _ t p. ensures (ap (λ (c : Bool × ℕ). c.0) p ∙ (switch_pmode-Switched cr0 s).0))
      λ _ u q. ensures (agree u (kvm_mmu_reset_context u) (reset-core u) q)

pub set_cr0-Agrees :
    (cr0 : ℕ) (s : Machine) → Agrees (core s) → Ensures (λ _ t. Agrees (core t)) (set_cr0 cr0 s)
unfolding set_cr0
set_cr0-Agrees cr0 s h = elim (Bool-cases (is_bad_cr0 cr0)) [
  | inl e ↦ rw (e, set_cr0) (ensures (agree s (inject_gp s) (inject_gp-core s) h))
  | inr e ↦
      rw (e, set_cr0)
        (follow (refuses_paging-Reads cr0 s)
          λ refused t p. load_cr0-Agrees refused cr0 t (agree s t (ap core p) h))
]

pub lmsw-Agrees : (msw : ℕ) (s : Machine) → Agrees (core s) → Agrees (core (lmsw msw s))
unfolding lmsw vmcs_writel vmcs_write32 vmcs_write16 enter_pmode update_exception_bitmap
    fix_pmode_dataseg
lmsw-Agrees msw s h =
    elim (Bool-cases (has msw cr0_pe_mask && not (has (guest_cr0 s) cr0_pe_mask))) [
      | inr e ↦ rw (e, lmsw) h
      | inl e ↦ rw (e, lmsw) (sym (ap not (has-or_pe (guest_cr0 s))))
    ]

-- One operation on a control register or EFER, by the guest or by user space, that returns.
pub data Step : Machine → Machine → Type 0 where
  by_cr0 : (cr0 : ℕ) {s t : Machine} → set_cr0 cr0 s ≡ done tt t → Step s t
  by_lmsw : (msw : ℕ) {s : Machine} → Step s (lmsw msw s)
  by_cr3 : (cr3 : ℕ) {s t : Machine} → set_cr3 cr3 s ≡ done tt t → Step s t
  by_cr4 : (cr4 : ℕ) {s t : Machine} → set_cr4 cr4 s ≡ done tt t → Step s t
  by_cr8 : (cr8 : ℕ) {s : Machine} → Step s (set_cr8 cr8 s)
  by_efer : (efer : ℕ) {s t : Machine} → set_efer efer s ≡ done tt t → Step s t

-- Any number of them.
pub data Steps : Machine → Machine → Type 0 where
  stop : {s : Machine} → Steps s s
  step : {s t u : Machine} → Step s t → Steps t u → Steps s u

reached :
    (P : Machine → Type 0) (r : Outcome (Unit {0})) (t : Machine)
    → r ≡ done tt t
    → Ensures (λ _ u. P u) r
    → P t
reached P r t e h = ensured (subst (λ (x : Outcome (Unit {0})). Ensures (λ _ u. P u) x) e h)

kept :
    (s : Machine) (r : Outcome (Unit {0})) (t : Machine)
    → r ≡ done tt t
    → Stays (core s) r
    → Agrees (core s)
    → Agrees (core t)
kept s r t e h a = agree s t (reached (λ u. core u ≡ core s) r t e h) a

Step-Agrees : (s t : Machine) → Step s t → Agrees (core s) → Agrees (core t)
Step-Agrees s t (by_cr0 cr0 e) a = reached (λ u. Agrees (core u)) _ _ e (set_cr0-Agrees cr0 s a)
Step-Agrees s t (by_lmsw msw) a = lmsw-Agrees msw s a
Step-Agrees s t (by_cr3 cr3 e) a = kept s _ _ e (set_cr3-Stays cr3 s) a
Step-Agrees s t (by_cr4 cr4 e) a = kept s _ _ e (set_cr4-Stays cr4 s) a
Step-Agrees s t (by_cr8 cr8) a = agree s (set_cr8 cr8 s) (set_cr8-core cr8 s) a
Step-Agrees s t (by_efer efer e) a = kept s _ _ e (set_efer-Stays efer s) a

-- Through any sequence of writes to CR0, CR3, CR4, CR8 and EFER and of LMSW that return, refused
-- ones included, the driver goes on to emulate real mode exactly when the guest sees PE clear.
pub Steps-IsConsistent : (s t : Machine) → Steps s t → IsConsistent s → IsConsistent t
Steps-IsConsistent s t stop h = h
Steps-IsConsistent s t (step {t = u} a rest) h =
    Steps-IsConsistent u t rest (of_Agrees u (Step-Agrees s u a (to_Agrees s h)))
