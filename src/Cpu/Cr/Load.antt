-- ===== src/Cpu/Cr/Load.antt =====
-- What a write of CR0 and CR4 leaves: the guest reads its value back and is emulated in the mode
-- that the value asks for.
use learn_kvm.Base.{
  ℕ, ◌^◌, ◌<◌, ◌≡◌, refl, ◌≢◌, inl, inr, ◌∙◌, ap, Bool, true, false, not, ◌&&◌, some, List, [], ◌∷◌,
  ◌==◌, ◌!=◌, Bool-cases, arith, bit_and, bit_or, not64, if◌then◌else◌,
}
use learn_kvm.Bits.{merge_mask}
use learn_kvm.State.{Rmode, Vcpu, Machine, MsrEntry}
use learn_kvm.Run.{Outcome, done, skip, act}
use learn_kvm.Run.Laws.{Returns, returns, bind, deref-Returns}
use learn_kvm.Vmcs.{
  has, vmcs_readl, vmcs_read32, guest_cr0, is_paging, vmcs_writel, vmcs_write32, vmcs_write16,
}
use learn_kvm.Mmu.Context.{kvm_mmu_reset_context}
use learn_kvm.Mmu.Context.Kept.{reset-Kept}
use learn_kvm.Cpu.Segment.{fix_pmode_dataseg, fix_rmode_seg}
use learn_kvm.Cpu.Rmode.{enter_pmode, enter_rmode, update_exception_bitmap}
use learn_kvm.Cpu.Msr.{find_msr_entry, store_msr, set_guest_msr, enter_lmode, exit_lmode, fix_tss}
use learn_kvm.Cpu.Cr.{
  set_cr0_fields, switch_pmode, switch_lmode, load_cr0, set_cr0, is_bad_cr0, refuses_paging,
}
use learn_kvm.Vmx.Masks.{
  kvm_guest_cr0_mask, cr0_pe_mask, cr0_pg_mask, efer_lme, msr_efer, efer_lma, ar_type_mask,
  ar_type_busy_64_tss,
}
use learn_kvm.Vmx.Field

-- The mode that a value of CR0 asks for.
abbrev pub InMode : ℕ → Machine → Type 0
InMode cr0 s = s.vcpu.rmode.active ≡ not (has cr0 cr0_pe_mask)

enter_pmode-active : (s : Machine) → (enter_pmode s).vcpu.rmode.active ≡ false
unfolding enter_pmode update_exception_bitmap fix_pmode_dataseg vmcs_writel vmcs_write32
    vmcs_write16
enter_pmode-active s = refl

enter_rmode-active : (s : Machine) → (enter_rmode s).vcpu.rmode.active ≡ true
unfolding enter_rmode update_exception_bitmap fix_rmode_seg vmcs_writel vmcs_write32 vmcs_write16
enter_rmode-active s = refl

enter_pmode-msrs : (s : Machine) → (enter_pmode s).vcpu.guest_msrs ≡ s.vcpu.guest_msrs
unfolding enter_pmode update_exception_bitmap fix_pmode_dataseg vmcs_writel vmcs_write32
    vmcs_write16
enter_pmode-msrs s = refl

enter_rmode-msrs : (s : Machine) → (enter_rmode s).vcpu.guest_msrs ≡ s.vcpu.guest_msrs
unfolding enter_rmode update_exception_bitmap fix_rmode_seg vmcs_writel vmcs_write32 vmcs_write16
enter_rmode-msrs s = refl

-- The mode is one of real and protected mode, and the saved registers are not touched.
abbrev Switched : Machine → Bool → Machine → Type 0
Switched s active t = (t.vcpu.rmode.active ≡ active) × (t.vcpu.guest_msrs ≡ s.vcpu.guest_msrs)

leave_rmode :
    (b p : Bool) (s : Machine)
    → s.vcpu.rmode.active ≡ b
    → Switched s (b && not p) (if b && p then enter_pmode s else s)
leave_rmode true true s e = (enter_pmode-active s, enter_pmode-msrs s)
leave_rmode true false s e = (e, refl)
leave_rmode false true s e = (e, refl)
leave_rmode false false s e = (e, refl)

begin_rmode :
    (b c p : Bool) (s t : Machine)
    → t.vcpu.rmode.active ≡ c
    → Switched s (b && not p) t
    → Switched s (not p) (if not c && not p then enter_rmode t else t)
begin_rmode true true true s t e h = absurd cc
begin_rmode false true true s t e h = absurd cc
begin_rmode b true false s t e h = (e, h.1)
begin_rmode b false true s t e h = (e, h.1)
begin_rmode b false false s t e h = (enter_rmode-active t, enter_rmode-msrs t ∙ h.1)

-- The step into or out of real mode.
pub switch_pmode-Switched :
    (cr0 : ℕ) (s : Machine) → Switched s (not (has cr0 cr0_pe_mask)) (switch_pmode cr0 s)
unfolding switch_pmode
switch_pmode-Switched cr0 s =
    let b = s.vcpu.rmode.active in
    begin_rmode b _ (has cr0 cr0_pe_mask) s _ refl (leave_rmode b (has cr0 cr0_pe_mask) s refl)

pub store_msr-some :
    (msr v : ℕ) (es : List MsrEntry) (e : MsrEntry)
    → find_msr_entry msr es ≡ some e
    → (es' : List MsrEntry) × (store_msr msr v es ≡ some es')
unfolding find_msr_entry store_msr
store_msr-some msr v [] e h = cc
store_msr-some msr v (x ∷ es) e h = elim (Bool-cases (x.index == msr)) [
  | inl q ↦ (record x { value = v } ∷ es, rw q refl)
  | inr q ↦ let (es', p) = store_msr-some msr v es e (rw q at h) in (x ∷ es', rw (q, p) refl)
]

set_guest_msr-Returns :
    (msr v : ℕ) (s : Machine) (e : MsrEntry)
    → find_msr_entry msr s.vcpu.guest_msrs ≡ some e
    → Returns (λ _ t. t.vcpu.rmode ≡ s.vcpu.rmode) (set_guest_msr msr v s)
set_guest_msr-Returns msr v s e h =
    let (es, p) = store_msr-some msr v s.vcpu.guest_msrs e h in rw (p, set_guest_msr) (returns refl)

fix_tss-vcpu : (s : Machine) → (fix_tss s).vcpu ≡ s.vcpu
unfolding fix_tss vmcs_write32 vmcs_writel
fix_tss-vcpu s =
    elim (Bool-cases
      (bit_and (vmcs_read32 Field.guest_tr_ar_bytes s) ar_type_mask != ar_type_busy_64_tss)) [
        | inl e ↦ rw (e, fix_tss) refl
        | inr e ↦ rw (e, fix_tss) refl
      ]

-- A command that keeps the mode.
abbrev Stays : Machine → Outcome (Unit {0}) → Type 0
Stays s = Returns λ _ u. u.vcpu.rmode ≡ s.vcpu.rmode

module _ (s : Machine) (e : MsrEntry) (h : find_msr_entry msr_efer s.vcpu.guest_msrs ≡ some e) where
  enter_lmode-Stays : Stays s (enter_lmode s)
  unfolding enter_lmode vmcs_write32 vmcs_writel
  enter_lmode-Stays =
      let v = fix_tss-vcpu s in
      let t = record (fix_tss s) {
        vcpu = record (fix_tss s).vcpu { shadow_efer = bit_or s.vcpu.shadow_efer efer_lma };
      } in
      let f : find_msr_entry msr_efer (fix_tss s).vcpu.guest_msrs ≡ some e =
        ap (λ (x : Vcpu). find_msr_entry msr_efer x.guest_msrs) v ∙ h in
      bind (deref-Returns _ e t h) λ x u p.
        bind
          (set_guest_msr-Returns msr_efer (bit_or x.value (bit_or efer_lma efer_lme)) u e
            (ap (λ (y : Machine). find_msr_entry msr_efer y.vcpu.guest_msrs) p.1 ∙ f))
          λ _ w q.
            returns (q ∙ ap (λ (y : Machine). y.vcpu.rmode) p.1 ∙ ap (λ (x : Vcpu). x.rmode) v)

  -- Out of long mode, or no change.
  leave_lmode :
      (b : Bool) (t : Machine)
      → t.vcpu.rmode ≡ s.vcpu.rmode
      → Stays s ((if b then act exit_lmode else skip) t)
  unfolding exit_lmode vmcs_write32 vmcs_writel
  leave_lmode true t p = returns p
  leave_lmode false t p = returns p

  join_lmode : (b : Bool) → Stays s ((if b then enter_lmode else skip) s)
  join_lmode true = enter_lmode-Stays
  join_lmode false = returns refl

  switch_lmode-Stays : (cr0 : ℕ) → Stays s (switch_lmode cr0 s)
  unfolding switch_lmode
  switch_lmode-Stays cr0 = elim (Bool-cases (has s.vcpu.shadow_efer efer_lme)) [
    | inr p ↦ rw (p, switch_lmode) (returns refl)
    | inl p ↦
        rw (p, switch_lmode)
          (bind (join_lmode (not (is_paging s) && has cr0 cr0_pg_mask)) λ _ u q. leave_lmode _ u q)
  ]

-- The guest reads the value back.
pub cr0-read_back : (cr0 : ℕ) (s : Machine) → cr0 < 2 ^ 64 → guest_cr0 (set_cr0_fields cr0 s) ≡ cr0
unfolding guest_cr0 vmcs_writel vmcs_readl
cr0-read_back cr0 s h =
    merge_mask cr0 kvm_guest_cr0_mask kvm_guest_cr0_mask h (omega arith) (omega arith) refl

pub load_cr0-Returns :
    (cr0 : ℕ) (s : Machine) (e : MsrEntry)
    → cr0 < 2 ^ 64
    → find_msr_entry msr_efer s.vcpu.guest_msrs ≡ some e
    → Returns (λ _ t. InMode cr0 t × (guest_cr0 t ≡ cr0)) (load_cr0 cr0 s)
unfolding load_cr0 guest_cr0 vmcs_writel
load_cr0-Returns cr0 s e small h =
    let (m, f) = switch_pmode-Switched cr0 s in
    bind
      (switch_lmode-Stays (switch_pmode cr0 s) e
        (ap (λ (x : List MsrEntry). find_msr_entry msr_efer x) f ∙ h) cr0)
      λ _ t p. returns (ap (λ (x : Rmode). x.active) p ∙ m, cr0-read_back cr0 t small)

pub vmcs-read_back :
    (s t : Machine)
    → ((f : ℕ) → f ≢ Field.guest_cr3 → t.vmcs f ≡ s.vmcs f)
    → guest_cr0 t ≡ guest_cr0 s
unfolding guest_cr0 vmcs_readl
vmcs-read_back s t same =
    cong₂ (same Field.cr0_read_shadow (omega arith)) (same Field.guest_cr0 (omega arith))
  where
    cong₂ :
        {a b c d : ℕ}
        → a ≡ b
        → c ≡ d
        → bit_or (bit_and a kvm_guest_cr0_mask) (bit_and c (not64 kvm_guest_cr0_mask))
          ≡ bit_or (bit_and b kvm_guest_cr0_mask) (bit_and d (not64 kvm_guest_cr0_mask))
    cong₂ p q = rw (p, q) refl

-- A value that `set_cr0` does not refuse, and a processor with an EFER entry: the function returns,
-- the guest reads the value back, and the processor is emulated in real mode exactly when the
-- value's PE bit is clear.
pub set_cr0-InMode :
    (cr0 : ℕ) (s : Machine) (e : MsrEntry)
    → cr0 < 2 ^ 64
    → is_bad_cr0 cr0 ≡ false
    → refuses_paging cr0 s ≡ done false s
    → find_msr_entry msr_efer s.vcpu.guest_msrs ≡ some e
    → Returns (λ _ t. InMode cr0 t × (guest_cr0 t ≡ cr0)) (set_cr0 cr0 s)
unfolding set_cr0
set_cr0-InMode cr0 s e small good accepted h =
    rw (good, accepted)
      (bind (load_cr0-Returns cr0 s e small h) λ _ t p.
        let (r, v, _, _) = reset-Kept t in
        returns (
          ap (λ (x : Rmode). x.active) r ∙ p.0,
          vmcs-read_back t (kvm_mmu_reset_context t) v ∙ p.1,
        ))
