-- ===== src/Cpu/Efer.antt =====
-- A write to EFER: `set_efer` of src/2006-11-02/kvm-module/kvm_main.c and the long mode bits.
use learn_kvm.Base.{
  ℕ, ◌+◌, ◌≡◌, refl, inl, inr, ◌∙◌, ap, sym, subst, true, some, ◌!=◌, Bool-cases, arith, bit_and,
  not64, u64, if◌then◌else◌,
}
use learn_kvm.Bits.{bit, bit_le, bit-and, bit-or}
use learn_kvm.State.{Machine, Vcpu, MsrEntry}
use learn_kvm.Run.Laws.{Returns, returns, bind}
use learn_kvm.Vmcs.{has, is_paging, vmcs_readl, vmcs_read32, vmcs_writel, vmcs_write32}
use learn_kvm.Cpu.Rmode.{inject_gp}
use learn_kvm.Cpu.Msr.{
  find_msr_entry, set_guest_msr, shadowed_efer, set_efer, skip_emulated_instruction,
}
use learn_kvm.Cpu.Cr.Load.{store_msr-some}
use learn_kvm.Vmx.Field
use learn_kvm.Vmx.Masks.{efer_lma, efer_lme, efer_reserved_bits, msr_efer}

-- LME and LMA are as before.
abbrev pub KeepsLongMode : ℕ → ℕ → Type 0
KeepsLongMode old new = (bit 8 new ≡ bit 8 old) × (bit 10 new ≡ bit 10 old)

shadowed_efer-KeepsLongMode :
    (old efer : ℕ)
    → bit_and old efer_lme ≡ bit_and efer efer_lme
    → KeepsLongMode old (shadowed_efer old efer)
unfolding shadowed_efer bit
shadowed_efer-KeepsLongMode old efer same =
    let a = bit_and efer (not64 efer_lma) in
    let b = bit_and old efer_lma in
    let lme : bit 8 old ≡ bit 8 efer = omega (
      arith,
      bit-and 8 old efer_lme,
      bit-and 8 efer efer_lme,
      ap (bit 8) same,
      bit_le 8 old,
      bit_le 8 efer,
    ) in
    (
      omega (
        arith,
        bit-or 8 a b,
        bit-and 8 efer (not64 efer_lma),
        bit-and 8 old efer_lma,
        lme,
        bit_le 8 efer,
      ),
      omega (
        arith,
        bit-or 10 a b,
        bit-and 10 efer (not64 efer_lma),
        bit-and 10 old efer_lma,
        bit_le 10 old,
      ),
    )

pub skip-vcpu : (s : Machine) → (skip_emulated_instruction s).vcpu ≡ s.vcpu
unfolding skip_emulated_instruction vmcs_write32 vmcs_writel
skip-vcpu s =
    elim (Bool-cases (
      has
        (vmcs_read32 Field.guest_interruptibility_info (
          vmcs_writel Field.guest_rip
            (u64 (vmcs_readl Field.guest_rip s + vmcs_read32 Field.vm_exit_instruction_len s)) s))
        3)) [
          | inl e ↦ rw (e, skip_emulated_instruction) refl
          | inr e ↦ rw (e, skip_emulated_instruction) refl
        ]

store-Returns :
    (v : ℕ) (s : Machine) (e : MsrEntry)
    → find_msr_entry msr_efer s.vcpu.guest_msrs ≡ some e
    → Returns (λ _ t. t.vcpu.shadow_efer ≡ s.vcpu.shadow_efer) (set_guest_msr msr_efer v s)
store-Returns v s e h =
    let (es, p) = store_msr-some msr_efer v s.vcpu.guest_msrs e h in
    rw (p, set_guest_msr) (returns refl)

-- While the guest's paging is on, a write of any value to EFER returns and changes neither LME nor
-- LMA, for a processor with an EFER entry.
pub set_efer-KeepsLongMode :
    (efer : ℕ) (s : Machine) (e : MsrEntry)
    → is_paging s ≡ true
    → find_msr_entry msr_efer s.vcpu.guest_msrs ≡ some e
    → Returns (λ _ t. KeepsLongMode s.vcpu.shadow_efer t.vcpu.shadow_efer) (set_efer efer s)
unfolding set_efer inject_gp vmcs_write32 vmcs_writel
set_efer-KeepsLongMode efer s e paging h = elim (Bool-cases (has efer efer_reserved_bits)) [
  | inl a ↦ rw (a, set_efer) (returns (refl, refl))
  | inr a ↦ elim (Bool-cases (bit_and s.vcpu.shadow_efer efer_lme != bit_and efer efer_lme)) [
    | inl b ↦ rw (a, paging, b, set_efer) (returns (refl, refl))
    | inr b ↦
        let efer' : ℕ = shadowed_efer s.vcpu.shadow_efer efer in
        let same : bit_and s.vcpu.shadow_efer efer_lme ≡ bit_and efer efer_lme = ground arith in
        rw (a, paging, b, set_efer)
          (bind
            (store-Returns (if has efer' efer_lma then efer' else bit_and efer' (not64 efer_lme))
              (record s { vcpu = record s.vcpu { shadow_efer = efer' } }) e h)
            λ _ t q. returns (
              subst (λ (x : ℕ). KeepsLongMode s.vcpu.shadow_efer x)
                (sym q ∙ sym (ap (λ (v : Vcpu). v.shadow_efer) (skip-vcpu t)))
                (shadowed_efer-KeepsLongMode s.vcpu.shadow_efer efer same)))
  ]
]
