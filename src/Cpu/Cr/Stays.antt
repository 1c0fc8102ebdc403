-- ===== src/Cpu/Cr/Stays.antt =====
-- Which operations on the control registers and EFER leave the processor's mode alone:
-- CR3, CR4, CR8, EFER and the switches of long mode, src/2006-11-02/kvm-module/kvm_main.c.
use learn_kvm.Base.{
  ℕ, ◌+◌, u64, ◌≡◌, refl, inl, inr, ◌∙◌, ap, Bool, true, false, not, ◌&&◌, Option, ◌!=◌, Bool-cases,
  Option-cases, arith, bit_and, bit_or, not64, if◌then◌else◌, shr,
}
use learn_kvm.State.{
  Kvm, PagingMode, unset, nonpaging, paging64, paging32, Machine, MsrEntry, MemorySlot, Rmode,
}
use learn_kvm.Run.{Outcome, Cmd, skip, act}
use learn_kvm.Run.Laws.{Ensures, ensures, faults, runs_out, follow, deref-Ensures}
use learn_kvm.Vmcs.{
  has, is_paging, is_pae, is_long_mode, vmcs_readl, vmcs_read32, vmcs_writel, vmcs_write32,
}
use learn_kvm.Slots.{gfn_to_memslot, gfn_to_page}
use learn_kvm.Mmu.Pages.{kvm_mmu_flush_tlb}
use learn_kvm.Mmu.Context.Kept.{modes, flush_tlb-modes, reset-Kept}
use learn_kvm.Mmu.Context.{kvm_mmu_reset_context}
use learn_kvm.Paging.Dispatch.{mmu_new_cr3}
use learn_kvm.Cpu.Rmode.{inject_gp}
use learn_kvm.Cpu.Msr.{
  shadowed_efer, find_msr_entry, store_msr, set_guest_msr, set_efer, enter_lmode, exit_lmode,
  fix_tss, skip_emulated_instruction,
}
use learn_kvm.Cpu.Cr.{
  switch_lmode, refuses_paging, load_cr4, pdptrs_have_reserved_bits_set, accept_cr4, set_cr4,
  refuses_cr3, set_cr3, set_cr8,
}
use learn_kvm.Vmx.Field
use learn_kvm.Vmx.Masks.{
  cr8_reseved_bits, cr4_reseved_bits, cr4_vmxe_mask, cr4_pae_mask, efer_reserved_bits, page_shift,
  cr3_reseved_bits, ar_type_mask, ar_type_busy_64_tss, efer_lma, cr0_pg_mask, efer_lme, msr_efer,
}

-- What the mode is read from: the emulation of real mode, and CR0 as the guest sees it.
abbrev pub core : Machine → Bool × ℕ
core s = (s.vcpu.rmode.active, s.vmcs Field.cr0_read_shadow)

pub core-of_modes : (s t : Machine) → modes t ≡ modes s → core t ≡ core s
core-of_modes s t e =
    ap (λ (x : (ℕ → ℕ) × Rmode × Kvm × Bool). (x.1.active, x.0 Field.cr0_read_shadow)) e

pub reset-core : (s : Machine) → core (kvm_mmu_reset_context s) ≡ core s
reset-core s = let (r, v, _, _) = reset-Kept s in rw (r, v Field.cr0_read_shadow (omega arith)) refl

-- A command that does not change the mode.
abbrev pub Stays : {A : Type 0} → Bool × ℕ → Outcome A → Type 0
Stays c = Ensures λ _ t. core t ≡ c

pub set_guest_msr-Stays : (msr v : ℕ) (s : Machine) → Stays (core s) (set_guest_msr msr v s)
set_guest_msr-Stays msr v s = elim (Option-cases (store_msr msr v s.vcpu.guest_msrs)) [
  | inl e ↦ rw (e, set_guest_msr) faults
  | inr (es, e) ↦ rw (e, set_guest_msr) (ensures refl)
]

fix_tss-core : (s : Machine) → core (fix_tss s) ≡ core s
unfolding fix_tss vmcs_write32 vmcs_writel
fix_tss-core s =
    elim (Bool-cases
      (bit_and (vmcs_read32 Field.guest_tr_ar_bytes s) ar_type_mask != ar_type_busy_64_tss)) [
        | inl e ↦ rw (e, fix_tss) refl
        | inr e ↦ rw (e, fix_tss) refl
      ]

enter_lmode-Stays : (s : Machine) → Stays (core s) (enter_lmode s)
unfolding enter_lmode vmcs_write32 vmcs_writel
enter_lmode-Stays s =
    let t0 : Machine = record (fix_tss s) {
      vcpu = record (fix_tss s).vcpu { shadow_efer = bit_or s.vcpu.shadow_efer efer_lma };
    } in
    follow (deref-Ensures (find_msr_entry msr_efer s.vcpu.guest_msrs) t0) λ (e : MsrEntry) t p.
      follow (set_guest_msr-Stays msr_efer (bit_or e.value (bit_or efer_lma efer_lme)) t)
        λ _ u q. ensures (q ∙ ap core p ∙ fix_tss-core s)

module _ (c : Bool × ℕ) where
  leave_lmode :
      (b : Bool) (t : Machine) → core t ≡ c → Stays c ((if b then act exit_lmode else skip) t)
  unfolding exit_lmode vmcs_write32 vmcs_writel
  leave_lmode true t p = ensures p
  leave_lmode false t p = ensures p

join_lmode : (b : Bool) (s : Machine) → Stays (core s) ((if b then enter_lmode else skip) s)
join_lmode true s = enter_lmode-Stays s
join_lmode false s = ensures refl

pub switch_lmode-Stays : (cr0 : ℕ) (s : Machine) → Stays (core s) (switch_lmode cr0 s)
unfolding switch_lmode
switch_lmode-Stays cr0 s = elim (Bool-cases (has s.vcpu.shadow_efer efer_lme)) [
  | inr p ↦ rw (p, switch_lmode) (ensures refl)
  | inl p ↦
      rw (p, switch_lmode)
        (follow (join_lmode (not (is_paging s) && has cr0 cr0_pg_mask) s)
          λ _ u q. leave_lmode (core s) _ u q)
]

-- The checks only read.
abbrev pub Reads : {A : Type 0} → Machine → Outcome A → Type 0
Reads s = Ensures λ _ t. t ≡ s

pdptrs-Reads : (cr3 : ℕ) (s : Machine) → Reads s (pdptrs_have_reserved_bits_set cr3 s)
unfolding pdptrs_have_reserved_bits_set
pdptrs-Reads cr3 s =
    follow (deref-Ensures (gfn_to_memslot s.kvm (shr cr3 page_shift)) s) λ (x : ℕ × MemorySlot) t p.
      follow (deref-Ensures (gfn_to_page x.1 (shr cr3 page_shift)) t)
        λ (y : Option ℕ) u q. follow (deref-Ensures y u) λ z v r. ensures (r ∙ q ∙ p)

pub refuses_paging-Reads : (cr0 : ℕ) (s : Machine) → Reads s (refuses_paging cr0 s)
unfolding refuses_paging
refuses_paging-Reads cr0 s = elim (Bool-cases (not (is_paging s) && has cr0 cr0_pg_mask)) [
  | inr a ↦ rw (a, refuses_paging) (ensures refl)
  | inl a ↦ elim (Bool-cases (has s.vcpu.shadow_efer efer_lme)) [
    | inl b ↦ rw (a, b, refuses_paging) (ensures refl)
    | inr b ↦ elim (Bool-cases (is_pae s)) [
      | inl c ↦ rw (a, b, c, refuses_paging) (pdptrs-Reads s.vcpu.cr3 s)
      | inr c ↦ rw (a, b, c, refuses_paging) (ensures refl)
    ]
  ]
]

refuses_cr3-Reads : (cr3 : ℕ) (s : Machine) → Reads s (refuses_cr3 cr3 s)
unfolding refuses_cr3
refuses_cr3-Reads cr3 s = elim (Bool-cases (is_long_mode s)) [
  | inl a ↦ rw (a, refuses_cr3) (ensures refl)
  | inr a ↦ elim (Bool-cases (has cr3 cr3_reseved_bits)) [
    | inl b ↦ rw (a, b, refuses_cr3) (ensures refl)
    | inr b ↦ elim (Bool-cases (is_paging s && is_pae s)) [
      | inl c ↦ rw (a, b, c, refuses_cr3) (pdptrs-Reads cr3 s)
      | inr c ↦ rw (a, b, c, refuses_cr3) (ensures refl)
    ]
  ]
]

pub inject_gp-core : (s : Machine) → core (inject_gp s) ≡ core s
unfolding inject_gp vmcs_write32 vmcs_writel
inject_gp-core s = refl

mmu_new_cr3-Stays : (s : Machine) → Stays (core s) (mmu_new_cr3 s)
unfolding mmu_new_cr3
mmu_new_cr3-Stays s = by_mode s.vcpu.mmu.mode refl
  where
    by_mode : (m : PagingMode) → s.vcpu.mmu.mode ≡ m → Stays (core s) (mmu_new_cr3 s)
    by_mode unset e = rw (e, mmu_new_cr3) faults
    by_mode nonpaging e = rw (e, mmu_new_cr3) (ensures refl)
    by_mode paging64 e =
        rw (e, mmu_new_cr3) (ensures (core-of_modes s (kvm_mmu_flush_tlb s) (flush_tlb-modes s)))
    by_mode paging32 e =
        rw (e, mmu_new_cr3) (ensures (core-of_modes s (kvm_mmu_flush_tlb s) (flush_tlb-modes s)))

-- A #GP, or else the rest.
gp_or :
    (c : Bool × ℕ) (refused : Bool) (m : Cmd (Unit {0})) (s : Machine)
    → core s ≡ c
    → Stays c (m s)
    → Stays c ((if refused then act inject_gp else m) s)
gp_or c true m s p h = ensures (inject_gp-core s ∙ p)
gp_or c false m s p h = h

pub onto : {c d : Bool × ℕ} {r : Outcome (Unit {0})} → c ≡ d → Stays c r → Stays d r
onto e (ensures p) = ensures (p ∙ e)
onto e faults = faults
onto e runs_out = runs_out

pub set_cr3-Stays : (cr3 : ℕ) (s : Machine) → Stays (core s) (set_cr3 cr3 s)
unfolding set_cr3
set_cr3-Stays cr3 s = follow (refuses_cr3-Reads cr3 s) λ refused t p.
    let t' : Machine = record t { vcpu = record t.vcpu { cr3 = cr3 } } in
    gp_or (core s) refused _ t (ap core p) (onto (ap core p) (mmu_new_cr3-Stays t'))

accept_cr4-core : (cr4 : ℕ) (s : Machine) → core (accept_cr4 cr4 s) ≡ core s
unfolding accept_cr4 load_cr4 vmcs_writel
accept_cr4-core cr4 s = elim (Bool-cases (has cr4 cr4_vmxe_mask)) [
  | inl e ↦ rw (e, accept_cr4) (inject_gp-core s)
  | inr e ↦ rw (e, accept_cr4) (reset-core (load_cr4 cr4 s))
]

pub set_cr4-Stays : (cr4 : ℕ) (s : Machine) → Stays (core s) (set_cr4 cr4 s)
unfolding set_cr4
set_cr4-Stays cr4 s = elim (Bool-cases (has cr4 cr4_reseved_bits)) [
  | inl a ↦ rw (a, set_cr4) (ensures (inject_gp-core s))
  | inr a ↦ elim (Bool-cases (is_long_mode s)) [
    | inl b ↦ elim (Bool-cases (has cr4 cr4_pae_mask)) [
      | inl c ↦ rw (a, b, c, set_cr4) (ensures (accept_cr4-core cr4 s))
      | inr c ↦ rw (a, b, c, set_cr4) (ensures (inject_gp-core s))
    ]
    | inr b ↦ elim (Bool-cases (is_paging s && not (is_pae s) && has cr4 cr4_pae_mask)) [
      | inr c ↦ rw (a, b, c, set_cr4) (ensures (accept_cr4-core cr4 s))
      | inl c ↦
          rw (a, b, c, set_cr4)
            (follow (pdptrs-Reads s.vcpu.cr3 s) λ reserved t p.
              follow (gp_or (core s) reserved skip t (ap core p) (ensures (ap core p)))
                λ _ u q. ensures (accept_cr4-core cr4 u ∙ q))
    ]
  ]
]

pub set_cr8-core : (cr8 : ℕ) (s : Machine) → core (set_cr8 cr8 s) ≡ core s
unfolding set_cr8
set_cr8-core cr8 s = elim (Bool-cases (has cr8 cr8_reseved_bits)) [
  | inl e ↦ rw (e, set_cr8) (inject_gp-core s)
  | inr e ↦ rw (e, set_cr8) refl
]

pub skip-core : (s : Machine) → core (skip_emulated_instruction s) ≡ core s
unfolding skip_emulated_instruction vmcs_write32 vmcs_writel
skip-core s =
    elim (Bool-cases (
      has
        (vmcs_read32 Field.guest_interruptibility_info (
          vmcs_writel Field.guest_rip
            (u64 (vmcs_readl Field.guest_rip s + vmcs_read32 Field.vm_exit_instruction_len s)) s))
        3)) [
          | inl e ↦ rw (e, skip_emulated_instruction) refl
          | inr e ↦ rw (e, skip_emulated_instruction) refl
        ]

pub set_efer-Stays : (efer : ℕ) (s : Machine) → Stays (core s) (set_efer efer s)
unfolding set_efer
set_efer-Stays efer s = elim (Bool-cases (has efer efer_reserved_bits)) [
  | inl a ↦ rw (a, set_efer) (ensures (inject_gp-core s))
  | inr a ↦
      elim (Bool-cases
        (is_paging s && bit_and s.vcpu.shadow_efer efer_lme != bit_and efer efer_lme)) [
          | inl b ↦ rw (a, b, set_efer) (ensures (inject_gp-core s))
          | inr b ↦
              let efer' : ℕ = shadowed_efer s.vcpu.shadow_efer efer in
              rw (a, b, set_efer)
                (follow
                  (set_guest_msr-Stays msr_efer
                    (if has efer' efer_lma then efer' else bit_and efer' (not64 efer_lme))
                    (record s { vcpu = record s.vcpu { shadow_efer = efer' } }))
                  λ _ t q. ensures (skip-core t ∙ q))
        ]
]
