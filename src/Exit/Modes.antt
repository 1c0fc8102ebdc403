-- ===== src/Exit/Modes.antt =====
-- The processor's mode through the exits that write control registers and model-specific registers:
-- `handle_cr` and `handle_wrmsr` of src/2006-11-02/kvm-module/kvm_main.c.
use learn_kvm.Base.{
  ℕ, ◌≡◌, refl, sym, ◌∙◌, subst, inl, inr, ◌||◌, Option, none, some, Option-cases, ◌==◌, Bool-cases,
  bit_and, shr, u32,
}
use learn_kvm.State.{Machine, MsrEntry}
use learn_kvm.Run.{Cmd, Outcome}
use learn_kvm.Run.Laws.{Ensures, ensures, faults, runs_out, follow}
use learn_kvm.Vmcs.{vmcs_readl, vmcs_writel, vmcs_write32, vmcs_write64}
use learn_kvm.Cpu.Msr.{find_msr_entry, skip_emulated_instruction}
use learn_kvm.Cpu.Cr.{set_cr8, lmsw}
use learn_kvm.Cpu.Cr.Stays.{
  core, Stays, skip-core, set_cr3-Stays, set_cr4-Stays, set_cr8-core, set_efer-Stays,
  set_guest_msr-Stays, inject_gp-core,
}
use learn_kvm.Cpu.Mode.{Agrees, agree, set_cr0-Agrees, lmsw-Agrees}
use learn_kvm.Ioctl.Load.{vcpu_load_rsp_rip, vcpu_put_rsp_rip}
use learn_kvm.Exit.Report.{KvmRun}
use learn_kvm.Exit.Control.{
  mov_to_cr, mov_from_cr, unhandled_cr, do_mov_to_cr, do_mov_from_cr, handle_mov_to_cr, handle_cr,
}
use learn_kvm.Exit.Msr.{
  edx_eax, is_mtrr, msr_ia32_time_stamp_counter, store_special, write_entry, write_msr,
  handle_wrmsr,
}
use learn_kvm.Vmx.Field
use learn_kvm.Vmx.Masks.{
  lmsw_source_data_shift, vcpu_regs_rcx, msr_efer, msr_fs_base, msr_gs_base, msr_ia32_sysenter_cs,
  msr_ia32_sysenter_eip, msr_ia32_sysenter_esp, msr_ia32_mc0_status, msr_ia32_ucode_rev,
  msr_ia32_ucode_write, msr_ia32_apicbase,
}

-- A command that leaves a mode in which real mode and PE agree.
abbrev pub Good : {A : Type 0} → Outcome A → Type 0
Good = Ensures λ _ t. Agrees (core t)

stay : {A : Type 0} (s : Machine) (r : Outcome A) → Agrees (core s) → Stays (core s) r → Good r
stay s r a (ensures {s = t} p) = ensures (agree s t p a)
stay s r a faults = faults
stay s r a runs_out = runs_out

-- Every write of a control register that has a case.
mov_to_cr-Good :
    (cr value : ℕ) (s : Machine) (write : Cmd (Unit {0}))
    → Agrees (core s)
    → mov_to_cr cr value ≡ some write
    → Good (write s)
unfolding mov_to_cr
mov_to_cr-Good cr value s write a e = elim (Bool-cases (cr == 0)) [
  | inl p ↦ rw (sym (of_some (rw p at e))) (set_cr0-Agrees value s a)
  | inr p ↦ elim (Bool-cases (cr == 3)) [
    | inl q ↦ rw (sym (of_some (rw (p, q) at e))) (stay s _ a (set_cr3-Stays value s))
    | inr q ↦ elim (Bool-cases (cr == 4)) [
      | inl r ↦ rw (sym (of_some (rw (p, q, r) at e))) (stay s _ a (set_cr4-Stays value s))
      | inr r ↦ elim (Bool-cases (cr == 8)) [
        | inl t ↦
            rw (sym (of_some (rw (p, q, r, t) at e)))
              (ensures (agree s (set_cr8 value s) (set_cr8-core value s) a))
        | inr t ↦ absurd (let bad = rw (p, q, r, t) at e in cc)
      ]
    ]
  ]
]
  where
    of_some : {A : Type 0} {x y : A} → some x ≡ some y → x ≡ y
    of_some e = cc

pub skip-Agrees : (s : Machine) → Agrees (core s) → Agrees (core (skip_emulated_instruction s))
skip-Agrees s a = agree s (skip_emulated_instruction s) (skip-core s) a

to-Good :
    (cr value : ℕ) (run : KvmRun) (s : Machine)
    → Agrees (core s)
    → Good (do_mov_to_cr (mov_to_cr cr value) run s)
unfolding do_mov_to_cr unhandled_cr
to-Good cr value run s a = elim (Option-cases (mov_to_cr cr value)) [
  | inl e ↦ rw e (ensures a)
  | inr (write, e) ↦
      rw e (follow (mov_to_cr-Good cr value s write a e) λ _ t p. ensures (skip-Agrees t p))
]

handle_mov_to_cr-Good :
    (cr reg : ℕ) (run : KvmRun) (s : Machine)
    → Agrees (core s)
    → Good (handle_mov_to_cr cr reg run s)
unfolding handle_mov_to_cr unhandled_cr vcpu_load_rsp_rip
handle_mov_to_cr-Good cr reg run s a = elim (Option-cases (mov_to_cr cr 0)) [
  | inl e ↦ rw (e, handle_mov_to_cr) (ensures a)
  | inr (write, e) ↦ rw (e, handle_mov_to_cr) (to-Good cr _ run (vcpu_load_rsp_rip s) a)
]

from-Good :
    (reg : ℕ) (value : Option ℕ) (run : KvmRun) (s : Machine)
    → Agrees (core s)
    → Good (do_mov_from_cr reg value run s)
unfolding do_mov_from_cr unhandled_cr vcpu_load_rsp_rip vcpu_put_rsp_rip vmcs_writel
from-Good reg none run s a = ensures a
from-Good reg (some value) run s a = ensures (skip-Agrees _ a)

pub handle_cr-Good : (run : KvmRun) (s : Machine) → Agrees (core s) → Good (handle_cr run s)
unfolding handle_cr unhandled_cr
handle_cr-Good run s a =
    let q : ℕ = vmcs_readl Field.exit_qualification s in
    let op : ℕ = bit_and (shr q 4) 3 in
    let msw : ℕ = bit_and (shr q lmsw_source_data_shift) 0x0f in
    elim (Bool-cases (op == 0)) [
      | inl e ↦
          rw (e, handle_cr) (handle_mov_to_cr-Good (bit_and q 15) (bit_and (shr q 8) 15) run s a)
      | inr e ↦ elim (Bool-cases (op == 1)) [
        | inl f ↦
            rw (e, f, handle_cr)
              (from-Good (bit_and (shr q 8) 15) (mov_from_cr (bit_and q 15) s) run s a)
        | inr f ↦ elim (Bool-cases (op == 3)) [
          | inl g ↦
              rw (e, f, g, handle_cr) (ensures (skip-Agrees (lmsw msw s) (lmsw-Agrees msw s a)))
          | inr g ↦ rw (e, f, g, handle_cr) (ensures a)
        ]
      ]
    ]

-- A machine, if there is one, in the mode of `s`.
abbrev Alike : Machine → Option Machine → Type 0
Alike s none = Unit {0}
Alike s (some t) = core t ≡ core s

-- What WRMSR stores outside `guest_msrs` is no part of the mode.
special-Alike : (tsc ecx value : ℕ) (s : Machine) → Alike s (store_special tsc ecx value s)
unfolding store_special vmcs_writel vmcs_write32 vmcs_write64
special-Alike tsc ecx value s = elim (Bool-cases (ecx == msr_fs_base)) [
  | inl a ↦ rw (a, store_special) refl
  | inr a ↦ elim (Bool-cases (ecx == msr_gs_base)) [
    | inl b ↦ rw (a, b, store_special) refl
    | inr b ↦ elim (Bool-cases (ecx == msr_ia32_sysenter_cs)) [
      | inl c ↦ rw (a, b, c, store_special) refl
      | inr c ↦ elim (Bool-cases (ecx == msr_ia32_sysenter_eip)) [
        | inl d ↦ rw (a, b, c, d, store_special) refl
        | inr d ↦ elim (Bool-cases (ecx == msr_ia32_sysenter_esp)) [
          | inl e ↦ rw (a, b, c, d, e, store_special) refl
          | inr e ↦ elim (Bool-cases (ecx == msr_ia32_mc0_status)) [
            | inl f ↦ rw (a, b, c, d, e, f, store_special) refl
            | inr f ↦ elim (Bool-cases (ecx == msr_ia32_time_stamp_counter)) [
              | inl g ↦ rw (a, b, c, d, e, f, g, store_special) refl
              | inr g ↦
                  elim (Bool-cases
                    (ecx == msr_ia32_ucode_rev || ecx == msr_ia32_ucode_write || is_mtrr ecx)) [
                      | inl h ↦ rw (a, b, c, d, e, f, g, h, store_special) refl
                      | inr h ↦ elim (Bool-cases (ecx == msr_ia32_apicbase)) [
                        | inl k ↦ rw (a, b, c, d, e, f, g, h, k, store_special) refl
                        | inr k ↦ rw (a, b, c, d, e, f, g, h, k, store_special) tt
                      ]
                    ]
            ]
          ]
        ]
      ]
    ]
  ]
]

entry-Stays :
    (e : Option MsrEntry) (ecx value : ℕ) (s : Machine) → Stays (core s) (write_entry e ecx value s)
unfolding write_entry
entry-Stays none ecx value s = ensures (inject_gp-core s)
entry-Stays (some e) ecx value s =
    follow (set_guest_msr-Stays ecx value s) λ _ t p. ensures (skip-core t ∙ p)

write_msr-Stays : (tsc ecx value : ℕ) (s : Machine) → Stays (core s) (write_msr tsc ecx value s)
unfolding write_msr
write_msr-Stays tsc ecx value s = elim (Bool-cases (ecx == msr_efer)) [
  | inl e ↦ rw (e, write_msr) (set_efer-Stays value s)
  | inr e ↦ elim (Option-cases (store_special tsc ecx value s)) [
    | inl p ↦ rw (e, p, write_msr) (entry-Stays (find_msr_entry ecx s.vcpu.guest_msrs) ecx value s)
    | inr (t, p) ↦
        rw (e, p, write_msr)
          (ensures (
            skip-core t
            ∙ subst (λ (o : Option Machine). Alike s o) p (special-Alike tsc ecx value s)))
  ]
]

pub handle_wrmsr-Good :
    (tsc : ℕ) (run : KvmRun) (s : Machine) → Agrees (core s) → Good (handle_wrmsr tsc run s)
unfolding handle_wrmsr
handle_wrmsr-Good tsc run s a =
    follow (stay s _ a (write_msr-Stays tsc (u32 (s.vcpu.regs vcpu_regs_rcx)) (edx_eax s) s))
      λ _ t p. ensures p
