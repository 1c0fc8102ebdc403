-- ===== src/Cpu/Msr.antt =====
-- Model-specific registers and long mode: `find_msr_entry`, `__set_efer`, `set_efer`,
-- `enter_lmode`, `exit_lmode` of src/2006-11-02/kvm-module/kvm_main.c.
use learn_kvm.Base.{
  ℕ, ◌+◌, ◌&&◌, Option, none, some, List, [], ◌∷◌, ◌==◌, ◌!=◌, if◌then◌else◌, bit_and, bit_or,
  not64, not32, u64,
}
use learn_kvm.State.{Machine, MsrEntry}
use learn_kvm.Run.{Cmd, ◌>>=◌, ◌>>◌, act, fault, deref}
use learn_kvm.Vmcs.{
  ◌▷◌, has, is_paging, vmcs_readl, vmcs_read32, vmcs_writel, vmcs_write32, on_vcpu,
}
use learn_kvm.Cpu.Rmode.{inject_gp}
use learn_kvm.Vmx.Field
use learn_kvm.Vmx.Masks.{
  efer_lma, efer_lme, efer_reserved_bits, msr_efer, vm_entry_controls_ia32e_mask, ar_type_mask,
  ar_type_busy_64_tss,
}

-- The entry that the pointer leads to, `none` for NULL.
unfoldable pub find_msr_entry : ℕ → List MsrEntry → Option MsrEntry
find_msr_entry msr [] = none
find_msr_entry msr (e ∷ es) = if e.index == msr then some e else find_msr_entry msr es

-- `find_msr_entry(vcpu, msr)->data = value`, `none` through NULL.
unfoldable pub store_msr : ℕ → ℕ → List MsrEntry → Option (List MsrEntry)
store_msr msr value [] = none
store_msr msr value (e ∷ es) =
    if e.index == msr
    then some (record e { value = value } ∷ es)
    else elim (store_msr msr value es) [ none ↦ none | some es' ↦ some (e ∷ es') ]

abbrev pub set_guest_msr : ℕ → ℕ → Cmd (Unit {0})
set_guest_msr msr value s = elim (store_msr msr value s.vcpu.guest_msrs) [
  | none ↦ fault
  | some msrs ↦ act (on_vcpu λ v. record v { guest_msrs = msrs }) s
]

abbrev pub set_shadow_efer : ℕ → Machine → Machine
set_shadow_efer efer = on_vcpu λ v. record v { shadow_efer = efer }

-- The IA-32e bit of the entry controls.
abbrev pub set_ia32e : Machine → Machine
set_ia32e s =
    vmcs_write32 Field.vm_entry_controls
      (bit_or (vmcs_read32 Field.vm_entry_controls s) vm_entry_controls_ia32e_mask) s

abbrev pub clear_ia32e : Machine → Machine
clear_ia32e s =
    vmcs_write32 Field.vm_entry_controls
      (bit_and (vmcs_read32 Field.vm_entry_controls s) (not32 vm_entry_controls_ia32e_mask)) s

-- `__set_efer`.
unfoldable pub load_efer : ℕ → Cmd (Unit {0})
load_efer efer =
    if has efer efer_lma
    then act (λ s. set_ia32e (set_shadow_efer efer s)) >> set_guest_msr msr_efer efer
    else act (λ s. clear_ia32e (set_shadow_efer efer s))
      >> set_guest_msr msr_efer (bit_and efer (not64 efer_lme))

unfoldable pub fix_tss : Machine → Machine
fix_tss s =
    let guest_tr_ar = vmcs_read32 Field.guest_tr_ar_bytes s in
    if bit_and guest_tr_ar ar_type_mask != ar_type_busy_64_tss
    then vmcs_write32 Field.guest_tr_ar_bytes
        (bit_or (bit_and guest_tr_ar (not32 ar_type_mask)) ar_type_busy_64_tss) s
    else s

unfoldable pub enter_lmode : Cmd (Unit {0})
enter_lmode s =
    (do
      act (λ s. set_shadow_efer (bit_or s.vcpu.shadow_efer efer_lma) (fix_tss s))
      e ← deref (find_msr_entry msr_efer s.vcpu.guest_msrs)
      set_guest_msr msr_efer (bit_or e.value (bit_or efer_lma efer_lme))
      act set_ia32e)
      s

unfoldable pub exit_lmode : Machine → Machine
exit_lmode s = set_shadow_efer (bit_and s.vcpu.shadow_efer (not64 efer_lma)) s ▷ clear_ia32e

-- `skip_emulated_instruction`: past the instruction, and interrupts are no longer held off by it.
unfoldable pub skip_emulated_instruction : Machine → Machine
skip_emulated_instruction s =
    let rip = u64 (vmcs_readl Field.guest_rip s + vmcs_read32 Field.vm_exit_instruction_len s) in
    let s' = vmcs_writel Field.guest_rip rip s in
    let interruptibility = vmcs_read32 Field.guest_interruptibility_info s' in
    if has interruptibility 3
    then vmcs_write32 Field.guest_interruptibility_info (bit_and interruptibility (not32 3)) s'
    else s'

-- The value that the guest's write leaves in `shadow_efer`: the guest cannot change LMA.
unfoldable pub shadowed_efer : ℕ → ℕ → ℕ
shadowed_efer old efer = bit_or (bit_and efer (not64 efer_lma)) (bit_and old efer_lma)

unfoldable pub set_efer : ℕ → Cmd (Unit {0})
set_efer efer s =
    if has efer efer_reserved_bits
    then act inject_gp s
    else if is_paging s && bit_and s.vcpu.shadow_efer efer_lme != bit_and efer efer_lme
    then act inject_gp s
    else (let efer' = shadowed_efer s.vcpu.shadow_efer efer in
        (act (set_shadow_efer efer')
            >> set_guest_msr msr_efer
                (if has efer' efer_lma then efer' else bit_and efer' (not64 efer_lme))
            >> act skip_emulated_instruction)
          s)
