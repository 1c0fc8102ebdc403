-- ===== src/Examples/Cpu.antt =====
-- Runs of the control registers' operations.
use learn_kvm.Base.{u32, false, refl, arith, ◌≡◌}
use learn_kvm.State.{Machine}
use learn_kvm.Run.Laws.{Returns}
use learn_kvm.Vmcs.{vmcs_readl, guest_cr0, is_paging}
use learn_kvm.Cpu.Cr.{set_cr0, is_bad_cr0, refuses_paging, lmsw, set_cr8}
use learn_kvm.Cpu.Msr.{find_msr_entry}
use learn_kvm.Cpu.Cr.Load.{InMode, set_cr0-InMode}
use learn_kvm.Cpu.Mode.{IsConsistent, step, stop, by_lmsw, by_cr8, Steps-IsConsistent}
use learn_kvm.Vmx.Field
use learn_kvm.Vmx.Masks.{gp_vector}
use learn_kvm.Vmcs.{is_long_mode, is_pae, guest_cr4}
use learn_kvm.Slots.{gfn_to_memslot, find_slot, in_slot, gfn_to_page}
use learn_kvm.Mmu.Pages.{read64}
use learn_kvm.Paging.Entry.{exception_info}
use learn_kvm.Cpu.Msr.{set_efer}
use learn_kvm.Cpu.Efer.{KeepsLongMode, set_efer-KeepsLongMode}
use learn_kvm.Cpu.Cr.{set_cr4, pdptrs_have_reserved_bits_set, any_reserved, has_reserved_bits}
use learn_kvm.Cpu.Cr.Refused.{set_cr4_refused_and_loaded}
use learn_kvm.Vmcs.{vmcs_read32}
use learn_kvm.Cpu.Rmode.{enter_pmode, enter_rmode}
use learn_kvm.Cpu.Rmode.Restore.{enter_pmode-enter_rmode}
use learn_kvm.Examples.Machines.{machine, efer_entry}

set_cr0-InMode_example : Returns (λ _ t. InMode 1 t × (guest_cr0 t ≡ 1)) (set_cr0 1 machine)
unfolding is_bad_cr0 refuses_paging is_paging guest_cr0 vmcs_readl find_msr_entry
set_cr0-InMode_example = set_cr0-InMode 1 machine efer_entry (omega arith) refl refl refl

Steps-IsConsistent_example : IsConsistent (set_cr8 3 (lmsw 1 machine))
unfolding guest_cr0 vmcs_readl
Steps-IsConsistent_example =
    Steps-IsConsistent machine (set_cr8 3 (lmsw 1 machine))
      (step (by_lmsw 1) (step (by_cr8 3) stop)) refl

enter_pmode-enter_rmode_example :
    let t = enter_pmode (enter_rmode machine) in
    (t.vmcs Field.guest_tr_base ≡ 0)
    × (vmcs_read32 Field.guest_tr_limit t ≡ vmcs_read32 Field.guest_tr_limit machine)
    × (vmcs_read32 Field.guest_tr_ar_bytes t ≡ vmcs_read32 Field.guest_tr_ar_bytes machine)
    × (t.vmcs Field.guest_rflags ≡ 0)
    × (t.vcpu.rmode.active ≡ false)
enter_pmode-enter_rmode_example = enter_pmode-enter_rmode machine (omega arith) refl

-- A guest that pages without PAE, over memory in which every pointer has a reserved bit set.
abbrev paging_machine : Machine
paging_machine = record machine { vmcs = λ f. 0x80000001; mem = λ w. 3 }

set_efer-KeepsLongMode_example :
    Returns (λ _ t. KeepsLongMode 0 t.vcpu.shadow_efer) (set_efer 0x500 paging_machine)
unfolding is_paging guest_cr0 vmcs_readl find_msr_entry
set_efer-KeepsLongMode_example = set_efer-KeepsLongMode 0x500 paging_machine efer_entry refl refl

set_cr4_refused_and_loaded_example :
    Returns
      (λ _ t.
        (t.vmcs Field.vm_entry_intr_info_field ≡ u32 (exception_info gp_vector))
        × (t.vmcs Field.cr4_read_shadow ≡ 0x20))
      (set_cr4 0x20 paging_machine)
unfolding is_paging guest_cr0 vmcs_readl vmcs_read32 is_long_mode is_pae guest_cr4
    pdptrs_have_reserved_bits_set gfn_to_memslot find_slot in_slot gfn_to_page any_reserved
    has_reserved_bits read64
set_cr4_refused_and_loaded_example =
    set_cr4_refused_and_loaded 0x20 paging_machine refl refl refl refl refl refl refl
