-- ===== src/Examples/Debug.antt =====
-- Runs of the checks before an entry to the guest.
use learn_kvm.Base.{◌+◌, ◌-◌, ◌^◌, ◌≡◌, refl, true, false, ◌&&◌, ◌==◌, arith, if◌then◌else◌}
use learn_kvm.State.{Machine}
use learn_kvm.Run.Laws.{Returns}
use learn_kvm.Status.{success}
use learn_kvm.Vmcs.{vmcs_readl}
use learn_kvm.Slots.{gfn_to_memslot, find_slot, in_slot, gfn_to_page}
use learn_kvm.Cpu.Rmode.{enter_rmode, rmode_tss_base, sign_extend32}
use learn_kvm.Setup.Guest.{init_rmode_tss, init_tss_pages, _gfn_to_page, fill_tss}
use learn_kvm.Setup.Vcpu.{kvm_vcpu_setup}
use learn_kvm.Debug.Segment.{vir8086_seg_base_test, vir8086_seg_limit_test, vir8086_seg_ar_test}
use learn_kvm.Debug.Guest.{vm_entry_test_guest, vir8086_test}
use learn_kvm.Debug.Host.{vm_entry_test}
use learn_kvm.Debug.Refusal.{vm_entry_test-false}
use learn_kvm.Debug.RealMode.{is_paragraph, enter_rmode-vir8086_test}
use learn_kvm.Debug.Setup.{vcpu_setup-passes}
use learn_kvm.Vmx.Field
use learn_kvm.Examples.Machines.{machine, cpu}
use learn_kvm.Examples.Setup.{host}

vm_entry_test-false_example : vm_entry_test (λ _. 0) 40 machine ≡ false
vm_entry_test-false_example = vm_entry_test-false (λ _. 0) 40 machine

-- Protected mode with a flat code segment.
abbrev flat : Machine
flat = record machine { vmcs = λ f. if f == Field.guest_cs_limit then 2 ^ 32 - 1 else 0 }

enter_rmode-vir8086_test_example :
    (vir8086_test vir8086_seg_base_test (enter_rmode flat)
      && vir8086_test vir8086_seg_limit_test (enter_rmode flat)
      && vir8086_test vir8086_seg_ar_test (enter_rmode flat))
    ≡ (vir8086_test (λ seg t. is_paragraph (vmcs_readl seg.base t)) flat
        && vmcs_readl Field.guest_cs_limit flat == 0xffff)
enter_rmode-vir8086_test_example = enter_rmode-vir8086_test flat

abbrev fresh : Machine
fresh = record machine { vcpu = record cpu { rmode = record cpu.rmode { active = false } } }

vcpu_setup-passes_example :
    Returns (λ r u. (r ≡ success) × (vm_entry_test_guest u ≡ true)) (kvm_vcpu_setup host fresh)
unfolding init_rmode_tss init_tss_pages _gfn_to_page gfn_to_memslot find_slot in_slot gfn_to_page
    rmode_tss_base sign_extend32
vcpu_setup-passes_example =
    vcpu_setup-passes host fresh (fill_tss 45 46 47 fresh) 0x7000 0x8000 0 refl refl refl refl
      (λ i h. (100 + i, refl, omega arith)) refl refl
