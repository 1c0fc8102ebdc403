-- ===== src/Debug/Host.antt =====
-- `vm_entry_test_host` and `vm_entry_test` of src/2006-11-02/kvm-module/debug.c, on a 64-bit host. `rdmsrl`
-- and what `cpuid` gives in EAX for 0x80000008 are parameters.
use learn_kvm.Base.{
  ℕ, ◌+◌, ◌-◌, ◌^◌, Bool, true, false, not, ◌&&◌, ◌||◌, ◌==◌, ltb, List, [], ◌∷◌, bit_and, not64,
  shr, if◌then◌else◌,
}
use learn_kvm.State.{Machine}
use learn_kvm.Vmcs.{has, vmcs_readl, vmcs_read16, vmcs_read32}
use learn_kvm.Debug.Guest.{vm_entry_test_guest}
use learn_kvm.Vmx.Field
use learn_kvm.Vmx.Masks.{
  cr4_pae_mask, vm_exit_host_add_space_size, msr_ia32_vmx_cr0_fixed0, msr_ia32_vmx_cr0_fixed1,
  msr_ia32_vmx_cr4_fixed0, msr_ia32_vmx_cr4_fixed1,
}

-- `(long)reg >> 48` extends the sign.
unfoldable pub check_canonical : ℕ → Bool
check_canonical reg =
    let x : ℕ = if ltb reg (2 ^ 63) then shr reg 48 else shr reg 48 + (2 ^ 64 - 2 ^ 16) in
    x == 0 || x == 2 ^ 64 - 1

unfoldable pub check_selector : Bool → Bool → ℕ → Bool
check_selector rpl_ti null sel = not (rpl_ti && has sel 7) && not (null && sel == 0)

unfoldable pub phys_addr_width : ℕ → ℕ
phys_addr_width eax = bit_and eax 0xff

-- `r` after the checks.
unfoldable pub run_checks : Bool → List Bool → Bool
run_checks r [] = r
run_checks r (check ∷ checks) = run_checks (r && check) checks

module _ (rdmsrl : ℕ → ℕ) (cpuid_eax : ℕ) where
  unfoldable pub check_fixed_bits : ℕ → ℕ → ℕ → Bool
  check_fixed_bits cr msr_fixed_0 msr_fixed_1 =
      let fixed_bits_0 : ℕ = rdmsrl msr_fixed_0 in
      let fixed_bits_1 : ℕ = rdmsrl msr_fixed_1 in
      bit_and cr fixed_bits_0 == fixed_bits_0
      && bit_and (not64 cr) (not64 fixed_bits_1) == not64 fixed_bits_1

  -- The checks in their order. Each is an `r &= ...`, or an `if` that sets `r` to 0.
  unfoldable pub host_checks : Machine → List Bool
  host_checks s =
      let cr0 : ℕ = vmcs_readl Field.host_cr0 s in
      let cr4 : ℕ = vmcs_readl Field.host_cr4 s in
      let cr3 : ℕ = vmcs_readl Field.host_cr3 s in
      let host_64 = has (vmcs_read32 Field.vm_exit_controls s) vm_exit_host_add_space_size in
      check_fixed_bits cr0 msr_ia32_vmx_cr0_fixed0 msr_ia32_vmx_cr0_fixed1
      ∷ check_fixed_bits cr4 msr_ia32_vmx_cr4_fixed0 msr_ia32_vmx_cr4_fixed1
      ∷ (shr cr3 (phys_addr_width cpuid_eax) == 0)
      ∷ check_canonical (vmcs_readl Field.host_ia32_sysenter_eip s)
      ∷ check_canonical (vmcs_readl Field.host_ia32_sysenter_esp s)
      ∷ check_selector true true (vmcs_read16 Field.host_cs_selector s)
      ∷ check_selector true (not host_64) (vmcs_read16 Field.host_ss_selector s)
      ∷ check_selector true false (vmcs_read16 Field.host_ds_selector s)
      ∷ check_selector true false (vmcs_read16 Field.host_es_selector s)
      ∷ check_selector true false (vmcs_read16 Field.host_fs_selector s)
      ∷ check_selector true false (vmcs_read16 Field.host_gs_selector s)
      ∷ check_selector true true (vmcs_read16 Field.host_tr_selector s)
      ∷ check_canonical (vmcs_readl Field.host_fs_base s)
      ∷ check_canonical (vmcs_readl Field.host_gs_base s)
      ∷ check_canonical (vmcs_readl Field.host_gdtr_base s)
      ∷ check_canonical (vmcs_readl Field.host_idtr_base s)
      ∷ host_64
      ∷ has cr4 cr4_pae_mask
      ∷ check_canonical (vmcs_readl Field.host_rip s)
      ∷ []

  -- `r` starts as 0.
  unfoldable pub vm_entry_test_host : Machine → Bool
  vm_entry_test_host s = run_checks false (host_checks s)

  unfoldable pub vm_entry_test : Machine → Bool
  vm_entry_test s = vm_entry_test_guest s && vm_entry_test_host s
