-- ===== src/Setup/Controls.antt =====
-- The controls and the host's part of a new VMCS, and the lists of registers that are switched: the
-- rest of `kvm_vcpu_setup` of src/2006-11-02/kvm-module/kvm_main.c.
use learn_kvm.Base.{
  ℕ, zero, suc, ◌+◌, ◌-◌, ◌*◌, ◌^◌, none, some, List, [], ◌∷◌, ◌++◌, length, bit_or, u64,
}
use learn_kvm.State.{Machine, MsrEntry}
use learn_kvm.Vmcs.{◌▷◌, vmcs_writel, vmcs_write16, vmcs_write32, on_vcpu}
use learn_kvm.Setup.Host.{Host, vmcs_write32_fixedbits}
use learn_kvm.Vmx.Field
use learn_kvm.Vmx.Masks.{
  msr_syscall_mask, msr_lstar, msr_cstar, msr_kernel_gs_base, msr_efer, msr_k6_star, pf_vector,
  kvm_guest_cr0_mask, kvm_guest_cr4_mask, cpu_based_use_tsc_offseting, cpu_based_hlt_exiting,
  cpu_based_invdpg_exiting, cpu_based_cr8_load_exiting, cpu_based_cr8_store_exiting,
  cpu_based_mov_dr_exiting, cpu_based_uncond_io_exiting, pin_based_ext_intr_mask,
  pin_based_nmi_exiting, msr_ia32_vmx_pinbased_ctls_msr, msr_ia32_vmx_procbased_ctls_msr,
  msr_ia32_vmx_exit_ctls_msr, msr_ia32_vmx_entry_ctls_msr,
}

-- What makes the guest exit.
unfoldable pub exit_conditions : ℕ
exit_conditions =
    bit_or
      (bit_or
        (bit_or
          (bit_or
            (bit_or (bit_or cpu_based_hlt_exiting cpu_based_cr8_load_exiting)
              cpu_based_cr8_store_exiting)
            cpu_based_uncond_io_exiting)
          cpu_based_invdpg_exiting)
        cpu_based_mov_dr_exiting)
      cpu_based_use_tsc_offseting

unfoldable pub setup_execution : Host → Machine → Machine
setup_execution host s =
    s
    ▷ vmcs_write32_fixedbits host msr_ia32_vmx_pinbased_ctls_msr Field.pin_based_vm_exec_control
        (bit_or pin_based_ext_intr_mask pin_based_nmi_exiting)
    ▷ vmcs_write32_fixedbits host msr_ia32_vmx_procbased_ctls_msr Field.cpu_based_vm_exec_control
        exit_conditions
    ▷ vmcs_write32 Field.exception_bitmap (2 ^ pf_vector)
    ▷ vmcs_write32 Field.page_fault_error_code_mask 0
    ▷ vmcs_write32 Field.page_fault_error_code_match 0
    ▷ vmcs_write32 Field.cr3_target_count 0

unfoldable pub setup_host_state : Host → Machine → Machine
setup_host_state host s =
    s
    ▷ vmcs_writel Field.host_cr0 host.cr0
    ▷ vmcs_writel Field.host_cr4 host.cr4
    ▷ vmcs_writel Field.host_cr3 host.cr3
    ▷ vmcs_write16 Field.host_cs_selector host.kernel_cs
    ▷ vmcs_write16 Field.host_ds_selector host.kernel_ds
    ▷ vmcs_write16 Field.host_es_selector host.kernel_ds
    ▷ vmcs_write16 Field.host_fs_selector host.fs
    ▷ vmcs_write16 Field.host_gs_selector host.gs
    ▷ vmcs_write16 Field.host_ss_selector host.kernel_ds
    ▷ vmcs_writel Field.host_fs_base host.fs_base
    ▷ vmcs_writel Field.host_gs_base host.gs_base
    ▷ vmcs_write16 Field.host_tr_selector host.tss_selector
    ▷ vmcs_writel Field.host_idtr_base host.idt_base
    ▷ vmcs_writel Field.host_rip host.vmx_return
    ▷ vmcs_write32 Field.host_ia32_sysenter_cs host.sysenter_cs
    ▷ vmcs_writel Field.host_ia32_sysenter_esp host.sysenter_esp
    ▷ vmcs_writel Field.host_ia32_sysenter_eip host.sysenter_eip

abbrev pub vmx_msr_index : List ℕ
vmx_msr_index =
    msr_syscall_mask ∷ msr_lstar ∷ msr_cstar ∷ msr_kernel_gs_base ∷ msr_efer ∷ msr_k6_star ∷ []

abbrev pub nr_bad_msrs : ℕ
nr_bad_msrs = 2

-- The registers of `indices` that the host has, in order.
unfoldable pub good_msrs : Host → List ℕ → List MsrEntry
good_msrs host [] = []
good_msrs host (index ∷ indices) =
    let rest = good_msrs host indices in
    elim (host.rdmsr index) [
      | none ↦ rest
      | some value ↦ record { index = index; value = value } ∷ rest
    ]

-- The first `n` places of an array that has not been written.
unfoldable pub unwritten : Host → ℕ → List MsrEntry
unwritten host zero = []
unwritten host (suc n) = unwritten host n ++ host.fresh n ∷ []

-- The new array; its entries are put behind those that `nmsrs` counts already, which is the length
-- of the list here.
unfoldable pub setup_msrs : Host → Machine → Machine
setup_msrs host = on_vcpu λ v. record v {
  guest_msrs = unwritten host (length v.guest_msrs) ++ good_msrs host vmx_msr_index;
}

-- The lists at `guest` and `host`, which leave the first two entries out; an entry has 16 bytes.
unfoldable pub setup_switches : Host → ℕ → ℕ → Machine → Machine
setup_switches host guest own s =
    let nr_good_msrs = u64 (length s.vcpu.guest_msrs + (2 ^ 64 - nr_bad_msrs)) in
    s
    ▷ vmcs_writel Field.vm_entry_msr_load_addr (guest + 16 * nr_bad_msrs)
    ▷ vmcs_writel Field.vm_exit_msr_store_addr (guest + 16 * nr_bad_msrs)
    ▷ vmcs_writel Field.vm_exit_msr_load_addr (own + 16 * nr_bad_msrs)
    ▷ vmcs_write32_fixedbits host msr_ia32_vmx_exit_ctls_msr Field.vm_exit_controls (2 ^ 9)
    ▷ vmcs_write32 Field.vm_exit_msr_store_count nr_good_msrs
    ▷ vmcs_write32 Field.vm_exit_msr_load_count nr_good_msrs
    ▷ vmcs_write32 Field.vm_entry_msr_load_count nr_good_msrs
    ▷ vmcs_write32_fixedbits host msr_ia32_vmx_entry_ctls_msr Field.vm_entry_controls 0
    ▷ vmcs_write32 Field.vm_entry_intr_info_field 0
    ▷ vmcs_writel Field.virtual_apic_page_addr 0
    ▷ vmcs_writel Field.tpr_threshold 0
    ▷ vmcs_writel Field.cr0_guest_host_mask kvm_guest_cr0_mask
    ▷ vmcs_writel Field.cr4_guest_host_mask kvm_guest_cr4_mask
