-- ===== src/Exit/Msr.antt =====
-- `handle_rdmsr` and `handle_wrmsr` of src/2006-11-02/kvm-module/kvm_main.c. The host's time stamp
-- counter, which `rdtscll` reads, is the parameter `tsc`.
use learn_kvm.Base.{
  ℕ, ◌+◌, ◌-◌, ◌^◌, Bool, true, ◌&&◌, ◌||◌, leb, ◌==◌, if◌then◌else◌, bit_or, u32, u64, shl64, shr,
  Option, none, some,
}
use learn_kvm.State.{Machine, MsrEntry}
use learn_kvm.Run.{Cmd, ◌>>◌, pure, act}
use learn_kvm.Vmcs.{◌▷◌, vmcs_readl, vmcs_read32, vmcs_writel, vmcs_write32, vmcs_write64, on_vcpu}
use learn_kvm.Cpu.Rmode.{inject_gp}
use learn_kvm.Cpu.Msr.{find_msr_entry, set_guest_msr, set_efer, skip_emulated_instruction}
use learn_kvm.Ioctl.Regs.{set_reg}
use learn_kvm.Exit.Report.{Handler}
use learn_kvm.Vmx.Field
use learn_kvm.Vmx.Masks.{
  msr_efer, msr_fs_base, msr_gs_base, msr_ia32_sysenter_cs, msr_ia32_sysenter_eip,
  msr_ia32_sysenter_esp, msr_ia32_mc0_ctl, msr_ia32_mc0_status, msr_ia32_mc0_misc,
  msr_ia32_mcg_status, msr_ia32_mcg_cap, msr_ia32_ucode_rev, msr_ia32_ucode_write,
  msr_ia32_apicbase, vcpu_regs_rax, vcpu_regs_rcx, vcpu_regs_rdx,
}

abbrev pub msr_ia32_time_stamp_counter : ℕ
msr_ia32_time_stamp_counter = 0x10

unfoldable pub is_mtrr : ℕ → Bool
is_mtrr ecx = leb 0x200 ecx && leb ecx 0x2ff

-- The registers that read as 0.
unfoldable pub reads_zero : ℕ → Bool
reads_zero ecx =
    ecx == msr_ia32_mc0_ctl
    || ecx == msr_ia32_mcg_status
    || ecx == msr_ia32_mcg_cap
    || ecx == msr_ia32_mc0_misc
    || ecx == msr_ia32_mc0_misc + 4
    || ecx == msr_ia32_mc0_misc + 8
    || ecx == msr_ia32_mc0_misc + 12
    || ecx == msr_ia32_mc0_misc + 16
    || ecx == msr_ia32_ucode_rev
    || ecx == 0xfe
    || is_mtrr ecx

-- What a register holds, `none` if it is not handled.
unfoldable pub rdmsr_data : ℕ → Machine → Option ℕ
rdmsr_data ecx s =
    if ecx == msr_fs_base
    then some (vmcs_readl Field.guest_fs_base s)
    else if ecx == msr_gs_base
    then some (vmcs_readl Field.guest_gs_base s)
    else if ecx == msr_ia32_sysenter_cs
    then some (vmcs_read32 Field.guest_sysenter_cs s)
    else if ecx == msr_ia32_sysenter_eip
    then some (vmcs_read32 Field.guest_sysenter_eip s)
    else if ecx == msr_ia32_sysenter_esp
    then some (vmcs_read32 Field.guest_sysenter_esp s)
    else if reads_zero ecx
    then some 0
    else if ecx == msr_ia32_apicbase
    then some s.vcpu.apic_base
    else elim (find_msr_entry ecx s.vcpu.guest_msrs) [ none ↦ none | some e ↦ some e.value ]

-- The value in EDX:EAX, and the two registers that it is put in.
unfoldable pub edx_eax : Machine → ℕ
edx_eax s = bit_or (u32 (s.vcpu.regs vcpu_regs_rax)) (shl64 (u32 (s.vcpu.regs vcpu_regs_rdx)) 32)

unfoldable pub set_edx_eax : ℕ → Machine → Machine
set_edx_eax value s =
    s ▷ set_reg vcpu_regs_rax (u32 value) ▷ set_reg vcpu_regs_rdx (u32 (shr value 32))

unfoldable pub finish_rdmsr : Option ℕ → Machine → Machine
finish_rdmsr none s = inject_gp s
finish_rdmsr (some value) s = skip_emulated_instruction (set_edx_eax value s)

unfoldable pub handle_rdmsr : Handler
handle_rdmsr run s =
    pure (true, run) (finish_rdmsr (rdmsr_data (u32 (s.vcpu.regs vcpu_regs_rcx)) s) s)

-- A register that has an entry.
unfoldable pub write_entry : Option MsrEntry → ℕ → ℕ → Cmd (Unit {0})
write_entry none ecx value = act inject_gp
write_entry (some e) ecx value = do set_guest_msr ecx value; act skip_emulated_instruction

-- What is stored for a register that is not in `guest_msrs`; `none` if it is not one of these.
unfoldable pub store_special : ℕ → ℕ → ℕ → Machine → Option Machine
store_special tsc ecx value s =
    if ecx == msr_fs_base
    then some (vmcs_writel Field.guest_fs_base value s)
    else if ecx == msr_gs_base
    then some (vmcs_writel Field.guest_gs_base value s)
    else if ecx == msr_ia32_sysenter_cs
    then some (vmcs_write32 Field.guest_sysenter_cs value s)
    else if ecx == msr_ia32_sysenter_eip
    then some (vmcs_write32 Field.guest_sysenter_eip value s)
    else if ecx == msr_ia32_sysenter_esp
    then some (vmcs_write32 Field.guest_sysenter_esp value s)
    else if ecx == msr_ia32_mc0_status
    then some s
    else if ecx == msr_ia32_time_stamp_counter
    then some (vmcs_write64 Field.tsc_offset (u64 (value + (2 ^ 64 - tsc))) s)
    else if ecx == msr_ia32_ucode_rev || ecx == msr_ia32_ucode_write || is_mtrr ecx
    then some s
    else if ecx == msr_ia32_apicbase
    then some (on_vcpu (λ v. record v { apic_base = value }) s)
    else none

unfoldable pub write_msr : ℕ → ℕ → ℕ → Cmd (Unit {0})
write_msr tsc ecx value s =
    if ecx == msr_efer then set_efer value s else elim (store_special tsc ecx value s) [
      | some s' ↦ act skip_emulated_instruction s'
      | none ↦ write_entry (find_msr_entry ecx s.vcpu.guest_msrs) ecx value s
    ]

unfoldable pub handle_wrmsr : ℕ → Handler
handle_wrmsr tsc run s =
    (do write_msr tsc (u32 (s.vcpu.regs vcpu_regs_rcx)) (edx_eax s); pure (true, run)) s
