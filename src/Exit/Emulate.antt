-- ===== src/Exit/Emulate.antt =====
-- `emulate_instruction` of src/2006-11-02/kvm-module/kvm_main.c. The emulator itself,
-- `x86_emulate_memop`, is the parameter `memop`: whether it succeeds, and the flags it leaves.
use learn_kvm.Base.{ℕ, Bool, false, not, ◌||◌, if◌then◌else◌}
use learn_kvm.State.{Machine, Mmio}
use learn_kvm.Run.{Cmd, ◌>>=◌, ◌>>◌, pure, act}
use learn_kvm.Vmcs.{has, vmcs_readl, vmcs_read32, vmcs_writel}
use learn_kvm.Ioctl.Load.{vcpu_load_rsp_rip, vcpu_put_rsp_rip}
use learn_kvm.GuestMemory.Emulator.{on_mmio}
use learn_kvm.Exit.Report.{KvmRun}
use learn_kvm.Vmx.Field
use learn_kvm.Vmx.Masks.{x86_eflags_vm, ar_l_mask, ar_db_mask}

-- X86EMUL_MODE_*.
pub data EmulMode : Type 0 where
  real prot16 prot32 prot64 : EmulMode

-- struct x86_emulate_ctxt, less the vcpu.
pub record EmulateCtxt : Type 0 where
  pub eflags : ℕ
  pub cr2 : ℕ
  pub mode : EmulMode
  pub cs_base : ℕ
  pub ds_base : ℕ
  pub es_base : ℕ
  pub ss_base : ℕ
  pub gs_base : ℕ
  pub fs_base : ℕ

-- enum emulation_result.
pub data EmulationResult : Type 0 where
  emulate_done emulate_do_mmio emulate_fail : EmulationResult

abbrev pub Memop : Type 0
Memop = EmulateCtxt → Cmd (Bool × ℕ)

unfoldable pub emul_mode : Machine → EmulMode
emul_mode s =
    if has (vmcs_readl Field.guest_rflags s) x86_eflags_vm
    then real
    else if has (vmcs_read32 Field.guest_cs_ar_bytes s) ar_l_mask
    then prot64
    else if has (vmcs_read32 Field.guest_cs_ar_bytes s) ar_db_mask
    then prot32
    else prot16

-- The bases of the segments, all 0 in long mode.
unfoldable pub context : ℕ → Machine → EmulateCtxt
context cr2 s = elim (emul_mode s) [
  | prot64 ↦ record {
    eflags = vmcs_readl Field.guest_rflags s;
    cr2 = cr2;
    mode = prot64;
    cs_base = 0;
    ds_base = 0;
    es_base = 0;
    ss_base = 0;
    gs_base = 0;
    fs_base = 0;
  }
  | mode ↦ record {
    eflags = vmcs_readl Field.guest_rflags s;
    cr2 = cr2;
    mode = mode;
    cs_base = vmcs_readl Field.guest_cs_base s;
    ds_base = vmcs_readl Field.guest_ds_base s;
    es_base = vmcs_readl Field.guest_es_base s;
    ss_base = vmcs_readl Field.guest_ss_base s;
    gs_base = vmcs_readl Field.guest_gs_base s;
    fs_base = vmcs_readl Field.guest_fs_base s;
  }
]

-- What is stored to `*run`, if there is one.
unfoldable pub report_mmio : Bool → Mmio → KvmRun → KvmRun
report_mmio failed m run =
    if failed || m.is_write
    then record run {
      mmio = record {
        phys_addr = m.phys_addr;
        bytes = m.bytes;
        len = m.size;
        is_write = m.is_write;
      };
    }
    else run

-- The registers and the flags that the emulator leaves go back to the VMCS.
unfoldable pub put_registers : ℕ → Machine → Machine
put_registers eflags s = vmcs_writel Field.guest_rflags eflags (vcpu_put_rsp_rip s)

unfoldable pub emulate_instruction : Memop → ℕ → Cmd (EmulationResult × (KvmRun → KvmRun))
emulate_instruction memop cr2 s =
    (do
      act (λ s. on_mmio (λ m. record m { is_write = false }) (vcpu_load_rsp_rip s))
      λ s.
          (do
            (done_well, eflags) ← memop (context cr2 s)
            λ t.
                let report = report_mmio (not done_well) t.vcpu.mmio in
                if not done_well
                then pure (if t.vcpu.mmio.needed then emulate_do_mmio else emulate_fail, report) t
                else pure (if t.vcpu.mmio.is_write then emulate_do_mmio else emulate_done, report)
                    (put_registers eflags t))
            s)
      s
