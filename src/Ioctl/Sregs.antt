-- ===== src/Ioctl/Sregs.antt =====
-- `kvm_dev_ioctl_get_sregs` and `kvm_dev_ioctl_set_sregs` of src/2006-11-02/kvm-module/kvm_main.c.
use learn_kvm.Base.{ℕ, ◌*◌, ◌^◌, Bool, ◌||◌, ◌==◌, ◌!=◌, u16, bit_and, bit_or, shr, if◌then◌else◌}
use learn_kvm.State.{Machine}
use learn_kvm.Run.{Cmd, ◌>>◌, pure, act}
use learn_kvm.Status.{Status, success, error}
use learn_kvm.Vmcs.{
  ◌▷◌, has, guest_cr0, guest_cr4, vmcs_readl, vmcs_read16, vmcs_read32, vmcs_writel, vmcs_write16,
  vmcs_write32, on_vcpu,
}
use learn_kvm.Mmu.Context.{kvm_mmu_reset_context}
use learn_kvm.Cpu.Segment
use learn_kvm.Cpu.Segment.{SegmentFields}
use learn_kvm.Cpu.Rmode.{update_exception_bitmap, set_active}
use learn_kvm.Cpu.Msr.{load_efer}
use learn_kvm.Cpu.Cr.{set_cr0_fields, load_cr4}
use learn_kvm.Ioctl.Load.{checked}
use learn_kvm.Vmx.Field
use learn_kvm.Vmx.Masks.{ar_unusable_mask, cr0_pe_mask}

-- struct kvm_segment.
pub record KvmSegment : Type 0 where
  pub base : ℕ
  pub limit : ℕ
  pub selector : ℕ
  pub type_bits : ℕ
  pub present : ℕ
  pub dpl : ℕ
  pub db : ℕ
  pub s_bit : ℕ
  pub l : ℕ
  pub g : ℕ
  pub avl : ℕ
  pub unusable : ℕ

-- struct kvm_dtable.
pub record KvmDtable : Type 0 where
  pub base : ℕ
  pub limit : ℕ

-- struct kvm_sregs.
pub record KvmSregs : Type 0 where
  pub vcpu : ℕ
  pub cs : KvmSegment
  pub ds : KvmSegment
  pub es : KvmSegment
  pub fs : KvmSegment
  pub gs : KvmSegment
  pub ss : KvmSegment
  pub tr : KvmSegment
  pub ldt : KvmSegment
  pub gdt : KvmDtable
  pub idt : KvmDtable
  pub cr0 : ℕ
  pub cr2 : ℕ
  pub cr3 : ℕ
  pub cr4 : ℕ
  pub cr8 : ℕ
  pub efer : ℕ
  pub apic_base : ℕ
  pub pending_int : ℕ

-- The fields of the access rights, of which an unusable segment has none.
unfoldable pub unpack_ar : ℕ → ℕ → ℕ → ℕ → KvmSegment
unpack_ar base limit selector ar_bytes =
    let ar : ℕ = if has ar_bytes ar_unusable_mask then 0 else ar_bytes in
    record {
      base = base;
      limit = limit;
      selector = selector;
      type_bits = bit_and ar 15;
      s_bit = bit_and (shr ar 4) 1;
      dpl = bit_and (shr ar 5) 3;
      present = bit_and (shr ar 7) 1;
      avl = bit_and (shr ar 12) 1;
      l = bit_and (shr ar 13) 1;
      db = bit_and (shr ar 14) 1;
      g = bit_and (shr ar 15) 1;
      unusable = bit_and (shr ar 16) 1;
    }

unfoldable pub get_segment : SegmentFields → Machine → KvmSegment
get_segment seg s =
    unpack_ar (vmcs_readl seg.base s) (vmcs_read32 seg.limit s) (vmcs_read16 seg.selector s)
      (vmcs_read32 seg.ar_bytes s)

-- The access rights of a segment.
unfoldable pub pack_ar : KvmSegment → ℕ
pack_ar var =
    if var.unusable != 0
    then 2 ^ 16
    else bit_or
        (bit_or
          (bit_or
            (bit_or
              (bit_or
                (bit_or (bit_or (bit_and var.type_bits 15) (bit_and var.s_bit 1 * 2 ^ 4))
                  (bit_and var.dpl 3 * 2 ^ 5))
                (bit_and var.present 1 * 2 ^ 7))
              (bit_and var.avl 1 * 2 ^ 12))
            (bit_and var.l 1 * 2 ^ 13))
          (bit_and var.db 1 * 2 ^ 14))
        (bit_and var.g 1 * 2 ^ 15)

unfoldable pub set_segment : SegmentFields → KvmSegment → Machine → Machine
set_segment seg var s =
    s
    ▷ vmcs_writel seg.base var.base
    ▷ vmcs_write32 seg.limit var.limit
    ▷ vmcs_write16 seg.selector var.selector
    ▷ vmcs_write32 seg.ar_bytes (pack_ar var)

unfoldable pub get_dtable : ℕ → ℕ → Machine → KvmDtable
get_dtable limit base s = record { limit = u16 (vmcs_read32 limit s); base = vmcs_readl base s }

unfoldable pub set_dtable : ℕ → ℕ → KvmDtable → Machine → Machine
set_dtable limit base var s = vmcs_writel base var.base (vmcs_write32 limit var.limit s)

unfoldable pub read_sregs : ℕ → Machine → KvmSregs
read_sregs n s = record {
  vcpu = n;
  cs = get_segment Segment.cs s;
  ds = get_segment Segment.ds s;
  es = get_segment Segment.es s;
  fs = get_segment Segment.fs s;
  gs = get_segment Segment.gs s;
  ss = get_segment Segment.ss s;
  tr = get_segment Segment.tr s;
  ldt = get_segment Segment.ldtr s;
  idt = get_dtable Field.guest_idtr_limit Field.guest_idtr_base s;
  gdt = get_dtable Field.guest_gdtr_limit Field.guest_gdtr_base s;
  cr0 = guest_cr0 s;
  cr2 = s.vcpu.cr2;
  cr3 = s.vcpu.cr3;
  cr4 = guest_cr4 s;
  cr8 = s.vcpu.cr8;
  efer = s.vcpu.shadow_efer;
  apic_base = s.vcpu.apic_base;
  pending_int = if s.vcpu.irq_summary != 0 then 1 else 0;
}

unfoldable pub kvm_dev_ioctl_get_sregs : KvmSregs → Machine → Status × KvmSregs
kvm_dev_ioctl_get_sregs sregs = checked sregs.vcpu sregs λ s. (success, read_sregs sregs.vcpu s)

-- The segments and the descriptor tables.
unfoldable pub set_segments : KvmSregs → Machine → Machine
set_segments sregs s =
    s
    ▷ set_segment Segment.cs sregs.cs
    ▷ set_segment Segment.ds sregs.ds
    ▷ set_segment Segment.es sregs.es
    ▷ set_segment Segment.fs sregs.fs
    ▷ set_segment Segment.gs sregs.gs
    ▷ set_segment Segment.ss sregs.ss
    ▷ set_segment Segment.tr sregs.tr
    ▷ set_segment Segment.ldtr sregs.ldt
    ▷ set_dtable Field.guest_idtr_limit Field.guest_idtr_base sregs.idt
    ▷ set_dtable Field.guest_gdtr_limit Field.guest_gdtr_base sregs.gdt

-- CR2, CR3 and CR8.
unfoldable pub set_crs : KvmSregs → Machine → Machine
set_crs sregs = on_vcpu λ v. record v { cr2 = sregs.cr2; cr3 = sregs.cr3; cr8 = sregs.cr8 }

-- The emulation of real mode, and CR0.
unfoldable pub force_cr0 : ℕ → Machine → Machine
force_cr0 cr0 s =
    set_cr0_fields cr0 (update_exception_bitmap (set_active (bit_and cr0 cr0_pe_mask == 0) s))

-- Whether one of the values that the shadow context depends on is new; `t` is the state in which CR0
-- and CR4 are read.
unfoldable pub mmu_reset_needed : KvmSregs → Machine → Machine → Bool
mmu_reset_needed sregs s t =
    s.vcpu.cr3 != sregs.cr3
    || s.vcpu.shadow_efer != sregs.efer
    || guest_cr0 t != sregs.cr0
    || guest_cr4 t != sregs.cr4

-- What follows the segments.
unfoldable pub write_sregs : KvmSregs → Cmd (Unit {0})
write_sregs sregs s =
    (do
      act (λ s. set_crs sregs (set_segments sregs s))
      load_efer sregs.efer
      act (on_vcpu λ v. record v { apic_base = sregs.apic_base })
      λ t.
          (let loaded = load_cr4 sregs.cr4 (force_cr0 sregs.cr0 t) in
            act (if mmu_reset_needed sregs s t then kvm_mmu_reset_context else λ u. u) loaded))
      s

unfoldable pub kvm_dev_ioctl_set_sregs : KvmSregs → Cmd Status
kvm_dev_ioctl_set_sregs sregs s =
    let (status, _) = checked sregs.vcpu tt (λ _. (success, tt)) s in
    elim status [ success ↦ (write_sregs sregs >> pure success) s | error e ↦ pure (error e) s ]
