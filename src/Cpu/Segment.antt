-- ===== src/Cpu/Segment.antt =====
-- Segment registers in the VMCS: the macros FIX_PMODE_DATASEG, FIX_RMODE_SEG and SEG_SETUP of
-- src/2006-11-02/kvm-module/kvm_main.c.
use learn_kvm.Base.{ℕ, shr}
use learn_kvm.State.{Machine}
use learn_kvm.Vmcs.{◌▷◌, vmcs_readl, vmcs_writel, vmcs_write16, vmcs_write32}
use learn_kvm.Vmx.Field

-- The four fields of a segment register, `GUEST_##seg##_*`.
pub record SegmentFields : Type 0 where
  pub selector : ℕ
  pub base : ℕ
  pub limit : ℕ
  pub ar_bytes : ℕ

abbrev pub cs : SegmentFields
cs = record {
  selector = Field.guest_cs_selector;
  base = Field.guest_cs_base;
  limit = Field.guest_cs_limit;
  ar_bytes = Field.guest_cs_ar_bytes;
}

abbrev pub ds : SegmentFields
ds = record {
  selector = Field.guest_ds_selector;
  base = Field.guest_ds_base;
  limit = Field.guest_ds_limit;
  ar_bytes = Field.guest_ds_ar_bytes;
}

abbrev pub es : SegmentFields
es = record {
  selector = Field.guest_es_selector;
  base = Field.guest_es_base;
  limit = Field.guest_es_limit;
  ar_bytes = Field.guest_es_ar_bytes;
}

abbrev pub fs : SegmentFields
fs = record {
  selector = Field.guest_fs_selector;
  base = Field.guest_fs_base;
  limit = Field.guest_fs_limit;
  ar_bytes = Field.guest_fs_ar_bytes;
}

abbrev pub gs : SegmentFields
gs = record {
  selector = Field.guest_gs_selector;
  base = Field.guest_gs_base;
  limit = Field.guest_gs_limit;
  ar_bytes = Field.guest_gs_ar_bytes;
}

abbrev pub ss : SegmentFields
ss = record {
  selector = Field.guest_ss_selector;
  base = Field.guest_ss_base;
  limit = Field.guest_ss_limit;
  ar_bytes = Field.guest_ss_ar_bytes;
}

abbrev pub tr : SegmentFields
tr = record {
  selector = Field.guest_tr_selector;
  base = Field.guest_tr_base;
  limit = Field.guest_tr_limit;
  ar_bytes = Field.guest_tr_ar_bytes;
}

abbrev pub ldtr : SegmentFields
ldtr = record {
  selector = Field.guest_ldtr_selector;
  base = Field.guest_ldtr_base;
  limit = Field.guest_ldtr_limit;
  ar_bytes = Field.guest_ldtr_ar_bytes;
}

-- The four writes of FIX_PMODE_DATASEG and of SEG_SETUP.
unfoldable pub fix_pmode_dataseg : SegmentFields → Machine → Machine
fix_pmode_dataseg seg s =
    s
    ▷ vmcs_write16 seg.selector 0
    ▷ vmcs_writel seg.base 0
    ▷ vmcs_write32 seg.limit 0xffff
    ▷ vmcs_write32 seg.ar_bytes 0x93

unfoldable pub fix_rmode_seg : SegmentFields → Machine → Machine
fix_rmode_seg seg s =
    s
    ▷ vmcs_write16 seg.selector (shr (vmcs_readl seg.base s) 4)
    ▷ vmcs_write32 seg.limit 0xffff
    ▷ vmcs_write32 seg.ar_bytes 0xf3
