-- ===== src/Cpu/Rmode.antt =====
-- Emulated real mode: `enter_pmode`, `enter_rmode`, `rmode_tss_base`, `inject_gp`,
-- `update_exception_bitmap` of src/2006-11-02/kvm-module/kvm_main.c.
pub mod Restore
use learn_kvm.Base.{
  ℕ, ◌+◌, ◌-◌, ◌*◌, ◌^◌, Bool, true, false, none, some, if◌then◌else◌, ltb, get_elem?, bit_and,
  bit_or, u8, u32, u64, not64, shr, shl64,
}
use learn_kvm.State.{Machine, Kvm}
use learn_kvm.Vmcs.{
  ◌▷◌, vmcs_readl, vmcs_read16, vmcs_read32, vmcs_writel, vmcs_write16, vmcs_write32, on_vcpu,
}
use learn_kvm.Cpu.Segment.{ds, es, fs, gs, ss, fix_pmode_dataseg, fix_rmode_seg}
use learn_kvm.Paging.Entry.{exception_info}
use learn_kvm.Vmx.Field
use learn_kvm.Vmx.Masks.{
  page_shift, gp_vector, pf_vector, iopl_mask, iopl_shift, x86_eflags_vm, cr4_vme_mask,
  selector_rpl_mask, rmode_tss_size,
}

unfoldable pub inject_gp : Machine → Machine
inject_gp s =
    s
    ▷ vmcs_write32 Field.vm_entry_exception_error_code 0
    ▷ vmcs_write32 Field.vm_entry_intr_info_field (exception_info gp_vector)

unfoldable pub update_exception_bitmap : Machine → Machine
update_exception_bitmap s =
    if s.vcpu.rmode.active
    then vmcs_write32 Field.exception_bitmap (2 ^ 32 - 1) s
    else vmcs_write32 Field.exception_bitmap (2 ^ pf_vector) s

abbrev pub set_active : Bool → Machine → Machine
set_active active = on_vcpu λ v. record v { rmode = record v.rmode { active = active } }

-- RFLAGS on the way out of real mode: the saved IOPL, and no virtual-8086 mode.
unfoldable pub pmode_flags : ℕ → ℕ → ℕ
pmode_flags save_iopl flags =
    bit_or (bit_and flags (not64 (bit_or iopl_mask x86_eflags_vm))) (save_iopl * 2 ^ iopl_shift)

unfoldable pub enter_pmode : Machine → Machine
enter_pmode s =
    set_active false s
    ▷ vmcs_writel Field.guest_tr_base s.vcpu.rmode.tr.base
    ▷ vmcs_write32 Field.guest_tr_limit s.vcpu.rmode.tr.limit
    ▷ vmcs_write32 Field.guest_tr_ar_bytes s.vcpu.rmode.tr.ar
    ▷ (λ s.
        vmcs_writel Field.guest_rflags
          (pmode_flags s.vcpu.rmode.save_iopl (vmcs_readl Field.guest_rflags s)) s)
    ▷ (λ s.
        vmcs_writel Field.guest_cr4
          (bit_or (bit_and (vmcs_readl Field.guest_cr4 s) (not64 cr4_vme_mask))
            (bit_and (vmcs_readl Field.cr0_read_shadow s) cr4_vme_mask))
          s)
    ▷ update_exception_bitmap
    ▷ fix_pmode_dataseg ss
    ▷ fix_pmode_dataseg es
    ▷ fix_pmode_dataseg ds
    ▷ fix_pmode_dataseg gs
    ▷ fix_pmode_dataseg fs
    ▷ (λ s.
        vmcs_write16 Field.guest_cs_selector
          (bit_and (vmcs_read16 Field.guest_cs_selector s) (not64 selector_rpl_mask)) s)
    ▷ vmcs_write32 Field.guest_cs_ar_bytes 0x9b

-- A value of type `int` as an `unsigned long`: the low 32 bits with their sign extended.
unfoldable pub sign_extend32 : ℕ → ℕ
sign_extend32 x = if ltb (u32 x) (2 ^ 31) then u32 x else u32 x + (2 ^ 64 - 2 ^ 32)

-- `memslots[0]` is always there; the sum is one of `unsigned long` and the result an `int`.
unfoldable pub rmode_tss_base : Kvm → ℕ
rmode_tss_base kvm = elim (get_elem? kvm.memslots 0) [
  | none ↦ 0
  | some m ↦ sign_extend32 (shl64 (u64 (m.base_gfn + m.npages + 2 ^ 64 - 3)) page_shift)
]

-- The task register and the IOPL are saved, in a `u8`.
abbrev pub save_tr : Machine → Machine
save_tr s =
    on_vcpu
      (λ v. record v {
        rmode = record v.rmode {
          tr = record {
            base = vmcs_readl Field.guest_tr_base s;
            limit = vmcs_read32 Field.guest_tr_limit s;
            ar = vmcs_read32 Field.guest_tr_ar_bytes s;
          };
          save_iopl = u8 (shr (bit_and (vmcs_readl Field.guest_rflags s) iopl_mask) iopl_shift);
        };
      })
      s

unfoldable pub enter_rmode : Machine → Machine
enter_rmode s =
    save_tr (set_active true s)
    ▷ vmcs_writel Field.guest_tr_base (rmode_tss_base s.kvm)
    ▷ vmcs_write32 Field.guest_tr_limit (rmode_tss_size - 1)
    ▷ vmcs_write32 Field.guest_tr_ar_bytes 0x008b
    ▷ (λ s.
        vmcs_writel Field.guest_rflags
          (bit_or (vmcs_readl Field.guest_rflags s) (bit_or iopl_mask x86_eflags_vm)) s)
    ▷ (λ s. vmcs_writel Field.guest_cr4 (bit_or (vmcs_readl Field.guest_cr4 s) cr4_vme_mask) s)
    ▷ update_exception_bitmap
    ▷ vmcs_write32 Field.guest_cs_ar_bytes 0xf3
    ▷ (λ s. vmcs_write16 Field.guest_cs_selector (shr (vmcs_readl Field.guest_cs_base s) 4) s)
    ▷ fix_rmode_seg es
    ▷ fix_rmode_seg ds
    ▷ fix_rmode_seg ss
    ▷ fix_rmode_seg gs
    ▷ fix_rmode_seg fs
