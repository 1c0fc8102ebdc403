-- ===== src/Setup/Guest.antt =====
-- The guest's part of a new VMCS: the middle of `kvm_vcpu_setup`, and `init_rmode_tss`, of
-- src/2006-11-02/kvm-module/kvm_main.c.
use learn_kvm.Base.{ℕ, ◌+◌, ◌-◌, ◌*◌, ◌^◌, Bool, true, false, Option, none, some, u64, shr}
use learn_kvm.State.{Machine}
use learn_kvm.Run.{Cmd, ◌>>=◌, ◌>>◌, pure, act, deref}
use learn_kvm.Vmcs.{◌▷◌, vmcs_writel, vmcs_write16, vmcs_write32, vmcs_write64, on_vcpu}
use learn_kvm.Slots.{gfn_to_memslot, gfn_to_page}
use learn_kvm.Mmu.Pages.{clear_page}
use learn_kvm.Cpu.Segment
use learn_kvm.Cpu.Segment.{SegmentFields}
use learn_kvm.Cpu.Rmode.{rmode_tss_base}
use learn_kvm.Ioctl.Regs.{set_reg}
use learn_kvm.GuestMemory.Bytes.{write_byte, write_bytes, to_bytes}
use learn_kvm.Setup.Host.{Host}
use learn_kvm.Vmx.Field
use learn_kvm.Vmx.Masks.{
  page_shift, page_size, tss_base_size, tss_redirection_size, rmode_tss_size, vcpu_regs_rdx,
}

-- `none` is NULL; a page array that is missing or too short is a fault.
unfoldable pub _gfn_to_page : ℕ → Cmd (Option ℕ)
_gfn_to_page gfn s = elim (gfn_to_memslot s.kvm gfn) [
  | none ↦ pure none s
  | some (i, slot) ↦ deref (gfn_to_page slot gfn) s
]

-- The three pages of the task state segment.
unfoldable pub fill_tss : ℕ → ℕ → ℕ → Machine → Machine
fill_tss p1 p2 p3 s =
    s
    ▷ clear_page (p1 * page_size)
    ▷ write_bytes (p1 * page_size + 0x66) (to_bytes 2 (tss_base_size + tss_redirection_size))
    ▷ clear_page (p2 * page_size)
    ▷ clear_page (p3 * page_size)
    ▷ write_byte (p3 * page_size + rmode_tss_size - 2 * page_size - 1) 0xff

unfoldable pub init_tss_pages : Option ℕ → Option ℕ → Option ℕ → Cmd Bool
init_tss_pages (some p1) (some p2) (some p3) = act (fill_tss p1 p2 p3) >> pure true
init_tss_pages (some p1) (some p2) none = pure false
init_tss_pages (some p1) none p3 = pure false
init_tss_pages none p2 p3 = pure false

unfoldable pub init_rmode_tss : Cmd Bool
init_rmode_tss s =
    let fn = shr (rmode_tss_base s.kvm) page_shift in
    (do
      p1 ← _gfn_to_page fn
      p2 ← _gfn_to_page (u64 (fn + 1))
      p3 ← _gfn_to_page (u64 (fn + 2))
      init_tss_pages p1 p2 p3)
      s

-- The registers after reset.
unfoldable pub reset_registers : Host → Machine → Machine
reset_registers host s =
    on_vcpu (λ v. record v { regs = λ _. 0; cr8 = 0; apic_base = 0xfee00900 }) s
    ▷ set_reg vcpu_regs_rdx host.rdx_init_val

-- A segment's four fields; SEG_SETUP is the one with 0, 0, 0xffff and 0x93.
unfoldable pub setup_segment : SegmentFields → ℕ → ℕ → ℕ → ℕ → Machine → Machine
setup_segment seg selector base limit ar s =
    s
    ▷ vmcs_write16 seg.selector selector
    ▷ vmcs_writel seg.base base
    ▷ vmcs_write32 seg.limit limit
    ▷ vmcs_write32 seg.ar_bytes ar

unfoldable pub setup_segments : Machine → Machine
setup_segments s =
    s
    ▷ setup_segment Segment.cs 0xf000 0xf0000 0xffff 0x9b
    ▷ setup_segment Segment.ds 0 0 0xffff 0x93
    ▷ setup_segment Segment.es 0 0 0xffff 0x93
    ▷ setup_segment Segment.fs 0 0 0xffff 0x93
    ▷ setup_segment Segment.gs 0 0 0xffff 0x93
    ▷ setup_segment Segment.ss 0 0 0xffff 0x93
    ▷ setup_segment Segment.tr 0 0 0xffff 0x8b
    ▷ setup_segment Segment.ldtr 0 0 0xffff 0x82

unfoldable pub setup_guest_state : Host → Machine → Machine
setup_guest_state host s =
    s
    ▷ vmcs_write32 Field.guest_sysenter_cs 0
    ▷ vmcs_writel Field.guest_sysenter_esp 0
    ▷ vmcs_writel Field.guest_sysenter_eip 0
    ▷ vmcs_writel Field.guest_rflags 0x02
    ▷ vmcs_writel Field.guest_rip 0xfff0
    ▷ vmcs_writel Field.guest_rsp 0
    ▷ vmcs_writel Field.guest_cr3 0
    ▷ vmcs_writel Field.guest_dr7 0x400
    ▷ vmcs_writel Field.guest_gdtr_base 0
    ▷ vmcs_write32 Field.guest_gdtr_limit 0xffff
    ▷ vmcs_writel Field.guest_idtr_base 0
    ▷ vmcs_write32 Field.guest_idtr_limit 0xffff
    ▷ vmcs_write32 Field.guest_activity_state 0
    ▷ vmcs_write32 Field.guest_interruptibility_info 0
    ▷ vmcs_write32 Field.guest_pending_dbg_exceptions 0
    ▷ vmcs_write64 Field.io_bitmap_a 0
    ▷ vmcs_write64 Field.io_bitmap_b 0
    ▷ vmcs_write64 Field.tsc_offset (u64 (2 ^ 64 - host.tsc))
    ▷ vmcs_write64 Field.vmcs_link_pointer (2 ^ 64 - 1)
    ▷ vmcs_write64 Field.guest_ia32_debugctl 0
