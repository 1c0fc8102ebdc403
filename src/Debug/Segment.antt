-- ===== src/Debug/Segment.antt =====
-- The tests of one segment register or one address, macros and helpers of
-- src/2006-11-02/kvm-module/debug.c. What they print is left out.
use learn_kvm.Base.{
  ℕ, ◌+◌, ◌-◌, ◌*◌, ◌%◌, ◌^◌, Bool, not, ◌&&◌, ◌||◌, ltb, ◌==◌, ◌!=◌, if◌then◌else◌, bit_and, not32,
  not64, shr,
}
use learn_kvm.State.{Machine}
use learn_kvm.Vmcs.{has, vmcs_readl, vmcs_read16, vmcs_read32}
use learn_kvm.Cpu.Segment.{SegmentFields}
use learn_kvm.Vmx.Masks.{
  page_size, ar_type_mask, ar_unusable_mask, selector_rpl_mask, ar_type_accesses_mask,
  ar_type_readable_mask, ar_type_code_mask, ar_s_mask, ar_p_mask, ar_g_mask, ar_dpl,
  ar_reservd_mask,
}

-- The shift to the left loses 16 bits, and the shift of a `long` to the right extends bit 47.
unfoldable pub is_canonical : ℕ → Bool
is_canonical addr =
    let low : ℕ = addr % 2 ^ 48 in
    addr == (if ltb low (2 ^ 47) then low else low + (2 ^ 64 - 2 ^ 48))

unfoldable pub vir8086_seg_base_test : SegmentFields → Machine → Bool
vir8086_seg_base_test seg s = vmcs_readl seg.base s == vmcs_read16 seg.selector s * 2 ^ 4

unfoldable pub vir8086_seg_limit_test : SegmentFields → Machine → Bool
vir8086_seg_limit_test seg s = vmcs_readl seg.limit s == 0xffff

unfoldable pub vir8086_seg_ar_test : SegmentFields → Machine → Bool
vir8086_seg_ar_test seg s = vmcs_read32 seg.ar_bytes s == 0xf3

unfoldable pub seg_base_test : SegmentFields → Machine → Bool
seg_base_test seg s = not (
    not (has (vmcs_read32 seg.ar_bytes s) ar_unusable_mask)
    && has (vmcs_readl seg.base s) (not64 (2 ^ 32 - 1)))

unfoldable pub seg_g_test : SegmentFields → Machine → Bool
seg_g_test seg s =
    let lim : ℕ = vmcs_read32 seg.limit s in
    let ar : ℕ = vmcs_read32 seg.ar_bytes s in
    not (
      bit_and lim (page_size - 1) != page_size - 1 && has ar ar_g_mask
      || has lim (not32 (2 ^ 20 - 1)) && not (has ar ar_g_mask))

-- The tests that a usable segment of DS, ES, FS and GS passes; an unusable one passes without.
unfoldable pub seg_ar_test : SegmentFields → Machine → Bool
seg_ar_test seg s =
    let ar : ℕ = vmcs_read32 seg.ar_bytes s in
    has ar ar_unusable_mask
    || has ar ar_type_accesses_mask
      && not (has ar ar_type_code_mask && not (has ar ar_type_readable_mask))
      && has ar ar_s_mask
      && not (
          ltb (bit_and ar ar_type_mask) 12
          && ltb (ar_dpl ar) (bit_and (vmcs_read16 seg.selector s) selector_rpl_mask))
      && has ar ar_p_mask
      && not (has ar ar_reservd_mask)
      && seg_g_test seg s

-- IDT_GDT_TEST, of a base and a limit.
unfoldable pub idt_gdt_test : ℕ → ℕ → Machine → Bool
idt_gdt_test base limit s = is_canonical (vmcs_readl base s) && shr (vmcs_read32 limit s) 16 == 0
