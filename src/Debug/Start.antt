-- ===== src/Debug/Start.antt =====
-- The guest that `kvm_vcpu_setup` of src/2006-11-02/kvm-module/kvm_main.c leaves, under the checks of debug.c.
use learn_kvm.Base.{
  ℕ, zero, suc, ◌+◌, ◌-◌, ◌*◌, ◌/◌, ◌^◌, ◌≤◌, ◌<◌, ◌≡◌, refl, sym, ap, ◌∙◌, subst, inl, inr, true,
  false, ltb, ◌==◌, arith, Bool-cases, Option-cases, get_elem?, u32, bit_and, not32, not64, shr,
}
use learn_kvm.State.{Machine, Kvm}
use learn_kvm.Bits.{
  bit, bit-and, bit-or, bit_high, bit-mul_pow, bit-not64, bit-complement, bit-zero, zero_of_bits,
  bit_and-low, bit_and-le_left,
}
use learn_kvm.Vmcs.{
  has, update, vmcs_readl, vmcs_read16, vmcs_read32, vmcs_writel, vmcs_write16, vmcs_write32,
  vmcs_write64, is_long_mode,
}
use learn_kvm.Vmcs.Laws.{has-bit}
use learn_kvm.Mmu.Pages.{read64}
use learn_kvm.Mmu.Root.{IsBlank}
use learn_kvm.Cpu.Segment.{fix_rmode_seg}
use learn_kvm.Cpu.Rmode.{enter_rmode, update_exception_bitmap, sign_extend32, rmode_tss_base}
use learn_kvm.Cpu.Cr.{any_reserved, has_reserved_bits, load_cr4, set_cr0_fields}
use learn_kvm.Cpu.Msr.{clear_ia32e}
use learn_kvm.Setup.Host.{Host, vmcs_write32_fixedbits}
use learn_kvm.Setup.Guest.{reset_registers, setup_segment, setup_segments, setup_guest_state}
use learn_kvm.Setup.Controls.{setup_execution, setup_host_state, setup_msrs, setup_switches}
use learn_kvm.Setup.Vcpu.{setup_vmcs}
use learn_kvm.Debug.Segment.{
  is_canonical, vir8086_seg_base_test, vir8086_seg_limit_test, vir8086_seg_ar_test, seg_base_test,
  idt_gdt_test,
}
use learn_kvm.Debug.Guest.{
  control_test, pdpte_test, address_test, selector_test, is_virtual8086, vir8086_test, base_test,
  access_test, rip_test, rflags_test, vm_entry_test_guest,
}
use learn_kvm.Vmx.Field
use learn_kvm.Vmx.Masks.{cr3_l_mode_reseved_bits}

-- The address of a page below 1 TiB has no reserved bit of CR3.
cr3-bit : (k p : ℕ) → p < 2 ^ 28 → bit k (bit_and (p * 2 ^ 12) cr3_l_mode_reseved_bits) ≡ 0
cr3-bit k p h =
    let m : ℕ = cr3_l_mode_reseved_bits in
    let split = bit-and k (p * 2 ^ 12) m in
    elim (Bool-cases (ltb k 12)) [
      | inl e ↦ omega (arith, split, bit-mul_pow 12 k p (ground arith))
      | inr e ↦ elim (Bool-cases (ltb k 40)) [
        | inl f ↦ omega (
          arith,
          split,
          bit-or k (not64 (2 ^ 40 - 1)) 0xfe7,
          bit-not64 k (2 ^ 40 - 1) (omega arith) (ground arith),
          bit-complement 40 k 0 (omega arith) (ground arith),
          bit-zero k,
          bit_high 12 k 0xfe7 (omega arith) (ground arith),
        )
        | inr f ↦ omega (arith, split, bit_high 40 k (p * 2 ^ 12) (omega arith) (ground arith))
      ]
    ]

cr3-fits : (p : ℕ) → p < 2 ^ 28 → has (p * 2 ^ 12) cr3_l_mode_reseved_bits ≡ false
cr3-fits p h =
    rw (zero_of_bits (bit_and (p * 2 ^ 12) cr3_l_mode_reseved_bits) λ k. cr3-bit k p h) refl

-- The words of a blank page have no reserved bit.
blank-any_reserved :
    (hpa : ℕ) (s : Machine) (b : IsBlank hpa s) (n i : ℕ)
    → i + n ≤ 512
    → any_reserved n hpa i s ≡ false
unfolding any_reserved has_reserved_bits read64
blank-any_reserved hpa s b zero i h = refl
blank-any_reserved hpa s b (suc n) i h =
    let at : (hpa + 8 * i) / 8 ≡ hpa / 8 + i = omega (arith, b.aligned) in
    let word : s.mem ((hpa + 8 * i) / 8) ≡ 0 = ap s.mem at ∙ b.blank i (omega arith) in
    rw word (blank-any_reserved hpa s b n (i + 1) (omega arith))

signed-is_canonical : (x : ℕ) → is_canonical (sign_extend32 x) ≡ true
unfolding is_canonical sign_extend32
signed-is_canonical x = ground arith

zero-is_canonical : is_canonical 0 ≡ true
unfolding is_canonical
zero-is_canonical = refl

tss-is_canonical : (kvm : Kvm) → is_canonical (rmode_tss_base kvm) ≡ true
unfolding rmode_tss_base
tss-is_canonical kvm = elim (Option-cases (get_elem? kvm.memslots 0)) [
  | inl e ↦ rw (e, rmode_tss_base) (zero-is_canonical)
  | inr (m, e) ↦ rw (e, rmode_tss_base) (signed-is_canonical _)
]

-- `__set_efer` has cleared the bit of the entry controls.
cleared : (v : ℕ) → has (u32 (u32 (bit_and (u32 v) (not32 (2 ^ 9))))) (2 ^ 9) ≡ false
unfolding bit
cleared v =
    let y : ℕ = bit_and (u32 v) (not32 (2 ^ 9)) in
    let off : bit 9 y ≡ 0 = omega (arith, bit-and 9 (u32 v) (not32 (2 ^ 9))) in
    let same : u32 (u32 y) ≡ y = omega (arith, bit_and-le_left (u32 v) (not32 (2 ^ 9))) in
    rw same (has-bit 9 y ∙ ap (λ (d : ℕ). d == 1) off)

-- The machine before the shadow context, without the entry of EFER.
abbrev pub reset_machine : Host → ℕ → ℕ → Machine → Machine
reset_machine host guest own s = clear_ia32e (
    load_cr4 0 (
      set_cr0_fields 0x60000010
        (enter_rmode (setup_switches host guest own (setup_msrs host (setup_vmcs host s))))))

module _ (host : Host) (guest own hpa : ℕ) (s u : Machine) (b : IsBlank hpa u)
    (e : u.vmcs ≡ update (reset_machine host guest own s).vmcs Field.guest_cr3 hpa) where
  started : Machine
  started = record u { vmcs = update (reset_machine host guest own s).vmcs Field.guest_cr3 hpa }

  short : is_long_mode started ≡ false
  unfolding started is_long_mode enter_rmode update_exception_bitmap fix_rmode_seg vmcs_readl
      vmcs_read16 vmcs_read32 vmcs_writel vmcs_write16 vmcs_write32 vmcs_write64 load_cr4
      setup_switches setup_msrs setup_vmcs setup_segments setup_segment setup_guest_state
      setup_execution setup_host_state reset_registers vmcs_write32_fixedbits
  short = cleared _

  fits : has hpa cr3_l_mode_reseved_bits ≡ false
  fits = ap (λ (a : ℕ). has a cr3_l_mode_reseved_bits) b.aligned ∙ cr3-fits b.number b.low

  started-control_test : control_test started ≡ true
  unfolding started control_test enter_rmode update_exception_bitmap fix_rmode_seg vmcs_readl
      vmcs_read16 vmcs_read32 vmcs_writel vmcs_write16 vmcs_write32 vmcs_write64 load_cr4
      setup_switches setup_msrs setup_vmcs setup_segments setup_segment setup_guest_state
      setup_execution setup_host_state reset_registers vmcs_write32_fixedbits
  started-control_test = rw (short, fits) refl

  started-pdpte_test : pdpte_test started ≡ true
  unfolding started pdpte_test enter_rmode update_exception_bitmap fix_rmode_seg vmcs_readl
      vmcs_read16 vmcs_read32 vmcs_writel vmcs_write16 vmcs_write32 vmcs_write64 load_cr4
      setup_switches setup_msrs setup_vmcs setup_segments setup_segment setup_guest_state
      setup_execution setup_host_state reset_registers vmcs_write32_fixedbits
  started-pdpte_test =
      let blank : IsBlank hpa started = record {
        number = b.number;
        aligned = b.aligned;
        low = b.low;
        blank = b.blank;
      } in
      let page : shr hpa 12 * 4096 ≡ hpa = omega (arith, b.aligned) in
      let offset : shr (bit_and hpa 4095) 5 ≡ 0 = omega (arith, bit_and-low 12 hpa, b.aligned) in
      rw (short, page, offset, blank-any_reserved hpa started blank 4 0 (omega arith)) refl

  started-address_test : address_test started ≡ true
  unfolding started address_test is_canonical enter_rmode update_exception_bitmap fix_rmode_seg
      vmcs_readl vmcs_read16 vmcs_read32 vmcs_writel vmcs_write16 vmcs_write32 vmcs_write64 load_cr4
      setup_switches setup_msrs setup_vmcs setup_segments setup_segment setup_guest_state
      setup_execution setup_host_state reset_registers vmcs_write32_fixedbits
  started-address_test = refl

  started-selector_test : selector_test started ≡ true
  unfolding started selector_test is_virtual8086 enter_rmode update_exception_bitmap fix_rmode_seg
      vmcs_readl vmcs_read16 vmcs_read32 vmcs_writel vmcs_write16 vmcs_write32 vmcs_write64 load_cr4
      setup_switches setup_msrs setup_vmcs setup_segments setup_segment setup_guest_state
      setup_execution setup_host_state reset_registers vmcs_write32_fixedbits
  started-selector_test = refl

  started-base_test : base_test started ≡ true
  unfolding started base_test seg_base_test enter_rmode update_exception_bitmap fix_rmode_seg
      vmcs_readl vmcs_read16 vmcs_read32 vmcs_writel vmcs_write16 vmcs_write32 vmcs_write64 load_cr4
      setup_switches setup_msrs setup_vmcs setup_segments setup_segment setup_guest_state
      setup_execution setup_host_state reset_registers vmcs_write32_fixedbits
  started-base_test = rw (tss-is_canonical s.kvm, zero-is_canonical) refl

  started-access_test : access_test started ≡ true
  unfolding started access_test is_virtual8086 vir8086_test vir8086_seg_ar_test enter_rmode
      update_exception_bitmap fix_rmode_seg vmcs_readl vmcs_read16 vmcs_read32 vmcs_writel
      vmcs_write16 vmcs_write32 vmcs_write64 load_cr4 setup_switches setup_msrs setup_vmcs
      setup_segments setup_segment setup_guest_state setup_execution setup_host_state
      reset_registers vmcs_write32_fixedbits
  started-access_test = refl

  started-rip_test : rip_test started ≡ true
  unfolding started rip_test is_canonical enter_rmode update_exception_bitmap fix_rmode_seg
      vmcs_readl vmcs_read16 vmcs_read32 vmcs_writel vmcs_write16 vmcs_write32 vmcs_write64 load_cr4
      setup_switches setup_msrs setup_vmcs setup_segments setup_segment setup_guest_state
      setup_execution setup_host_state reset_registers vmcs_write32_fixedbits
  started-rip_test = rw short refl

  started-rflags_test : rflags_test started ≡ true
  unfolding started rflags_test is_virtual8086 enter_rmode update_exception_bitmap fix_rmode_seg
      vmcs_readl vmcs_read16 vmcs_read32 vmcs_writel vmcs_write16 vmcs_write32 vmcs_write64 load_cr4
      setup_switches setup_msrs setup_vmcs setup_segments setup_segment setup_guest_state
      setup_execution setup_host_state reset_registers vmcs_write32_fixedbits
  started-rflags_test = rw short refl

  started-base : vir8086_test vir8086_seg_base_test started ≡ true
  unfolding started vir8086_test vir8086_seg_base_test enter_rmode update_exception_bitmap
      fix_rmode_seg vmcs_readl vmcs_read16 vmcs_read32 vmcs_writel vmcs_write16 vmcs_write32
      vmcs_write64 load_cr4 setup_switches setup_msrs setup_vmcs setup_segments setup_segment
      setup_guest_state setup_execution setup_host_state reset_registers vmcs_write32_fixedbits
  started-base = refl

  started-limit : vir8086_test vir8086_seg_limit_test started ≡ true
  unfolding started vir8086_test vir8086_seg_limit_test enter_rmode update_exception_bitmap
      fix_rmode_seg vmcs_readl vmcs_read16 vmcs_read32 vmcs_writel vmcs_write16 vmcs_write32
      vmcs_write64 load_cr4 setup_switches setup_msrs setup_vmcs setup_segments setup_segment
      setup_guest_state setup_execution setup_host_state reset_registers vmcs_write32_fixedbits
  started-limit = refl

  started-gdtr : idt_gdt_test Field.guest_gdtr_base Field.guest_gdtr_limit started ≡ true
  unfolding started idt_gdt_test is_canonical enter_rmode update_exception_bitmap fix_rmode_seg
      vmcs_readl vmcs_read16 vmcs_read32 vmcs_writel vmcs_write16 vmcs_write32 vmcs_write64 load_cr4
      setup_switches setup_msrs setup_vmcs setup_segments setup_segment setup_guest_state
      setup_execution setup_host_state reset_registers vmcs_write32_fixedbits
  started-gdtr = refl

  started-idtr : idt_gdt_test Field.guest_idtr_base Field.guest_idtr_limit started ≡ true
  unfolding started idt_gdt_test is_canonical enter_rmode update_exception_bitmap fix_rmode_seg
      vmcs_readl vmcs_read16 vmcs_read32 vmcs_writel vmcs_write16 vmcs_write32 vmcs_write64 load_cr4
      setup_switches setup_msrs setup_vmcs setup_segments setup_segment setup_guest_state
      setup_execution setup_host_state reset_registers vmcs_write32_fixedbits
  started-idtr = refl

  started-virtual : is_virtual8086 started ≡ true
  unfolding started is_virtual8086 enter_rmode update_exception_bitmap fix_rmode_seg vmcs_readl
      vmcs_read16 vmcs_read32 vmcs_writel vmcs_write16 vmcs_write32 vmcs_write64 load_cr4
      setup_switches setup_msrs setup_vmcs setup_segments setup_segment setup_guest_state
      setup_execution setup_host_state reset_registers vmcs_write32_fixedbits
  started-virtual = refl

  guest_test : vm_entry_test_guest started ≡ true
  unfolding vm_entry_test_guest
  guest_test =
      rw
        (
          started-control_test, started-pdpte_test, started-address_test, started-selector_test,
          started-virtual, started-base, started-base_test, started-limit, started-access_test,
          started-gdtr, started-idtr, started-rip_test, started-rflags_test,
        )
        refl

  -- `u` has the fields of `started`.
  pub enterable : vm_entry_test_guest u ≡ true
  unfolding started
  enterable =
      subst (λ (v : ℕ → ℕ). vm_entry_test_guest (record u { vmcs = v }) ≡ true) (sym e) guest_test
