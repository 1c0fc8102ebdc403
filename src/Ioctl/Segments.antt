-- ===== src/Ioctl/Segments.antt =====
-- Segments through `kvm_dev_ioctl_set_sregs` and `kvm_dev_ioctl_get_sregs` of
-- src/2006-11-02/kvm-module/kvm_main.c: the packing of the access rights and the fields of the VMCS.
use native.Mathlib.Nat.{mod-eq_of_lt}
use learn_kvm.Base.{
  ℕ, ◌+◌, ◌-◌, ◌*◌, ◌/◌, ◌%◌, ◌^◌, ◌<◌, ◌≡◌, refl, sym, ap, ◌∙◌, inl, inr, false, Bool-cases, ◌==◌,
  ◌!=◌, List, [], ◌∷◌, bit_and, u16, u32, arith,
}
use learn_kvm.Bits.{bit, bit_high, bit-shr, bit_and-low, or-shift}
use learn_kvm.State.{Machine}
use learn_kvm.Vmcs.{
  has, vmcs_readl, vmcs_read32, vmcs_read16, vmcs_writel, vmcs_write32, vmcs_write16,
}
use learn_kvm.Vmcs.Laws.{has-bit}
use learn_kvm.Cpu.Segment.{SegmentFields}
use learn_kvm.Ioctl.Sregs.{
  KvmSegment, KvmSregs, unpack_ar, get_segment, pack_ar, set_segment, set_dtable, read_sregs,
  set_segments,
}
use learn_kvm.Vmx.Masks.{ar_unusable_mask}

-- `get_sregs` reports every segment as usable, whatever the VMCS says of it.
get_segment-usable : (seg : SegmentFields) (s : Machine) → (get_segment seg s).unusable ≡ 0
unfolding get_segment unpack_ar bit
get_segment-usable seg s =
    let ar : ℕ = vmcs_read32 seg.ar_bytes s in
    elim (Bool-cases (has ar ar_unusable_mask)) [
      | inl e ↦ rw e refl
      | inr e ↦
          let off : (bit 16 ar == 1) ≡ false = sym (has-bit 16 ar) ∙ e in
          let low : ar / 2 ^ 16 % 2 ≡ bit 16 ar = bit-shr 16 0 ar in
          rw e (bit_and-low 1 (ar / 2 ^ 16) ∙ ground arith)
    ]

-- A usable segment whose fields have their widths.
pub record Fits (var : KvmSegment) : Type 0 where
  pub limit : var.limit < 2 ^ 32
  pub selector : var.selector < 2 ^ 16
  pub type_bits : var.type_bits < 16
  pub s_bit : var.s_bit < 2
  pub dpl : var.dpl < 4
  pub present : var.present < 2
  pub avl : var.avl < 2
  pub l : var.l < 2
  pub db : var.db < 2
  pub g : var.g < 2
  pub unusable : var.unusable ≡ 0

-- The access rights as a sum.
abbrev total : KvmSegment → ℕ
total var =
    var.type_bits
    + var.s_bit * 2 ^ 4
    + var.dpl * 2 ^ 5
    + var.present * 2 ^ 7
    + var.avl * 2 ^ 12
    + var.l * 2 ^ 13
    + var.db * 2 ^ 14
    + var.g * 2 ^ 15

masked : (k x : ℕ) → x < 2 ^ k → bit_and x (2 ^ k - 1) ≡ x
masked k x h = bit_and-low k x ∙ mod-eq_of_lt h

-- What the fields of the VMCS hold after `set_segment`, read back; both ways cut off.
abbrev stored : KvmSegment → KvmSegment
stored var =
    unpack_ar var.base (u32 (u32 var.limit)) (u16 (u16 var.selector)) (u32 (u32 (pack_ar var)))

module _ (var : KvmSegment) (f : Fits var) where
  pack_ar-total : pack_ar var ≡ total var
  unfolding pack_ar
  pack_ar-total =
      let usable : (var.unusable != 0) ≡ false = ap (λ (x : ℕ). x != 0) f.unusable in
      rw
        (
          usable,
          pack_ar,
          masked 4 var.type_bits f.type_bits,
          masked 1 var.s_bit f.s_bit,
          masked 2 var.dpl f.dpl,
          masked 1 var.present f.present,
          masked 1 var.avl f.avl,
          masked 1 var.l f.l,
          masked 1 var.db f.db,
          masked 1 var.g f.g,
          or-shift 4 var.type_bits var.s_bit (omega (arith, f.type_bits)),
          or-shift 5 (var.type_bits + var.s_bit * 2 ^ 4) var.dpl
              (omega (arith, f.type_bits, f.s_bit)),
          or-shift 7 (var.type_bits + var.s_bit * 2 ^ 4 + var.dpl * 2 ^ 5) var.present
              (omega (arith, f.type_bits, f.s_bit, f.dpl)),
          or-shift 12 (var.type_bits + var.s_bit * 2 ^ 4 + var.dpl * 2 ^ 5 + var.present * 2 ^ 7)
              var.avl (omega (arith, f.type_bits, f.s_bit, f.dpl, f.present)),
          or-shift 13
              (var.type_bits
                + var.s_bit * 2 ^ 4
                + var.dpl * 2 ^ 5
                + var.present * 2 ^ 7
                + var.avl * 2 ^ 12)
              var.l (omega (arith, f.type_bits, f.s_bit, f.dpl, f.present, f.avl)),
          or-shift 14
              (var.type_bits
                + var.s_bit * 2 ^ 4
                + var.dpl * 2 ^ 5
                + var.present * 2 ^ 7
                + var.avl * 2 ^ 12
                + var.l * 2 ^ 13)
              var.db (omega (arith, f.type_bits, f.s_bit, f.dpl, f.present, f.avl, f.l)),
          or-shift 15
              (var.type_bits
                + var.s_bit * 2 ^ 4
                + var.dpl * 2 ^ 5
                + var.present * 2 ^ 7
                + var.avl * 2 ^ 12
                + var.l * 2 ^ 13
                + var.db * 2 ^ 14)
              var.g (omega (arith, f.type_bits, f.s_bit, f.dpl, f.present, f.avl, f.l, f.db)),
        )
        refl

  total-lt : total var < 2 ^ 16
  total-lt = omega (arith, f.type_bits, f.s_bit, f.dpl, f.present, f.avl, f.l, f.db, f.g)

  -- The rights of a usable segment are unpacked as they were packed.
  unpack-pack : stored var ≡ var
  unfolding unpack_ar bit
  unpack-pack =
      let t : ℕ = total var in
      let small : u32 t ≡ t = mod-eq_of_lt (omega (arith, total-lt)) in
      let limit : u32 var.limit ≡ var.limit = mod-eq_of_lt f.limit in
      let selector : u16 var.selector ≡ var.selector = mod-eq_of_lt f.selector in
      let on : has t ar_unusable_mask ≡ false =
        has-bit 16 t ∙ ap (λ (b : ℕ). b == 1) (bit_high 16 16 t total-lt (omega arith)) in
      let type_bits : bit_and t 15 ≡ var.type_bits = bit_and-low 4 t ∙ omega (arith, f.type_bits) in
      let s_bit : bit_and (t / 2 ^ 4) 1 ≡ var.s_bit =
        bit_and-low 1 (t / 2 ^ 4) ∙ omega (arith, f.type_bits, f.s_bit) in
      let dpl : bit_and (t / 2 ^ 5) 3 ≡ var.dpl =
        bit_and-low 2 (t / 2 ^ 5) ∙ omega (arith, f.type_bits, f.s_bit, f.dpl) in
      let present : bit_and (t / 2 ^ 7) 1 ≡ var.present =
        bit_and-low 1 (t / 2 ^ 7) ∙ omega (arith, f.type_bits, f.s_bit, f.dpl, f.present) in
      let avl : bit_and (t / 2 ^ 12) 1 ≡ var.avl =
        bit_and-low 1 (t / 2 ^ 12) ∙ omega (arith, f.type_bits, f.s_bit, f.dpl, f.present, f.avl) in
      let l : bit_and (t / 2 ^ 13) 1 ≡ var.l =
        bit_and-low 1 (t / 2 ^ 13)
        ∙ omega (arith, f.type_bits, f.s_bit, f.dpl, f.present, f.avl, f.l) in
      let db : bit_and (t / 2 ^ 14) 1 ≡ var.db =
        bit_and-low 1 (t / 2 ^ 14)
        ∙ omega (arith, f.type_bits, f.s_bit, f.dpl, f.present, f.avl, f.l, f.db) in
      let g : bit_and (t / 2 ^ 15) 1 ≡ var.g =
        bit_and-low 1 (t / 2 ^ 15)
        ∙ omega (arith, f.type_bits, f.s_bit, f.dpl, f.present, f.avl, f.l, f.db, f.g) in
      let unusable : bit_and (t / 2 ^ 16) 1 ≡ var.unusable =
        bit_and-low 1 (t / 2 ^ 16) ∙ omega (arith, total-lt, f.unusable) in
      rw
        (
          pack_ar-total, small, small, limit, limit, selector, selector, on, type_bits, s_bit, dpl,
          present, avl, l, db, g, unusable,
        )
        refl

-- The segments of a request, in the order of its fields.
abbrev pub segments : KvmSregs → List KvmSegment
segments r = r.cs ∷ r.ds ∷ r.es ∷ r.fs ∷ r.gs ∷ r.ss ∷ r.tr ∷ r.ldt ∷ []

segments-stored :
    (n : ℕ) (r : KvmSregs) (s : Machine)
    → segments (read_sregs n (set_segments r s))
      ≡ stored r.cs
        ∷ stored r.ds
        ∷ stored r.es
        ∷ stored r.fs
        ∷ stored r.gs
        ∷ stored r.ss
        ∷ stored r.tr
        ∷ stored r.ldt
        ∷ []
unfolding read_sregs set_segments get_segment set_segment set_dtable vmcs_readl vmcs_read32
    vmcs_read16 vmcs_writel vmcs_write32 vmcs_write16
segments-stored n r s = refl

-- The usable segments whose fields have their widths are read as `set_segments` has stored them.
pub read-set_segments :
    (n : ℕ) (r : KvmSregs) (s : Machine)
    → Fits r.cs
    → Fits r.ds
    → Fits r.es
    → Fits r.fs
    → Fits r.gs
    → Fits r.ss
    → Fits r.tr
    → Fits r.ldt
    → segments (read_sregs n (set_segments r s)) ≡ segments r
read-set_segments n r s cs ds es fs gs ss tr ldt =
    segments-stored n r s
    ∙ rw
        (
          unpack-pack r.cs cs,
          unpack-pack r.ds ds,
          unpack-pack r.es es,
          unpack-pack r.fs fs,
          unpack-pack r.gs gs,
          unpack-pack r.ss ss,
          unpack-pack r.tr tr,
          unpack-pack r.ldt ldt,
        )
        refl
