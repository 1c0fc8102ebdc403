-- ===== src/Ioctl/Stored.antt =====
-- The segments through both ioctls, `kvm_dev_ioctl_set_sregs` and `kvm_dev_ioctl_get_sregs` of
-- src/2006-11-02/kvm-module/kvm_main.c: what follows the segments in the first leaves them alone.
use mathlib.Core.Path.{fun_ext}
use learn_kvm.Base.{
  ℕ, ◌<◌, ◌≡◌, refl, sym, ap, ◌∙◌, inl, inr, Bool, true, false, leb, some, List, ◌==◌, Bool-cases,
  arith, eq_of_==, bit_and, not64, if◌then◌else◌, ◌≢◌,
}
use learn_kvm.State.{Machine, MsrEntry, Vcpu}
use learn_kvm.Run.Laws.{Returns, returns, bind, weaken}
use learn_kvm.Status.{success}
use learn_kvm.Vmcs.{
  has, update, vmcs_readl, vmcs_read32, vmcs_read16, vmcs_writel, vmcs_write32, vmcs_write16,
}
use learn_kvm.Mmu.Context.{kvm_mmu_reset_context}
use learn_kvm.Mmu.Context.Kept.{reset-Kept}
use learn_kvm.Cpu.Rmode.{update_exception_bitmap, set_active}
use learn_kvm.Cpu.Msr.{find_msr_entry, load_efer, set_guest_msr}
use learn_kvm.Cpu.Cr.{load_cr4}
use learn_kvm.Cpu.Cr.Load.{store_msr-some}
use learn_kvm.Ioctl.Load.{checked, vcpu_load}
use learn_kvm.Ioctl.Sregs.{
  KvmSegment, KvmSregs, read_sregs, get_segment, set_segments, set_segment, set_dtable, set_crs,
  force_cr0, mmu_reset_needed, write_sregs, kvm_dev_ioctl_get_sregs, kvm_dev_ioctl_set_sregs,
}
use learn_kvm.Ioctl.Consistent.{segments-msrs}
use learn_kvm.Ioctl.Segments.{Fits, segments, read-set_segments}
use learn_kvm.Vmx.Field
use learn_kvm.Vmx.Masks.{kvm_max_vcpus, cr0_pe_mask, msr_efer, efer_lma, efer_lme}

-- The segments that `kvm_dev_ioctl_get_sregs` reads, and whether there is a VMCS.
abbrev seen : ℕ → Machine → List KvmSegment × Bool
seen n s = (segments (read_sregs n s), s.vcpu.vmcs)

module _ (n : ℕ) where
  efer_entry-seen :
      (v : ℕ) (s : Machine) (e : MsrEntry)
      → find_msr_entry msr_efer s.vcpu.guest_msrs ≡ some e
      → Returns (λ _ t. seen n t ≡ seen n s) (set_guest_msr msr_efer v s)
  unfolding read_sregs get_segment vmcs_readl vmcs_read32 vmcs_read16
  efer_entry-seen v s e h =
      let (es, p) = store_msr-some msr_efer v s.vcpu.guest_msrs e h in
      rw (p, set_guest_msr) (returns refl)

  load_efer-seen :
      (efer : ℕ) (s : Machine) (e : MsrEntry)
      → find_msr_entry msr_efer s.vcpu.guest_msrs ≡ some e
      → Returns (λ _ t. seen n t ≡ seen n s) (load_efer efer s)
  unfolding load_efer vmcs_write32 vmcs_writel read_sregs get_segment vmcs_readl vmcs_read32
      vmcs_read16
  load_efer-seen efer s e h = elim (Bool-cases (has efer efer_lma)) [
    | inl q ↦ rw (q, load_efer) (weaken (efer_entry-seen efer _ e h) λ _ t p. p)
    | inr q ↦
        rw (q, load_efer)
          (weaken (efer_entry-seen (bit_and efer (not64 efer_lme)) _ e h) λ _ t p. p)
  ]

  bitmap-seen : (s : Machine) → seen n (update_exception_bitmap s) ≡ seen n s
  unfolding update_exception_bitmap vmcs_write32 vmcs_writel read_sregs get_segment vmcs_readl
      vmcs_read32 vmcs_read16
  bitmap-seen s = elim (Bool-cases s.vcpu.rmode.active) [
    | inl e ↦ simp (e, update_exception_bitmap) refl
    | inr e ↦ simp (e, update_exception_bitmap) refl
  ]

  forced-seen : (cr0 cr4 : ℕ) (s : Machine) → seen n (load_cr4 cr4 (force_cr0 cr0 s)) ≡ seen n s
  unfolding load_cr4 force_cr0 vmcs_writel read_sregs get_segment vmcs_readl vmcs_read32 vmcs_read16
  forced-seen cr0 cr4 s = bitmap-seen (set_active (bit_and cr0 cr0_pe_mask == 0) s)

  -- The segments stand in fields that the shadow root is not among.
  root-seen :
      (s t : Machine)
      → t.vcpu.vmcs ≡ s.vcpu.vmcs
      → ((f : ℕ) → f ≢ Field.guest_cr3 → t.vmcs f ≡ s.vmcs f)
      → seen n t ≡ seen n s
  unfolding read_sregs get_segment vmcs_readl vmcs_read32 vmcs_read16
  root-seen s t loaded same =
      let segs : (ℕ → ℕ) → List KvmSegment = λ w. segments (read_sregs n (record s { vmcs = w })) in
      let p : segs t.vmcs ≡ segs s.vmcs = ap segs (fun_ext λ f. but_root f) in
      ap (λ (x : List KvmSegment). (x, t.vcpu.vmcs)) p ∙ ap (λ (b : Bool). (segs s.vmcs, b)) loaded
    where
      but_root : (f : ℕ) → t.vmcs f ≡ update s.vmcs Field.guest_cr3 (t.vmcs Field.guest_cr3) f
      but_root f = elim (Bool-cases (Field.guest_cr3 == f)) [
        | inl e ↦ rw e (ap t.vmcs (sym (eq_of_== Field.guest_cr3 f e)))
        | inr e ↦ rw e (same f (ground arith))
      ]

  reset-seen :
      (b : Bool) (s : Machine) → seen n ((if b then kvm_mmu_reset_context else λ t. t) s) ≡ seen n s
  reset-seen false s = refl
  reset-seen true s = let (_, v, _, l) = reset-Kept s in root-seen s (kvm_mmu_reset_context s) l v

  -- What follows the segments leaves them, and the VMCS.
  write_sregs-seen :
      (r : KvmSregs) (s : Machine) (e : MsrEntry)
      → find_msr_entry msr_efer s.vcpu.guest_msrs ≡ some e
      → Returns (λ _ t. seen n t ≡ seen n (set_segments r s)) (write_sregs r s)
  unfolding write_sregs set_crs read_sregs get_segment vmcs_readl vmcs_read32 vmcs_read16
  write_sregs-seen r s e h =
      let s' = set_crs r (set_segments r s) in
      let found = ap (λ (m : List MsrEntry). find_msr_entry msr_efer m) (segments-msrs r s) ∙ h in
      bind (load_efer-seen r.efer s' e found) λ _ t p.
        let t' = record t { vcpu = record t.vcpu { apic_base = r.apic_base } } in
        let u : Machine = load_cr4 r.cr4 (force_cr0 r.cr0 t') in
        returns (reset-seen (mmu_reset_needed r s t') u ∙ forced-seen r.cr0 r.cr4 t' ∙ p)

set_segments-vcpu : (r : KvmSregs) (s : Machine) → (set_segments r s).vcpu ≡ s.vcpu
unfolding set_segments set_segment set_dtable vmcs_writel vmcs_write32 vmcs_write16
set_segments-vcpu r s = refl

-- For the vcpu that is there, with an EFER entry, and for usable segments whose fields have their widths,
-- kvm_dev_ioctl_set_sregs succeeds, and kvm_dev_ioctl_get_sregs then succeeds and reads the eight segments that
-- were stored.
pub get_sregs-set_sregs :
    (r : KvmSregs) (s : Machine) (e : MsrEntry)
    → r.vcpu < kvm_max_vcpus
    → s.vcpu.vmcs ≡ true
    → find_msr_entry msr_efer s.vcpu.guest_msrs ≡ some e
    → Fits r.cs
    → Fits r.ds
    → Fits r.es
    → Fits r.fs
    → Fits r.gs
    → Fits r.ss
    → Fits r.tr
    → Fits r.ldt
    → Returns
        (λ status t.
          (status ≡ success)
          × ((kvm_dev_ioctl_get_sregs r t).0 ≡ success)
          × (segments (kvm_dev_ioctl_get_sregs r t).1 ≡ segments r))
        (kvm_dev_ioctl_set_sregs r s)
unfolding kvm_dev_ioctl_set_sregs kvm_dev_ioctl_get_sregs checked vcpu_load
get_sregs-set_sregs r s e one there found cs ds es fs gs ss tr ldt =
    let fits : leb kvm_max_vcpus r.vcpu ≡ false = ground arith in
    let stored = read-set_segments r.vcpu r s cs ds es fs gs ss tr ldt in
    simp (fits, there, checked, kvm_dev_ioctl_set_sregs)
      (bind (write_sregs-seen r.vcpu r s e found) λ _ t p.
        let loaded : t.vcpu.vmcs ≡ true =
          ap (λ (x : List KvmSegment × Bool). x.1) p
          ∙ ap (λ (v : Vcpu). v.vmcs) (set_segments-vcpu r s)
          ∙ there in
        returns (
          refl,
          simp loaded refl,
          simp loaded (ap (λ (x : List KvmSegment × Bool). x.0) p ∙ stored),
        ))
