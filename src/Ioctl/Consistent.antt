-- ===== src/Ioctl/Consistent.antt =====
-- The mode that `kvm_dev_ioctl_set_sregs` of src/2006-11-02/kvm-module/kvm_main.c leaves.
use learn_kvm.Base.{
  ℕ, ◌^◌, ◌<◌, ◌≡◌, refl, ap, ◌∙◌, inl, inr, Bool, true, false, not, leb, some, List, ◌==◌, ◌!=◌,
  Bool-cases, arith, bit_and, not64, if◌then◌else◌,
}
use learn_kvm.State.{Machine, MsrEntry, Rmode, Vcpu}
use learn_kvm.Run.Laws.{Returns, returns, bind}
use learn_kvm.Status.{success}
use learn_kvm.Vmcs.{has, guest_cr0, vmcs_writel, vmcs_write32, vmcs_write16}
use learn_kvm.Mmu.Context.{kvm_mmu_reset_context}
use learn_kvm.Mmu.Context.Kept.{reset-Kept}
use learn_kvm.Cpu.Rmode.{update_exception_bitmap, set_active}
use learn_kvm.Cpu.Msr.{find_msr_entry, load_efer, set_guest_msr}
use learn_kvm.Cpu.Cr.{load_cr4}
use learn_kvm.Cpu.Cr.Load.{InMode, cr0-read_back, vmcs-read_back, store_msr-some}
use learn_kvm.Ioctl.Load.{checked, vcpu_load}
use learn_kvm.Ioctl.Sregs.{
  KvmSregs, set_segments, set_segment, set_dtable, set_crs, force_cr0, mmu_reset_needed,
  write_sregs, kvm_dev_ioctl_set_sregs,
}
use learn_kvm.Vmx.Masks.{kvm_max_vcpus, cr0_pe_mask, msr_efer, efer_lma, efer_lme}

-- The guest reads `cr0`, and is emulated in the mode that it asks for.
abbrev pub Forced : ℕ → Machine → Type 0
Forced cr0 t = InMode cr0 t × (guest_cr0 t ≡ cr0)

bitmap-vcpu : (s : Machine) → (update_exception_bitmap s).vcpu ≡ s.vcpu
unfolding update_exception_bitmap vmcs_write32 vmcs_writel
bitmap-vcpu s = elim (Bool-cases s.vcpu.rmode.active) [
  | inl e ↦ simp (e, update_exception_bitmap) refl
  | inr e ↦ simp (e, update_exception_bitmap) refl
]

-- A test against 0 and its opposite.
zero_test : (x : ℕ) → (x == 0) ≡ not (x != 0)
zero_test x = ground arith

module _ (cr0 cr4 : ℕ) (s : Machine) (small : cr0 < 2 ^ 64) where
  forced : Forced cr0 (load_cr4 cr4 (force_cr0 cr0 s))
  unfolding load_cr4 force_cr0 guest_cr0 vmcs_writel
  forced =
      let s' = update_exception_bitmap (set_active (bit_and cr0 cr0_pe_mask == 0) s) in
      (
        ap (λ (v : Vcpu). v.rmode.active)
              (bitmap-vcpu (set_active (bit_and cr0 cr0_pe_mask == 0) s))
            ∙ zero_test (bit_and cr0 cr0_pe_mask),
        cr0-read_back cr0 s' small,
      )

reset-Forced :
    (b : Bool) (cr0 : ℕ) (u : Machine)
    → Forced cr0 u
    → Forced cr0 ((if b then kvm_mmu_reset_context else λ t. t) u)
reset-Forced false cr0 u p = p
reset-Forced true cr0 u p =
    let (r, v, _, _) = reset-Kept u in
    (ap (λ (x : Rmode). x.active) r ∙ p.0, vmcs-read_back u (kvm_mmu_reset_context u) v ∙ p.1)

-- EFER can be loaded.
abbrev Loads : Machine → Type 0
Loads s = (e : MsrEntry) × (find_msr_entry msr_efer s.vcpu.guest_msrs ≡ some e)

store-Returns :
    (v : ℕ) (s : Machine) → Loads s → Returns (λ _ t. Unit {0}) (set_guest_msr msr_efer v s)
store-Returns v s (e, h) =
    let (es, p) = store_msr-some msr_efer v s.vcpu.guest_msrs e h in
    rw (p, set_guest_msr) (returns tt)

load_efer-Returns :
    (efer : ℕ) (s : Machine) → Loads s → Returns (λ _ t. Unit {0}) (load_efer efer s)
unfolding load_efer vmcs_write32 vmcs_writel
load_efer-Returns efer s h = elim (Bool-cases (has efer efer_lma)) [
  | inl e ↦ rw (e, load_efer) (store-Returns efer _ h)
  | inr e ↦ rw (e, load_efer) (store-Returns (bit_and efer (not64 efer_lme)) _ h)
]

pub segments-msrs :
    (r : KvmSregs) (s : Machine)
    → (set_crs r (set_segments r s)).vcpu.guest_msrs ≡ s.vcpu.guest_msrs
unfolding set_crs set_segments set_segment set_dtable vmcs_writel vmcs_write32 vmcs_write16
segments-msrs r s = refl

-- For the vcpu that is there, with an EFER entry, `kvm_dev_ioctl_set_sregs` returns success for any value of
-- 64 bits for CR0: the guest reads that value back, and real mode is emulated exactly when its PE bit is
-- clear, whatever mode the processor was in.
pub set_sregs-Forced :
    (r : KvmSregs) (s : Machine) (e : MsrEntry)
    → r.vcpu < kvm_max_vcpus
    → s.vcpu.vmcs ≡ true
    → r.cr0 < 2 ^ 64
    → find_msr_entry msr_efer s.vcpu.guest_msrs ≡ some e
    → Returns (λ status t. (status ≡ success) × Forced r.cr0 t) (kvm_dev_ioctl_set_sregs r s)
unfolding kvm_dev_ioctl_set_sregs checked vcpu_load write_sregs
set_sregs-Forced r s e one there small h =
    let fits : leb kvm_max_vcpus r.vcpu ≡ false = ground arith in
    let s' = set_crs r (set_segments r s) in
    let loads : Loads s' =
      (e, ap (λ (m : List MsrEntry). find_msr_entry msr_efer m) (segments-msrs r s) ∙ h) in
    simp (fits, there, checked, kvm_dev_ioctl_set_sregs)
      (bind {P = λ _ t. Forced r.cr0 t}
        (bind (load_efer-Returns r.efer s' loads) λ _ t _.
          let t' = record t { vcpu = record t.vcpu { apic_base = r.apic_base } } in
          returns (
            reset-Forced (mmu_reset_needed r s t') r.cr0 (load_cr4 r.cr4 (force_cr0 r.cr0 t'))
              (forced r.cr0 r.cr4 t' small)))
        λ _ u p. returns (refl, p))
