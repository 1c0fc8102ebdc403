-- ===== src/Debug/Setup.antt =====
-- `kvm_vcpu_setup` of src/2006-11-02/kvm-module/kvm_main.c against the checks of debug.c.
use learn_kvm.Base.{
  ℕ, ◌+◌, arith, ◌≡◌, refl, sym, ap, ◌∙◌, subst, inl, inr, true, false, Option, none, some,
  Option-cases, List, [], ◌∷◌, length,
}
use learn_kvm.State.{Machine, MsrEntry, Vcpu}
use learn_kvm.Run.{done}
use learn_kvm.Run.Laws.{Returns, returns, Ensures, ensures, ensured, follow, deref-Ensures}
use learn_kvm.Status.{success}
use learn_kvm.Vmcs.{
  has, update, is_paging, guest_cr0, on_vcpu, vmcs_readl, vmcs_read32, vmcs_writel, vmcs_write16,
  vmcs_write32, vmcs_write64,
}
use learn_kvm.Mmu.Root.{IsPlentiful, alloc-HasBlank, init-Rooted, Rooted}
use learn_kvm.Mmu.Context.{kvm_mmu_init, alloc_mmu_pages, init_kvm_mmu}
use learn_kvm.Mmu.Pages.{clear_page}
use learn_kvm.Cpu.Rmode.{enter_rmode, update_exception_bitmap}
use learn_kvm.Cpu.Segment.{fix_rmode_seg}
use learn_kvm.Cpu.Msr.{load_efer, set_guest_msr, set_shadow_efer, clear_ia32e}
use learn_kvm.Cpu.Cr.{switch_pmode, switch_lmode, load_cr0, load_cr4, set_cr0_fields}
use learn_kvm.Cpu.Cr.Load.{store_msr-some}
use learn_kvm.GuestMemory.Bytes.{write_bytes, write_byte}
use learn_kvm.Slots.{gfn_to_memslot, gfn_to_page}
use learn_kvm.Setup.Host.{Host, vmcs_write32_fixedbits}
use learn_kvm.Setup.Guest.{
  reset_registers, setup_segment, setup_segments, setup_guest_state, init_rmode_tss, init_tss_pages,
  _gfn_to_page, fill_tss,
}
use learn_kvm.Setup.Controls.{
  setup_execution, setup_host_state, good_msrs, unwritten, vmx_msr_index, setup_msrs,
  setup_switches,
}
use learn_kvm.Setup.Vcpu.{enter_reset, setup_vmcs, setup_lists, kvm_vcpu_setup}
use learn_kvm.Setup.Reset.{Entry, Entry-++, good_msrs-Entry, alloc-modes}
use learn_kvm.Debug.Guest.{vm_entry_test_guest}
use learn_kvm.Debug.Start.{reset_machine, enterable}
use learn_kvm.Vmx.Field
use learn_kvm.Vmx.Masks.{efer_lme, msr_efer, kvm_num_mmu_pages}

-- The task state segment is memory of the guest.
bytes-vcpu : (a : ℕ) (bs : List ℕ) (s : Machine) → (write_bytes a bs s).vcpu ≡ s.vcpu
unfolding write_bytes write_byte
bytes-vcpu a [] s = refl
bytes-vcpu a (b ∷ bs) s = bytes-vcpu (a + 1) bs (write_byte a b s)

tss_pages-vcpu :
    (c : Vcpu) (p1 p2 p3 : Option ℕ) (s : Machine)
    → s.vcpu ≡ c
    → Ensures (λ _ t. t.vcpu ≡ c) (init_tss_pages p1 p2 p3 s)
unfolding init_tss_pages fill_tss write_byte clear_page
tss_pages-vcpu c (some p1) (some p2) (some p3) s e = ensures (bytes-vcpu _ _ _ ∙ e)
tss_pages-vcpu c (some p1) (some p2) none s e = ensures e
tss_pages-vcpu c (some p1) none p3 s e = ensures e
tss_pages-vcpu c none p2 p3 s e = ensures e

page-Same : (gfn : ℕ) (s : Machine) → Ensures (λ _ t. t ≡ s) (_gfn_to_page gfn s)
unfolding _gfn_to_page
page-Same gfn s = elim (Option-cases (gfn_to_memslot s.kvm gfn)) [
  | inl e ↦ rw (e, _gfn_to_page) (ensures refl)
  | inr ((i, slot), e) ↦ rw (e, _gfn_to_page) (deref-Ensures (gfn_to_page slot gfn) s)
]

tss-vcpu : (s : Machine) → Ensures (λ _ t. t.vcpu ≡ s.vcpu) (init_rmode_tss s)
unfolding init_rmode_tss
tss-vcpu s = follow (page-Same _ s) λ p1 t e. follow (page-Same _ t) λ p2 u f.
    follow (page-Same _ u)
      λ p3 v g. tss_pages-vcpu s.vcpu p1 p2 p3 v (ap (λ (m : Machine). m.vcpu) (g ∙ f ∙ e))

tss-done : (s t : Machine) → init_rmode_tss s ≡ done true t → t.vcpu ≡ s.vcpu
tss-done s t e = ensured (subst (λ r. Ensures (λ _ t. t.vcpu ≡ s.vcpu) r) e (tss-vcpu s))

-- A new virtual processor is not in real mode yet and has no EFER.
module _ (s : Machine) (inactive : s.vcpu.rmode.active ≡ false)
    (no_efer : s.vcpu.shadow_efer ≡ 0) where
  enters : switch_pmode 0x60000010 s ≡ enter_rmode s
  unfolding switch_pmode
  enters = simp (inactive) refl

  short : has (enter_rmode s).vcpu.shadow_efer efer_lme ≡ false
  unfolding enter_rmode update_exception_bitmap fix_rmode_seg vmcs_writel vmcs_write16 vmcs_write32
  short = ap (λ (e : ℕ). has e efer_lme) no_efer

  load-done : load_cr0 0x60000010 s ≡ done tt (set_cr0_fields 0x60000010 (enter_rmode s))
  unfolding load_cr0 switch_lmode
  load-done = rw (enters, switch_lmode, short) refl

-- The shadow context: the guest does not page, so that CR3 gets the address of a blank page.
module _ (host : Host) (guest own : ℕ) (s m : Machine) (plenty : IsPlentiful host.mmu_page)
    (e : m.vmcs ≡ (reset_machine host guest own s).vmcs) where
  got : Machine
  got = (alloc_mmu_pages kvm_num_mmu_pages 0 host.mmu_page m).1

  got-vmcs : got.vmcs ≡ (reset_machine host guest own s).vmcs
  unfolding got
  got-vmcs = ap (λ x. x.0) (alloc-modes kvm_num_mmu_pages 0 host.mmu_page m) ∙ e

  unpaged : is_paging (reset_machine host guest own s) ≡ false
  unfolding is_paging guest_cr0 vmcs_readl vmcs_write32 vmcs_writel load_cr4
  unpaged = refl

  got-unpaged : is_paging got ≡ false
  unfolding is_paging guest_cr0 vmcs_readl
  got-unpaged =
      subst (λ (v : ℕ → ℕ). is_paging (record got { vmcs = v }) ≡ false) (sym got-vmcs) unpaged

  rooted : Rooted got (init_kvm_mmu got)
  unfolding got
  rooted = init-Rooted got (alloc-HasBlank 255 0 host.mmu_page m plenty (omega arith)).1 got-unpaged

  mmu_init-passes :
      ((kvm_mmu_init host.mmu_page m).0 ≡ success)
      × (vm_entry_test_guest (kvm_mmu_init host.mmu_page m).1 ≡ true)
  unfolding kvm_mmu_init got
  mmu_init-passes =
      let ok : (alloc_mmu_pages kvm_num_mmu_pages 0 host.mmu_page m).0 ≡ success =
        (alloc-HasBlank 255 0 host.mmu_page m plenty (omega arith)).0 in
      rw (ok, kvm_mmu_init)
        (
          refl,
          enterable host guest own rooted.root s (init_kvm_mmu got) rooted.page
              (rooted.vmcs ∙ ap (λ (v : ℕ → ℕ). update v Field.guest_cr3 rooted.root) got-vmcs),
        )

-- The entry of EFER and its shadow are no fields of the VMCS.
efer-vmcs :
    (es : List MsrEntry) (x : Machine)
    → (on_vcpu (λ v. record v { guest_msrs = es }) (clear_ia32e (set_shadow_efer 0 x))).vmcs
      ≡ (clear_ia32e x).vmcs
unfolding vmcs_write32 vmcs_writel vmcs_read32
efer-vmcs es x = refl

module _ (host : Host) (guest own : ℕ) (s : Machine) (plenty : IsPlentiful host.mmu_page) where
  abbrev ready : Machine
  ready = setup_switches host guest own (setup_msrs host (setup_vmcs host s))

  reset-passes :
      s.vcpu.rmode.active ≡ false
      → s.vcpu.shadow_efer ≡ 0
      → Entry msr_efer ready.vcpu.guest_msrs
      → Returns (λ r u. (r ≡ success) × (vm_entry_test_guest u ≡ true)) (enter_reset host ready)
  unfolding enter_reset load_efer load_cr4 enter_rmode update_exception_bitmap fix_rmode_seg
      setup_vmcs setup_segments setup_segment setup_guest_state setup_execution setup_host_state
      reset_registers vmcs_write32_fixedbits setup_switches setup_msrs vmcs_writel vmcs_write16
      vmcs_write32 vmcs_write64
  reset-passes inactive no_efer (e, h) =
      let (es, p) = store_msr-some msr_efer 0 ready.vcpu.guest_msrs e h in
      let x : Machine = load_cr4 0 (set_cr0_fields 0x60000010 (enter_rmode ready)) in
      let m : Machine =
        on_vcpu (λ v. record v { guest_msrs = es }) (clear_ia32e (set_shadow_efer 0 x)) in
      rw (load-done ready inactive no_efer, p, set_guest_msr)
        (returns (mmu_init-passes host guest own s m plenty (efer-vmcs es x)))

-- With pages for the task state segment, arrays for the registers, an EFER on the host and a page below 1 TiB
-- for every header, kvm_vcpu_setup of a new virtual processor succeeds, and the guest that it leaves passes
-- every check of vm_entry_test_guest.
pub vcpu_setup-passes :
    (host : Host) (s t : Machine) (guest own efer : ℕ)
    → init_rmode_tss s ≡ done true t
    → host.guest_msrs ≡ some guest
    → host.host_msrs ≡ some own
    → host.rdmsr msr_efer ≡ some efer
    → IsPlentiful host.mmu_page
    → s.vcpu.rmode.active ≡ false
    → s.vcpu.shadow_efer ≡ 0
    → Returns (λ r u. (r ≡ success) × (vm_entry_test_guest u ≡ true)) (kvm_vcpu_setup host s)
unfolding kvm_vcpu_setup setup_lists setup_msrs setup_switches vmcs_writel vmcs_write32
    vmcs_write32_fixedbits
vcpu_setup-passes host s t guest own efer tss g o has_efer plenty inactive no_efer =
    let same : t.vcpu ≡ s.vcpu = tss-done s t tss in
    let msrs : List MsrEntry = (setup_vmcs host t).vcpu.guest_msrs in
    simp (tss, g, o, setup_lists)
      (reset-passes host guest own t plenty (ap (λ (v : Vcpu). v.rmode.active) same ∙ inactive)
        (ap (λ (v : Vcpu). v.shadow_efer) same ∙ no_efer)
        (Entry-++ msr_efer (unwritten host (length msrs)) (good_msrs host vmx_msr_index)
          (good_msrs-Entry host msr_efer efer vmx_msr_index has_efer refl)))
