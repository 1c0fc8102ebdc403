-- ===== src/Setup/Reset.antt =====
-- The state that a new virtual processor starts in: the end of `kvm_vcpu_setup` of
-- src/2006-11-02/kvm-module/kvm_main.c.
use learn_kvm.Base.{
  ℕ, zero, suc, ◌+◌, ◌/◌, ◌^◌, u64, ◌<◌, leb, ◌≡◌, refl, ap, ◌∙◌, inl, inr, Bool, true, false, ◌||◌,
  Option, none, some, Option-cases, List, [], ◌∷◌, ◌++◌, ◌==◌, Bool-cases, eq_of_==, arith, length,
}
use learn_kvm.State.{Kvm, Machine, MsrEntry, Rmode}
use learn_kvm.Run.{done}
use learn_kvm.Run.Laws.{Returns, returns, bind, weaken}
use learn_kvm.Status.{Status, success, error}
use learn_kvm.Vmcs.{has, is_paging, guest_cr0, vmcs_readl, vmcs_writel, vmcs_write32}
use learn_kvm.Mmu.Pages.{clear_page}
use learn_kvm.Mmu.Context.{
  kvm_mmu_init, alloc_mmu_pages, free_mmu_pages, free_mmu_pages_list, init_kvm_mmu,
}
use learn_kvm.Mmu.Context.Kept.{modes, init-Kept}
use learn_kvm.Cpu.Rmode.{rmode_tss_base}
use learn_kvm.Cpu.Msr.{find_msr_entry, load_efer, set_guest_msr, exit_lmode}
use learn_kvm.Cpu.Cr.{switch_pmode, switch_lmode, load_cr0, load_cr4}
use learn_kvm.Cpu.Cr.Load.{switch_pmode-Switched, store_msr-some, cr0-read_back, vmcs-read_back}
use learn_kvm.Ioctl.Consistent.{Forced}
use learn_kvm.Setup.Host.{Host, vmcs_write32_fixedbits}
use learn_kvm.Slots.{gfn_to_memslot, find_slot}
use learn_kvm.Setup.Guest.{init_rmode_tss, init_tss_pages, _gfn_to_page}
use learn_kvm.Setup.Controls.{good_msrs, unwritten, vmx_msr_index, setup_msrs, setup_switches}
use learn_kvm.Setup.Vcpu.{
  enter_reset, setup_vmcs, setup_lists, kvm_vcpu_setup, fail_vcpu, kvm_dev_ioctl_create_vcpu,
}
use learn_kvm.Vmx.Masks.{kvm_max_vcpus, efer_lme, msr_efer, kvm_num_mmu_pages}

abbrev reset_cr0 : ℕ
reset_cr0 = 0x60000010

-- An entry for `msr`.
abbrev pub Entry : ℕ → List MsrEntry → Type 0
Entry msr es = (e : MsrEntry) × (find_msr_entry msr es ≡ some e)

pub Entry-++ : (msr : ℕ) (xs ys : List MsrEntry) → Entry msr ys → Entry msr (xs ++ ys)
unfolding find_msr_entry
Entry-++ msr [] ys h = h
Entry-++ msr (x ∷ xs) ys h = elim (Bool-cases (x.index == msr)) [
  | inl e ↦ (x, rw e refl)
  | inr e ↦ let (f, p) = Entry-++ msr xs ys h in (f, rw e p)
]

abbrev pub listed : ℕ → List ℕ → Bool
listed msr [] = false
listed msr (i ∷ is) = i == msr || listed msr is

-- A listed register that the host has gets an entry.
pub good_msrs-Entry :
    (host : Host) (msr v : ℕ) (indices : List ℕ)
    → host.rdmsr msr ≡ some v
    → listed msr indices ≡ true
    → Entry msr (good_msrs host indices)
unfolding good_msrs find_msr_entry
good_msrs-Entry host msr v [] has_it h = absurd cc
good_msrs-Entry host msr v (i ∷ is) has_it h = elim (Bool-cases (i == msr)) [
  | inl e ↦
      let there : host.rdmsr i ≡ some v = ap host.rdmsr (eq_of_== i msr e) ∙ has_it in
      (record { index = i; value = v }, rw (there, good_msrs, e) refl)
  | inr e ↦
      let rest = good_msrs-Entry host msr v is has_it (rw e at h) in
      elim (Option-cases (host.rdmsr i)) [
        | inl q ↦ (rest.0, rw (q, good_msrs) rest.1)
        | inr (w, q) ↦ (rest.0, rw (q, good_msrs, e) rest.1)
      ]
]

-- Long mode is not entered by a value with PG clear.
abbrev Same : Machine → Machine → Type 0
Same s t = (t.vcpu.rmode ≡ s.vcpu.rmode) × (t.vcpu.guest_msrs ≡ s.vcpu.guest_msrs)

switch_lmode-Same : (s : Machine) → Returns (λ _ t. Same s t) (switch_lmode reset_cr0 s)
unfolding switch_lmode exit_lmode vmcs_write32 vmcs_writel
switch_lmode-Same s = elim (Bool-cases (has s.vcpu.shadow_efer efer_lme)) [
  | inr e ↦ rw (e, switch_lmode) (returns (refl, refl))
  | inl e ↦ elim (Bool-cases (is_paging s)) [
    | inl p ↦ rw (e, p, p, switch_lmode) (returns (refl, refl))
    | inr p ↦ rw (e, p, p, switch_lmode) (returns (refl, refl))
  ]
]

load_cr0-Forced :
    (s : Machine)
    → Returns
        (λ _ t. Forced reset_cr0 t × (t.vcpu.guest_msrs ≡ s.vcpu.guest_msrs))
        (load_cr0 reset_cr0 s)
unfolding load_cr0 vmcs_writel guest_cr0
load_cr0-Forced s =
    let (m, f) = switch_pmode-Switched reset_cr0 s in
    bind (switch_lmode-Same (switch_pmode reset_cr0 s)) λ _ t p.
      returns
        ((ap (λ (x : Rmode). x.active) p.0 ∙ m, cr0-read_back reset_cr0 t (omega arith)), p.1 ∙ f)

load_efer-Forced :
    (c : ℕ) (s : Machine)
    → Entry msr_efer s.vcpu.guest_msrs
    → Forced c s
    → Returns (λ _ t. Forced c t) (load_efer 0 s)
unfolding load_efer vmcs_write32 vmcs_writel guest_cr0 vmcs_readl
load_efer-Forced c s (e, h) f =
    let (es, p) = store_msr-some msr_efer 0 s.vcpu.guest_msrs e h in
    rw (p, set_guest_msr) (returns f)

load_cr4-Forced : (c cr4 : ℕ) (s : Machine) → Forced c s → Forced c (load_cr4 cr4 s)
unfolding load_cr4 vmcs_writel guest_cr0 vmcs_readl
load_cr4-Forced c cr4 s f = f

-- The pool of shadow pages is no part of the mode.
free_list-modes : (hs : List ℕ) (s : Machine) → modes (free_mmu_pages_list hs s) ≡ modes s
unfolding free_mmu_pages_list
free_list-modes [] s = refl
free_list-modes (h ∷ hs) s = free_list-modes hs _

pub alloc-modes :
    (n i : ℕ) (alloc : ℕ → Option ℕ) (s : Machine) → modes (alloc_mmu_pages n i alloc s).1 ≡ modes s
unfolding alloc_mmu_pages free_mmu_pages clear_page
alloc-modes zero i alloc s = refl
alloc-modes (suc n) i alloc s = elim (Option-cases (alloc i)) [
  | inl e ↦ rw (e, alloc_mmu_pages) (free_list-modes s.vcpu.free_pages s)
  | inr (page, e) ↦ rw (e, alloc_mmu_pages) (alloc-modes n (i + 1) alloc _)
]

modes-Forced : (c : ℕ) (s t : Machine) → modes t ≡ modes s → Forced c s → Forced c t
unfolding guest_cr0 vmcs_readl
modes-Forced c s t e f = (
  ap (λ (m : (ℕ → ℕ) × Rmode × Kvm × Bool). m.1.active) e ∙ f.0,
  vmcs-read_back s t (λ k _. ap (λ (m : (ℕ → ℕ) × Rmode × Kvm × Bool). m.0 k) e) ∙ f.1,
)

init-Forced : (c : ℕ) (s : Machine) → Forced c s → Forced c (init_kvm_mmu s)
init-Forced c s f =
    let (r, v, _, _) = init-Kept s in
    (ap (λ (m : Rmode). m.active) r ∙ f.0, vmcs-read_back s (init_kvm_mmu s) v ∙ f.1)

mmu_init-Forced :
    (c : ℕ) (alloc : ℕ → Option ℕ) (s : Machine) → Forced c s → Forced c (kvm_mmu_init alloc s).1
unfolding kvm_mmu_init
mmu_init-Forced c alloc s f = by_status _ refl
  where
    got : Machine
    got = (alloc_mmu_pages kvm_num_mmu_pages 0 alloc s).1

    pool : Forced c got
    pool = modes-Forced c s got (alloc-modes kvm_num_mmu_pages 0 alloc s) f

    by_status :
        (r : Status)
        → (alloc_mmu_pages kvm_num_mmu_pages 0 alloc s).0 ≡ r
        → Forced c (kvm_mmu_init alloc s).1
    by_status success e = rw (e, kvm_mmu_init) (init-Forced c got pool)
    by_status (error x) e = rw (e, kvm_mmu_init) pool

enter_reset-Forced :
    (host : Host) (s : Machine)
    → Entry msr_efer s.vcpu.guest_msrs
    → Returns (λ _ t. Forced reset_cr0 t) (enter_reset host s)
unfolding enter_reset load_cr4 vmcs_writel
enter_reset-Forced host s (e, h) = bind (load_cr0-Forced s) λ _ t (p, q).
    bind
      (load_efer-Forced reset_cr0 (load_cr4 0 t)
        (e, ap (λ (m : List MsrEntry). find_msr_entry msr_efer m) q ∙ h)
        (load_cr4-Forced reset_cr0 0 t p))
      λ _ u r. returns (mmu_init-Forced reset_cr0 host.mmu_page u r)

-- With pages for the task state segment, arrays for the registers and an EFER on the host, `kvm_vcpu_setup`
-- returns, with enough shadow pages or without, and the guest starts in emulated real mode with the value
-- 0x60000010 of CR0.
pub vcpu_setup-Forced :
    (host : Host) (s t : Machine) (guest own efer : ℕ)
    → init_rmode_tss s ≡ done true t
    → host.guest_msrs ≡ some guest
    → host.host_msrs ≡ some own
    → host.rdmsr msr_efer ≡ some efer
    → Returns
        (λ _ u. (guest_cr0 u ≡ 0x60000010) × (u.vcpu.rmode.active ≡ true))
        (kvm_vcpu_setup host s)
unfolding kvm_vcpu_setup setup_msrs setup_switches vmcs_writel vmcs_write32 vmcs_write32_fixedbits
    setup_lists
vcpu_setup-Forced host s t guest own efer tss g o has_efer =
    let ready = setup_vmcs host t in
    let entry : Entry msr_efer
        (setup_switches host guest own (setup_msrs host ready)).vcpu.guest_msrs =
      Entry-++ msr_efer (unwritten host (length ready.vcpu.guest_msrs))
        (good_msrs host vmx_msr_index)
        (good_msrs-Entry host msr_efer efer vmx_msr_index has_efer refl) in
    simp (tss, g, o, setup_lists)
      (weaken
        (enter_reset-Forced host (setup_switches host guest own (setup_msrs host ready)) entry)
        λ _ u p. (p.1, p.0))

-- Without a memory slot there is no page for the task state segment.
no_slot : (gfn : ℕ) (s : Machine) → s.kvm.nmemslots ≡ 0 → gfn_to_memslot s.kvm gfn ≡ none
unfolding gfn_to_memslot find_slot
no_slot gfn s e = ap (λ (n : ℕ). find_slot n 0 s.kvm.memslots gfn) e

no_page : (gfn : ℕ) (s : Machine) → s.kvm.nmemslots ≡ 0 → _gfn_to_page gfn s ≡ done none s
unfolding _gfn_to_page
no_page gfn s e = rw (no_slot gfn s e, _gfn_to_page) refl

no_tss : (s : Machine) → s.kvm.nmemslots ≡ 0 → init_rmode_tss s ≡ done false s
unfolding init_rmode_tss init_tss_pages
no_tss s e =
    let fn = rmode_tss_base s.kvm / 2 ^ 12 in
    rw (no_page fn s e, no_page (u64 (fn + 1)) s e, no_page (u64 (fn + 2)) s e) refl

-- Before the guest has memory `kvm_dev_ioctl_create_vcpu` succeeds, and the virtual processor that is there
-- from then on has had nothing but its VMCS set up: its registers, its modes and its shadow context are
-- as they were.
pub create_vcpu-IsBare :
    (host : Host) (n : ℕ) (s : Machine)
    → n < kvm_max_vcpus
    → s.vcpu.vmcs ≡ false
    → host.vmcs_page ≡ true
    → s.kvm.nmemslots ≡ 0
    → kvm_dev_ioctl_create_vcpu host n s
      ≡ done success (record s { vcpu = record s.vcpu { vmcs = true; launched = 0 } })
unfolding kvm_dev_ioctl_create_vcpu kvm_vcpu_setup fail_vcpu
create_vcpu-IsBare host n s one fresh page empty =
    let fits : leb kvm_max_vcpus n ≡ false = ground arith in
    let s' = record s { vcpu = record s.vcpu { vmcs = true; launched = 0 } } in
    simp (fits, fresh, page, no_tss s' empty, kvm_dev_ioctl_create_vcpu) refl
