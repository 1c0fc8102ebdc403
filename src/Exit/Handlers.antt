-- ===== src/Exit/Handlers.antt =====
-- The handlers of exits, and the processor's mode, in src/2006-11-02/kvm-module/kvm_main.c.
use learn_kvm.Base.{
  ℕ, zero, suc, ◌+◌, ◌*◌, ◌≡◌, refl, ap, inl, inr, true, ◌&&◌, Option, Option-cases, List, ◌==◌,
  ◌!=◌, Bool-cases, bit_and, u32, u64, if◌then◌else◌,
}
use learn_kvm.State.{Machine, PagingMode, unset, nonpaging, paging64, paging32}
use learn_kvm.Run.{Outcome, done}
use learn_kvm.Run.Laws.{Ensures, ensures, faults, follow, Ends, ends, breaks}
use learn_kvm.Vmcs.{has, vmcs_readl, vmcs_writel, vmcs_write32}
use learn_kvm.GuestMemory.Copy.{kvm_read_guest}
use learn_kvm.GuestMemory.Finish.{kvm_read_guest-HasRead}
use learn_kvm.Paging.Dispatch.{mmu_inval_page}
use learn_kvm.Paging.Fault.{inval_from, paging_inval_page}
use learn_kvm.Mmu.Pages.{read64, write64, is_present_pte, release_pt_page_64}
use learn_kvm.Mmu.Nonpaging.{pt64_index}
use learn_kvm.Mmu.Context.Kept.{release-modes}
use learn_kvm.Cpu.Rmode.{inject_gp}
use learn_kvm.Cpu.Msr.{skip_emulated_instruction}
use learn_kvm.Cpu.Cr.Stays.{core, core-of_modes, inject_gp-core}
use learn_kvm.Cpu.Mode.{Agrees, agree}
use learn_kvm.Ioctl.Load.{vcpu_load_rsp_rip, vcpu_put_rsp_rip}
use learn_kvm.Irq.{handle_interrupt_window}
use learn_kvm.Exit.Report.{KvmRun, Handler}
use learn_kvm.Exit.Emulate.{Memop}
use learn_kvm.Exit.Io.{
  countr_size, scan_prefixes, get_io_count, count_io_exit, io_request, handle_io,
}
use learn_kvm.Exit.Control.{
  handle_external_interrupt, handle_invlpg, handle_dr, handle_cpuid, handle_halt,
}
use learn_kvm.Exit.Msr.{rdmsr_data, set_edx_eax, finish_rdmsr, handle_rdmsr}
use learn_kvm.Exit.Modes.{Good, skip-Agrees}
use learn_kvm.Exit.Dispatch.{unknown_exit}
use learn_kvm.Vmx.Field
use learn_kvm.Vmx.Masks.{
  x86_eflags_if, vcpu_regs_rcx, pt64_base_addr_mask, pt_page_table_level, pt_directory_level,
  pt_shadow_ps_mark,
}

-- A handler that leaves a mode in which real mode and PE agree, from every such mode.
abbrev pub IsGood : Handler → Type 0
IsGood handler = (run : KvmRun) (s : Machine) → Agrees (core s) → Good (handler run s)

pub external-IsGood : IsGood handle_external_interrupt
unfolding handle_external_interrupt
external-IsGood run s a = ensures a

pub cpuid-IsGood : IsGood handle_cpuid
unfolding handle_cpuid
cpuid-IsGood run s a = ensures a

pub window-IsGood : IsGood λ run s. done (true, run) (handle_interrupt_window s)
unfolding handle_interrupt_window vmcs_write32 vmcs_writel
window-IsGood run s a = ensures a

pub halt-IsGood : IsGood handle_halt
unfolding handle_halt
halt-IsGood run s a =
    let s' = skip_emulated_instruction s in
    elim (Bool-cases
      (s'.vcpu.irq_summary != 0 && has (vmcs_readl Field.guest_rflags s') x86_eflags_if)) [
        | inl e ↦ rw (e, handle_halt) (ensures (skip-Agrees s a))
        | inr e ↦ rw (e, handle_halt) (ensures (skip-Agrees s a))
      ]

pub dr-IsGood : IsGood handle_dr
unfolding handle_dr vcpu_load_rsp_rip vcpu_put_rsp_rip vmcs_writel
dr-IsGood run s a = elim (Bool-cases (has (vmcs_readl Field.exit_qualification s) 16)) [
  | inl e ↦ rw (e, handle_dr) (ensures (skip-Agrees _ a))
  | inr e ↦ rw (e, handle_dr) (ensures (skip-Agrees _ a))
]

pub rdmsr-IsGood : IsGood handle_rdmsr
unfolding handle_rdmsr finish_rdmsr set_edx_eax
rdmsr-IsGood run s a = elim (Option-cases (rdmsr_data (u32 (s.vcpu.regs vcpu_regs_rcx)) s)) [
  | inl e ↦ rw e (ensures (agree s (inject_gp s) (inject_gp-core s) a))
  | inr (v, e) ↦ rw e (ensures (skip-Agrees (set_edx_eax v s) a))
]

-- The scan of the instruction only reads.
pub of_Ends :
    {A F : Type 0} {P Q : A → Machine → Type 0} {r : Outcome A}
    → Ends F P r
    → ((a : A) (t : Machine) → P a t → Q a t)
    → Ensures Q r
of_Ends (ends p) next = ensures (next _ _ p)
of_Ends (breaks why) next = faults

fetched : (addr : ℕ) (s : Machine) → Ensures (λ _ t. t ≡ s) (kvm_read_guest addr 8 s)
fetched addr s = of_Ends (kvm_read_guest-HasRead addr 8 s) λ _ t p. p.0

count-Good : (s : Machine) → Ensures (λ _ t. t ≡ s) (get_io_count s)
unfolding get_io_count
count-Good s =
    let size : ℕ = countr_size s in
    let rip : ℕ = vmcs_readl Field.guest_rip s in
    let at : ℕ = if size != 8 then u64 (rip + vmcs_readl Field.guest_cs_base s) else rip in
    follow (fetched at s) λ (inst : List ℕ) t p. elim (Option-cases (scan_prefixes inst size)) [
      | inl e ↦ rw e (ensures p)
      | inr (n, e) ↦ rw e (ensures p)
    ]

pub io-IsGood : IsGood handle_io
unfolding handle_io count_io_exit io_request
io-IsGood run s a =
    let q : ℕ = vmcs_readl Field.exit_qualification s in
    let s' = count_io_exit s in
    elim (Bool-cases (has q 16)) [
      | inr e ↦ rw (e, handle_io) (ensures a)
      | inl e ↦
          rw (e, handle_io)
            (follow (count-Good s') λ (counted : Option ℕ) t p. elim (Option-cases counted) [
              | inl n ↦ rw n (ensures (agree s t (ap core p) a))
              | inr (n, c) ↦ rw c (ensures (agree s t (ap core p) a))
            ])
    ]

pub unknown-IsGood :
    (memop : Memop) (rounds tsc reason : ℕ) → IsGood (unknown_exit memop rounds tsc reason)
unfolding unknown_exit
unknown-IsGood memop rounds tsc reason run s a = ensures a

-- A walk that takes one entry out of the shadow tables is no part of the mode.
inval-core : (addr level page : ℕ) (s : Machine) → core (inval_from addr level page s) ≡ core s
unfolding inval_from write64 vmcs_writel
inval-core addr zero page s = refl
inval-core addr (suc level) page s =
    let slot : ℕ = page + 8 * pt64_index addr (suc level) in
    let e : ℕ = read64 slot s in
    let next : ℕ = bit_and e pt64_base_addr_mask in
    elim (Bool-cases (suc level == pt_page_table_level)) [
      | inl a ↦ rw (a, inval_from) refl
      | inr a ↦ elim (Bool-cases (is_present_pte e)) [
        | inr b ↦ rw (a, b, inval_from) refl
        | inl b ↦ elim (Bool-cases (suc level == pt_directory_level && has e pt_shadow_ps_mark)) [
          | inl c ↦
              let cleared : Machine = write64 slot 0 s in
              let released : Machine = release_pt_page_64 pt_page_table_level next cleared in
              rw (a, b, c, inval_from)
                (core-of_modes cleared released (release-modes pt_page_table_level next cleared))
          | inr c ↦ rw (a, b, c, inval_from) (inval-core addr level next s)
        ]
      ]
    ]

inval_page-Good : (addr : ℕ) (s : Machine) → Agrees (core s) → Good (mmu_inval_page addr s)
unfolding mmu_inval_page paging_inval_page
inval_page-Good addr s a = by_mode s.vcpu.mmu.mode refl
  where
    walked : Agrees (core (paging_inval_page addr s))
    walked =
        let counted : Machine = record s { stat = record s.stat { invlpg = s.stat.invlpg + 1 } } in
        let level : ℕ = s.vcpu.mmu.shadow_root_level in
        let root : ℕ = s.vcpu.mmu.root_hpa in
        agree s (inval_from addr level root counted) (inval-core addr level root counted) a

    by_mode : (m : PagingMode) → s.vcpu.mmu.mode ≡ m → Good (mmu_inval_page addr s)
    by_mode unset e = simp (e, mmu_inval_page) faults
    by_mode nonpaging e = simp (e, mmu_inval_page) (ensures a)
    by_mode paging64 e = simp (e, mmu_inval_page) (ensures walked)
    by_mode paging32 e = simp (e, mmu_inval_page) (ensures walked)

pub invlpg-IsGood : IsGood handle_invlpg
unfolding handle_invlpg vmcs_writel
invlpg-IsGood run s a =
    follow (inval_page-Good (vmcs_readl Field.exit_qualification s) s a) λ _ t p. ensures p
