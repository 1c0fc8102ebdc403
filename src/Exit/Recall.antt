-- ===== src/Exit/Recall.antt =====
-- What a WRMSR exit stores a RDMSR exit reads: `handle_wrmsr` and `handle_rdmsr` of
-- src/2006-11-02/kvm-module/kvm_main.c.
use learn_kvm.Base.{
  ℕ, ◌+◌, ◌*◌, ◌^◌, ◌≡◌, refl, sym, ap, ◌∙◌, subst, inl, inr, true, some, List, [], ◌∷◌, ◌==◌,
  Bool-cases, arith, u32, shl64, shr,
}
use learn_kvm.Bits.{or-shift}
use learn_kvm.State.{Machine, Vcpu, MsrEntry}
use learn_kvm.Run.Laws.{Returns, returns, bind}
use learn_kvm.Cpu.Msr.{find_msr_entry, store_msr, set_guest_msr}
use learn_kvm.Cpu.Efer.{skip-vcpu}
use learn_kvm.Exit.Report.{KvmRun}
use learn_kvm.Exit.Msr.{
  is_mtrr, reads_zero, rdmsr_data, edx_eax, set_edx_eax, finish_rdmsr, handle_rdmsr, write_entry,
  store_special, write_msr, handle_wrmsr,
}
use learn_kvm.Vmx.Masks.{
  msr_syscall_mask, msr_lstar, msr_cstar, msr_kernel_gs_base, msr_k6_star, vcpu_regs_rax,
  vcpu_regs_rcx, vcpu_regs_rdx,
}

-- The registers of `vmx_msr_index` but for EFER, which is written in its own way.
pub data IsSwitched : ℕ → Type 0 where
  by_syscall_mask : IsSwitched msr_syscall_mask
  by_lstar : IsSwitched msr_lstar
  by_cstar : IsSwitched msr_cstar
  by_kernel_gs_base : IsSwitched msr_kernel_gs_base
  by_k6_star : IsSwitched msr_k6_star

-- The entry that is stored is found, with the new value.
store-find :
    (msr v : ℕ) (es : List MsrEntry) (e : MsrEntry)
    → find_msr_entry msr es ≡ some e
    → (es' : List MsrEntry) × (f : MsrEntry) × (store_msr msr v es ≡ some es')
      × (find_msr_entry msr es' ≡ some f)
      × (f.value ≡ v)
unfolding find_msr_entry store_msr
store-find msr v [] e h = absurd cc
store-find msr v (x ∷ es) e h = elim (Bool-cases (x.index == msr)) [
  | inl q ↦ (record x { value = v } ∷ es, record x { value = v }, rw q refl, rw q refl, refl)
  | inr q ↦
      let (es', f, p, found, same) = store-find msr v es e (rw q at h) in
      (x ∷ es', f, rw (q, p) refl, rw q found, same)
]

-- A switched register is read from its entry, and written to it.
rdmsr-entry :
    (msr : ℕ) (s : Machine) (e : MsrEntry)
    → IsSwitched msr
    → find_msr_entry msr s.vcpu.guest_msrs ≡ some e
    → rdmsr_data msr s ≡ some e.value
unfolding rdmsr_data reads_zero is_mtrr
rdmsr-entry msr s e by_syscall_mask h = rw h refl
rdmsr-entry msr s e by_lstar h = rw h refl
rdmsr-entry msr s e by_cstar h = rw h refl
rdmsr-entry msr s e by_kernel_gs_base h = rw h refl
rdmsr-entry msr s e by_k6_star h = rw h refl

wrmsr-entry :
    (tsc msr v : ℕ) (s : Machine)
    → IsSwitched msr
    → write_msr tsc msr v s ≡ write_entry (find_msr_entry msr s.vcpu.guest_msrs) msr v s
unfolding write_msr store_special is_mtrr
wrmsr-entry tsc msr v s by_syscall_mask = refl
wrmsr-entry tsc msr v s by_lstar = refl
wrmsr-entry tsc msr v s by_cstar = refl
wrmsr-entry tsc msr v s by_kernel_gs_base = refl
wrmsr-entry tsc msr v s by_k6_star = refl

-- EDX:EAX as one number.
edx_eax-split :
    (s : Machine)
    → edx_eax s ≡ u32 (s.vcpu.regs vcpu_regs_rax) + u32 (s.vcpu.regs vcpu_regs_rdx) * 2 ^ 32
unfolding edx_eax
edx_eax-split s =
    let lo : ℕ = s.vcpu.regs vcpu_regs_rax in
    let hi : ℕ = s.vcpu.regs vcpu_regs_rdx in
    let e : shl64 (u32 hi) 32 ≡ u32 hi * 2 ^ 32 = omega arith in
    rw e (or-shift 32 (u32 lo) (u32 hi) (omega arith))

-- The two registers after a read.
finish-regs :
    (v : ℕ) (t : Machine)
    → ((finish_rdmsr (some v) t).vcpu.regs vcpu_regs_rax ≡ u32 v)
      × ((finish_rdmsr (some v) t).vcpu.regs vcpu_regs_rdx ≡ u32 (shr v 32))
unfolding finish_rdmsr set_edx_eax
finish-regs v t =
    let same = skip-vcpu (set_edx_eax v t) in
    (ap (λ (c : Vcpu). c.regs vcpu_regs_rax) same, ap (λ (c : Vcpu). c.regs vcpu_regs_rdx) same)

-- What a RDMSR exit gives, of the value that EDX:EAX had in `s`.
abbrev pub Recalls : KvmRun → Machine → Machine → Type 0
Recalls run s t =
    Returns
      (λ _ u.
        (u.vcpu.regs vcpu_regs_rax ≡ u32 (s.vcpu.regs vcpu_regs_rax))
        × (u.vcpu.regs vcpu_regs_rdx ≡ u32 (s.vcpu.regs vcpu_regs_rdx)))
      (handle_rdmsr run t)

recall :
    (run : KvmRun) (s t : Machine) (f : MsrEntry)
    → IsSwitched (u32 (t.vcpu.regs vcpu_regs_rcx))
    → find_msr_entry (u32 (t.vcpu.regs vcpu_regs_rcx)) t.vcpu.guest_msrs ≡ some f
    → f.value ≡ edx_eax s
    → Recalls run s t
unfolding handle_rdmsr
recall run s t f switched found same =
    let (low, high) = finish-regs f.value t in
    let split = same ∙ edx_eax-split s in
    rw (rdmsr-entry (u32 (t.vcpu.regs vcpu_regs_rcx)) t f switched found)
      (returns (low ∙ omega (arith, split), high ∙ omega (arith, split)))

stored :
    (msr : ℕ) (s : Machine) (e : MsrEntry) (es : List MsrEntry)
    → store_msr msr (edx_eax s) s.vcpu.guest_msrs ≡ some es
    → Returns
        (λ _ t. t.vcpu ≡ record s.vcpu { guest_msrs = es })
        (write_entry (some e) msr (edx_eax s) s)
unfolding write_entry
stored msr s e es p = rw (p, set_guest_msr, write_entry) (returns (skip-vcpu _))

-- For a register of vmx_msr_index other than EFER, with an entry, the exit for WRMSR returns to the guest,
-- and the exit for RDMSR of the same register then gives the guest the low halves of EAX and EDX that
-- it wrote.
pub wrmsr-rdmsr :
    (tsc : ℕ) (run : KvmRun) (s : Machine) (e : MsrEntry)
    → IsSwitched (u32 (s.vcpu.regs vcpu_regs_rcx))
    → find_msr_entry (u32 (s.vcpu.regs vcpu_regs_rcx)) s.vcpu.guest_msrs ≡ some e
    → Returns (λ r t. (r ≡ (true, run)) × Recalls run s t) (handle_wrmsr tsc run s)
unfolding handle_wrmsr
wrmsr-rdmsr tsc run s e switched h =
    let msr : ℕ = u32 (s.vcpu.regs vcpu_regs_rcx) in
    let (es, f, p, found, same) = store-find msr (edx_eax s) s.vcpu.guest_msrs e h in
    rw (wrmsr-entry tsc msr (edx_eax s) s switched, h)
      (bind (stored msr s e es p) λ _ t q.
        let count : u32 (t.vcpu.regs vcpu_regs_rcx) ≡ msr =
          ap (λ (c : Vcpu). u32 (c.regs vcpu_regs_rcx)) q in
        returns (
          refl,
          recall run s t f (subst (λ (m : ℕ). IsSwitched m) (sym count) switched)
              (rw (count, q) found) same,
        ))
