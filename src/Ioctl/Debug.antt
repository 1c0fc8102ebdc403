-- ===== src/Ioctl/Debug.antt =====
-- Debugging the guest and translating its addresses: `kvm_dev_ioctl_debug_guest`,
-- `kvm_guest_debug_pre` and `kvm_dev_ioctl_translate` of src/2006-11-02/kvm-module/kvm_main.c.
use learn_kvm.Base.{
  ℕ, zero, suc, ◌+◌, ◌*◌, ◌^◌, not, ◌&&◌, List, [], ◌∷◌, ◌==◌, ◌!=◌, bit_and, bit_or, not64, not32,
  if◌then◌else◌,
}
use learn_kvm.State.{Machine, GuestDebug}
use learn_kvm.Run.{Cmd, ◌>>=◌, pure, fault}
use learn_kvm.Status.{Status, success, error, enoent}
use learn_kvm.Vmcs.{◌▷◌, update, vmcs_readl, vmcs_read32, vmcs_writel, vmcs_write32, on_vcpu}
use learn_kvm.Paging.Dispatch.{mmu_gva_to_gpa}
use learn_kvm.Ioctl.Load.{checked, vcpu_load}
use learn_kvm.Vmx.Field
use learn_kvm.Vmx.Masks.{x86_eflags_tf, x86_eflags_rf, unmapped_gva}

-- struct kvm_breakpoint.
pub record KvmBreakpoint : Type 0 where
  pub enabled : ℕ
  pub address : ℕ

-- struct kvm_debug_guest; the four breakpoints as a function.
pub record KvmDebugGuest : Type 0 where
  pub vcpu : ℕ
  pub enabled : ℕ
  pub breakpoints : ℕ → KvmBreakpoint
  pub singlestep : ℕ

-- The loop over the breakpoints from `i` on: the addresses and DR7.
unfoldable pub set_breakpoints : (ℕ → KvmBreakpoint) → ℕ → ℕ → (ℕ → ℕ) → ℕ → (ℕ → ℕ) × ℕ
set_breakpoints breakpoints zero i bp dr7 = (bp, dr7)
set_breakpoints breakpoints (suc n) i bp dr7 =
    let on = (breakpoints i).enabled != 0 in
    set_breakpoints breakpoints n (i + 1) (if on then update bp i (breakpoints i).address else bp)
      (if on then bit_or dr7 (2 * 2 ^ (i * 2)) else dr7)

-- DR7 and the fields of `guest_debug`.
unfoldable pub debug_state : KvmDebugGuest → GuestDebug → GuestDebug × ℕ
debug_state dbg old =
    if dbg.enabled != 0
    then (let (bp, dr7) = set_breakpoints dbg.breakpoints 4 0 old.bp (bit_or 0x400 0x200) in
        (record { enabled = dbg.enabled; bp = bp; singlestep = dbg.singlestep }, dr7))
    else (record old { enabled = dbg.enabled; singlestep = 0 }, 0x400)

-- Debug exceptions are trapped while debugging is on.
unfoldable pub debug_bitmap : KvmDebugGuest → ℕ → ℕ
debug_bitmap dbg bitmap =
    if dbg.enabled != 0 then bit_or bitmap (2 ^ 1) else bit_and bitmap (not32 (2 ^ 1))

-- The flags of single-stepping go when it ends.
unfoldable pub end_singlestep : ℕ → Machine → Machine
end_singlestep old_singlestep s =
    if old_singlestep != 0 && s.vcpu.guest_debug.singlestep == 0
    then vmcs_writel Field.guest_rflags
        (bit_and (vmcs_readl Field.guest_rflags s) (not64 (bit_or x86_eflags_tf x86_eflags_rf))) s
    else s

unfoldable pub set_debug : KvmDebugGuest → Machine → Machine
set_debug dbg s =
    let old = s.vcpu.guest_debug in
    let bitmap = debug_bitmap dbg (vmcs_read32 Field.exception_bitmap s) in
    let (new, dr7) = debug_state dbg old in
    on_vcpu (λ v. record v { guest_debug = new }) s
    ▷ end_singlestep old.singlestep
    ▷ vmcs_write32 Field.exception_bitmap bitmap
    ▷ vmcs_writel Field.guest_dr7 dr7

unfoldable pub kvm_dev_ioctl_debug_guest : KvmDebugGuest → Machine → Status × Machine
kvm_dev_ioctl_debug_guest dbg s = checked dbg.vcpu s (λ s. (success, set_debug dbg s)) s

-- The host's debug registers that are written, in order, and the machine.
unfoldable pub kvm_guest_debug_pre : Machine → List (ℕ × ℕ) × Machine
kvm_guest_debug_pre s =
    let dbg = s.vcpu.guest_debug in
    (
      (0, dbg.bp 0) ∷ (1, dbg.bp 1) ∷ (2, dbg.bp 2) ∷ (3, dbg.bp 3) ∷ [],
      if dbg.singlestep != 0
          then vmcs_writel Field.guest_rflags
              (bit_or (vmcs_readl Field.guest_rflags s) (bit_or x86_eflags_tf x86_eflags_rf)) s
          else s,
    )

-- struct kvm_translation.
pub record KvmTranslation : Type 0 where
  pub linear_address : ℕ
  pub vcpu : ℕ
  pub physical_address : ℕ
  pub valid : ℕ
  pub writeable : ℕ
  pub usermode : ℕ

-- `tr->vcpu` is not checked against the number of vcpus; an index past the one there is leads past
-- the array, which is a fault here.
unfoldable pub kvm_dev_ioctl_translate : KvmTranslation → Cmd (Status × KvmTranslation)
kvm_dev_ioctl_translate tr s =
    if tr.vcpu != 0
    then fault
    else if not (vcpu_load s)
    then pure (error enoent, tr) s
    else (do
      gpa ← mmu_gva_to_gpa tr.linear_address
      pure (
        success,
        record tr {
          physical_address = gpa;
          valid = if gpa != unmapped_gva then 1 else 0;
          writeable = 1;
          usermode = 0;
        },
      ))
        s
