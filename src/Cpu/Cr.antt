-- ===== src/Cpu/Cr.antt =====
-- The control registers: `__set_cr0`, `set_cr0`, `lmsw`, `set_cr3`, `__set_cr4`, `set_cr4`,
-- `set_cr8` and the `realmode_*` functions of src/2006-11-02/kvm-module/kvm_main.c.
pub mod Load
pub mod Refused
pub mod Stays
use learn_kvm.Base.{
  ℕ, zero, suc, ◌+◌, ◌*◌, ◌/◌, ◌^◌, Bool, true, false, not, ◌&&◌, ◌||◌, ◌-◌, Option, none, some,
  ◌==◌, if◌then◌else◌, bit_and, bit_or, u32, not64, shr,
}
use learn_kvm.State.{Machine}
use learn_kvm.Run.{Cmd, ◌>>=◌, ◌>>◌, pure, act, skip, deref, read, fault}
use learn_kvm.Vmcs.{
  ◌▷◌, has, is_paging, is_pae, is_long_mode, guest_cr0, guest_cr4, vmcs_readl, vmcs_read32,
  vmcs_writel, vmcs_write32, on_vcpu,
}
use learn_kvm.Slots.{gfn_to_memslot, gfn_to_page}
use learn_kvm.Mmu.Pages.{read64}
use learn_kvm.Mmu.Context.{kvm_mmu_reset_context}
use learn_kvm.Paging.Dispatch.{mmu_new_cr3}
use learn_kvm.Cpu.Rmode.{inject_gp, enter_pmode, enter_rmode}
use learn_kvm.Cpu.Msr.{enter_lmode, exit_lmode}
use learn_kvm.Vmx.Field
use learn_kvm.Vmx.Masks.{
  page_shift, page_size, cr0_pe_mask, cr0_pg_mask, cr0_nw_mask, cr0_cd_mask, cr0_reseved_bits,
  kvm_vm_cr0_always_on, efer_lme, segment_ar_l_mask, lmsw_guest_mask, kvm_rmode_vm_cr4_always_on,
  kvm_pmode_vm_cr4_always_on, cr4_vmxe_mask, cr4_reseved_bits, cr4_pae_mask,
  cr3_l_mode_reseved_bits, cr3_reseved_bits, cr8_reseved_bits,
}

abbrev pub set_cr0_fields : ℕ → Machine → Machine
set_cr0_fields cr0 s =
    s
    ▷ vmcs_writel Field.cr0_read_shadow cr0
    ▷ vmcs_writel Field.guest_cr0 (bit_or cr0 kvm_vm_cr0_always_on)

-- The switch between real and protected mode that a value of CR0 asks for.
unfoldable pub switch_pmode : ℕ → Machine → Machine
switch_pmode cr0 s =
    let s' = if s.vcpu.rmode.active && has cr0 cr0_pe_mask then enter_pmode s else s in
    if not s'.vcpu.rmode.active && not (has cr0 cr0_pe_mask) then enter_rmode s' else s'

-- The switch into and out of long mode.
unfoldable pub switch_lmode : ℕ → Cmd (Unit {0})
switch_lmode cr0 s =
    if has s.vcpu.shadow_efer efer_lme
    then (do
      if not (is_paging s) && has cr0 cr0_pg_mask then enter_lmode else skip
      paging ← read is_paging
      if paging && not (has cr0 cr0_pg_mask) then act exit_lmode else skip)
        s
    else skip s

-- `__set_cr0`.
unfoldable pub load_cr0 : ℕ → Cmd (Unit {0})
load_cr0 cr0 = do act (switch_pmode cr0); switch_lmode cr0; act (set_cr0_fields cr0)

-- The reserved bits of a page directory pointer that is present.
unfoldable pub has_reserved_bits : ℕ → Bool
has_reserved_bits pdpte = has pdpte 1 && has pdpte 0xfffffff0000001e6

-- The loop over `n` entries of the table at `pdpt`, from entry `i`.
unfoldable pub any_reserved : ℕ → ℕ → ℕ → Machine → Bool
any_reserved zero pdpt i s = false
any_reserved (suc n) pdpt i s =
    has_reserved_bits (read64 (pdpt + 8 * i) s) || any_reserved n pdpt (i + 1) s

unfoldable pub pdptrs_have_reserved_bits_set : ℕ → Cmd Bool
pdptrs_have_reserved_bits_set cr3 s =
    (do
      (i, slot) ← deref (gfn_to_memslot s.kvm (shr cr3 page_shift))
      entry ← deref (gfn_to_page slot (shr cr3 page_shift))
      page ← deref entry
      read (any_reserved 4 (page * page_size) (shr (bit_and cr3 (page_size - 1)) 5)))
      s

-- The checks that do not read the guest's memory.
unfoldable pub is_bad_cr0 : ℕ → Bool
is_bad_cr0 cr0 =
    has cr0 cr0_reseved_bits
    || (has cr0 cr0_nw_mask && not (has cr0 cr0_cd_mask))
    || (has cr0 cr0_pg_mask && not (has cr0 cr0_pe_mask))

-- The checks on turning paging on: true is a #GP.
unfoldable pub refuses_paging : ℕ → Cmd Bool
refuses_paging cr0 s =
    if not (is_paging s) && has cr0 cr0_pg_mask
    then (if has s.vcpu.shadow_efer efer_lme
        then pure (not (is_pae s) || has (vmcs_read32 Field.guest_cs_ar_bytes s) segment_ar_l_mask)
            s
        else if is_pae s
        then pdptrs_have_reserved_bits_set s.vcpu.cr3 s
        else pure false s)
    else pure false s

unfoldable pub set_cr0 : ℕ → Cmd (Unit {0})
set_cr0 cr0 = if is_bad_cr0 cr0 then act inject_gp else (do
  refused ← refuses_paging cr0
  if refused then act inject_gp else load_cr0 cr0 >> act kvm_mmu_reset_context)

unfoldable pub lmsw : ℕ → Machine → Machine
lmsw msw s =
    let cr0 = guest_cr0 s in
    let s' =
      if has msw cr0_pe_mask && not (has cr0 cr0_pe_mask)
      then vmcs_writel Field.cr0_read_shadow (bit_or cr0 cr0_pe_mask) (enter_pmode s)
      else s in
    vmcs_writel Field.guest_cr0
      (bit_or (bit_and (vmcs_readl Field.guest_cr0 s') (not64 lmsw_guest_mask))
        (bit_and msw lmsw_guest_mask))
      s'

-- `__set_cr4`.
unfoldable pub load_cr4 : ℕ → Machine → Machine
load_cr4 cr4 s =
    s
    ▷ vmcs_writel Field.cr4_read_shadow cr4
    ▷ vmcs_writel Field.guest_cr4 (
        bit_or cr4
          (if s.vcpu.rmode.active then kvm_rmode_vm_cr4_always_on else kvm_pmode_vm_cr4_always_on))

-- The end of `set_cr4`.
unfoldable pub accept_cr4 : ℕ → Machine → Machine
accept_cr4 cr4 s =
    if has cr4 cr4_vmxe_mask then inject_gp s else kvm_mmu_reset_context (load_cr4 cr4 s)

unfoldable pub set_cr4 : ℕ → Cmd (Unit {0})
set_cr4 cr4 s =
    if has cr4 cr4_reseved_bits
    then act inject_gp s
    else if is_long_mode s
    then (if not (has cr4 cr4_pae_mask) then act inject_gp s else act (accept_cr4 cr4) s)
    else if is_paging s && not (is_pae s) && has cr4 cr4_pae_mask
    then (do
      reserved ← pdptrs_have_reserved_bits_set s.vcpu.cr3
      if reserved then act inject_gp else skip
      act (accept_cr4 cr4))
        s
    else act (accept_cr4 cr4) s

-- The checks of `set_cr3`: true is a #GP.
unfoldable pub refuses_cr3 : ℕ → Cmd Bool
refuses_cr3 cr3 s =
    if is_long_mode s
    then pure (has cr3 cr3_l_mode_reseved_bits) s
    else if has cr3 cr3_reseved_bits
    then pure true s
    else if is_paging s && is_pae s
    then pdptrs_have_reserved_bits_set cr3 s
    else pure false s

unfoldable pub set_cr3 : ℕ → Cmd (Unit {0})
set_cr3 cr3 = do
  refused ← refuses_cr3 cr3
  if refused then act inject_gp else act (on_vcpu λ v. record v { cr3 = cr3 }) >> mmu_new_cr3

unfoldable pub set_cr8 : ℕ → Machine → Machine
set_cr8 cr8 s =
    if has cr8 cr8_reseved_bits then inject_gp s else on_vcpu (λ v. record v { cr8 = cr8 }) s

unfoldable pub mk_cr_64 : ℕ → ℕ → ℕ
mk_cr_64 curr_cr new_val = bit_or (bit_and curr_cr (not64 (2 ^ 32 - 1))) (u32 new_val)

unfoldable pub realmode_get_cr : ℕ → Machine → ℕ
realmode_get_cr cr s =
    if cr == 0
    then guest_cr0 s
    else if cr == 2
    then s.vcpu.cr2
    else if cr == 3
    then s.vcpu.cr3
    else if cr == 4
    then guest_cr4 s
    else 0

-- The result is the `*rflags` that a write of CR0 stores, `none` if it is left alone.
unfoldable pub realmode_set_cr : ℕ → ℕ → Cmd (Option ℕ)
realmode_set_cr cr value s =
    if cr == 0
    then (do
      set_cr0 (mk_cr_64 (guest_cr0 s) value)
      flags ← read (vmcs_readl Field.guest_rflags)
      pure (some flags))
        s
    else if cr == 2
    then (act (on_vcpu λ v. record v { cr2 = value }) >> pure none) s
    else if cr == 3
    then (set_cr3 value >> pure none) s
    else if cr == 4
    then (set_cr4 (mk_cr_64 (guest_cr4 s) value) >> pure none) s
    else pure none s
