-- ===== src/Paging/Fault.antt =====
-- The page fault handler and `fix_write_pf` of src/2006-11-02/kvm-module/paging_tmpl.h, and
-- `paging_inval_page` of mmu.c.
use learn_kvm.Base.{
  ℕ, zero, suc, ◌+◌, ◌*◌, Bool, true, false, not, ◌&&◌, ◌||◌, ◌==◌, if◌then◌else◌, bit_and, bit_or,
  not64, shr,
}
use learn_kvm.State.{Machine}
use learn_kvm.Run.{Cmd, ◌>>=◌, ◌>>◌, pure, act, read, out_of_fuel}
use learn_kvm.Vmcs.{has, is_write_protection, vmcs_writel}
use learn_kvm.Slots.{mark_page_dirty}
use learn_kvm.Mmu.Pages.{
  read64, write64, is_present_pte, is_writeble_pte, is_io_pte, release_pt_page_64,
}
use learn_kvm.Mmu.Nonpaging.{pt64_index, nonpaging_flush}
use learn_kvm.Paging.Guest.{
  PtType, read_element, write_element, GuestWalker, init_walker, fetch_guest,
}
use learn_kvm.Paging.Entry.{inject_page_fault, fix_read_pf, may_access}
use learn_kvm.Paging.Fetch.{Fetched, entry, not_mapped, no_memory, fetch}
use learn_kvm.Vmx.Field
use learn_kvm.Vmx.Masks.{
  page_shift, pt_writable_mask, pt_user_mask, pt_dirty_mask, pt_shadow_writable_mask,
  pt_shadow_user_mask, pt_shadow_ps_mark, pt64_base_addr_mask, pt_page_table_level,
  pt_directory_level, pferr_present_mask, pferr_write_mask, pferr_user_mask, cr3_pcd_mask,
  cr3_wpt_mask,
}

-- What the first half of `fix_write_pf` decides: give up, or go on with the entry as it is or
-- without its user bit.
pub data WriteCheck : Type 0 where
  refuse keep take_user : WriteCheck

unfoldable pub check_write : ℕ → Bool → Bool → WriteCheck
check_write shadow_ent user write_protection =
    let writable_shadow = has shadow_ent pt_shadow_writable_mask in
    if is_writeble_pte shadow_ent
    then refuse
    else if user
    then (if not (has shadow_ent pt_shadow_user_mask) || not writable_shadow then refuse else keep)
    else if writable_shadow
    then keep
    else if write_protection
    then refuse
    else take_user

-- The second half: the guest's entry becomes dirty and the shadow entry at `shadow_ent` writable.
unfoldable pub allow_write : PtType → ℕ → GuestWalker → ℕ → Cmd Bool
allow_write t shadow_ent walker addr = do
  (guest_ent, walker') ← fetch_guest t walker pt_page_table_level addr
  pte ← read (read_element t guest_ent)
  if not (is_present_pte pte) then act (write64 shadow_ent 0) >> pure false else do
    mark_page_dirty (shr (bit_and pte pt64_base_addr_mask) page_shift)
    act λ s. write64 shadow_ent (bit_or (read64 shadow_ent s) pt_writable_mask) s
    act λ s. write_element t guest_ent (bit_or (read_element t guest_ent s) pt_dirty_mask) s
    pure true

unfoldable pub fix_write_pf : PtType → ℕ → GuestWalker → ℕ → Bool → Cmd Bool
fix_write_pf t shadow_ent walker addr user s =
    elim (check_write (read64 shadow_ent s) user (is_write_protection s)) [
      | refuse ↦ pure false s
      | keep ↦ allow_write t shadow_ent walker addr s
      | take_user ↦
          allow_write t shadow_ent walker addr
            (write64 shadow_ent (bit_and (read64 shadow_ent s) (not64 pt_user_mask)) s)
    ]

-- The lookup, with a bound on its rounds: without a page the unit is flushed and it starts again.
unfoldable pub fetch_shadow : PtType → ℕ → ℕ → Cmd (Fetched × GuestWalker)
fetch_shadow t zero addr = λ s. out_of_fuel
fetch_shadow t (suc rounds) addr =
    let again = fetch_shadow t rounds addr in
    do
      walker ← init_walker
      (found, walker') ← fetch t addr walker
      elim found [
        | no_memory ↦ act nonpaging_flush >> again
        | entry e ↦ pure (entry e, walker')
        | not_mapped ↦ pure (not_mapped, walker')
      ]

-- After the fix: emulate an accessible mmio address, or hand the fault to the guest if it is its
-- own, or resume.
unfoldable pub settle_fault : ℕ → ℕ → ℕ → Bool → Cmd Bool
settle_fault shadow_pte addr error_code fixed s =
    let pte = read64 shadow_pte s in
    if is_io_pte pte
    then (if may_access pte (has error_code pferr_write_mask) (has error_code pferr_user_mask)
        then pure true s
        else pure false (inject_page_fault addr (bit_or error_code pferr_present_mask) s))
    else if has error_code pferr_present_mask && not fixed
    then pure false (inject_page_fault addr error_code s)
    else pure false (record s { stat = record s.stat { pf_fixed = s.stat.pf_fixed + 1 } })

-- `fix_read_pf` on an entry in memory.
unfoldable pub fix_read : ℕ → Cmd Bool
fix_read shadow_pte s =
    let (pte, fixed) = fix_read_pf (read64 shadow_pte s) in pure fixed (write64 shadow_pte pte s)

-- True asks for emulation.
unfoldable pub paging_page_fault : PtType → ℕ → ℕ → ℕ → Cmd Bool
paging_page_fault t rounds addr error_code = do
  (found, walker) ← fetch_shadow t rounds addr
  elim found [
    | not_mapped ↦ act (inject_page_fault addr error_code) >> pure false
    | no_memory ↦ λ s. out_of_fuel
    | entry shadow_pte ↦ do
      fixed ←
          (if has error_code pferr_write_mask
            then fix_write_pf t shadow_pte walker addr (has error_code pferr_user_mask)
            else fix_read shadow_pte)
      settle_fault shadow_pte addr error_code fixed
  ]

-- The loop of `paging_inval_page` at `level`, on the table at `page_addr`.
unfoldable pub inval_from : ℕ → ℕ → ℕ → Machine → Machine
inval_from addr zero page_addr s = s
inval_from addr (suc level) page_addr s =
    let slot = page_addr + 8 * pt64_index addr (suc level) in
    let e = read64 slot s in
    let next = bit_and e pt64_base_addr_mask in
    elim (suc level == pt_page_table_level) [
      | true ↦ write64 slot 0 s
      | false ↦ elim (is_present_pte e) [
        | false ↦ s
        | true ↦ elim (suc level == pt_directory_level && has e pt_shadow_ps_mark) [
          | true ↦
              let released = release_pt_page_64 pt_page_table_level next (write64 slot 0 s) in
              vmcs_writel Field.guest_cr3
                (bit_or released.vcpu.mmu.root_hpa
                  (bit_and released.vcpu.cr3 (bit_or cr3_pcd_mask cr3_wpt_mask)))
                released
          | false ↦ inval_from addr level next s
        ]
      ]
    ]

unfoldable pub paging_inval_page : ℕ → Machine → Machine
paging_inval_page addr s =
    inval_from addr s.vcpu.mmu.shadow_root_level s.vcpu.mmu.root_hpa
      (record s { stat = record s.stat { invlpg = s.stat.invlpg + 1 } })
