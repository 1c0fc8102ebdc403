-- ===== src/Paging/Fetch.antt =====
-- `fetch` of src/2006-11-02/kvm-module/paging_tmpl.h: the shadow entry of an address, built from
-- the guest's tables where it is missing.
use learn_kvm.Base.{
  ℕ, zero, suc, ◌+◌, ◌*◌, true, false, not, ◌&&◌, ◌||◌, Option, none, some, ◌==◌, ◌!=◌, ltb,
  if◌then◌else◌, bit_and, bit_or,
}
use learn_kvm.State.{Machine}
use learn_kvm.Run.{Cmd, ◌>>=◌, ◌>>◌, pure, act, read, fault}
use learn_kvm.Vmcs.{is_long_mode}
use learn_kvm.Mmu.Pages.{
  read64, write64, is_present_pte, is_io_pte, is_valid_page, kvm_mmu_alloc_page,
}
use learn_kvm.Mmu.Nonpaging.{pt64_index}
use learn_kvm.Paging.Guest.{
  PtType, is_pt64, pt_index, pt_non_pte_copy_mask, read_element, write_element, GuestWalker,
  fetch_guest,
}
use learn_kvm.Paging.Entry.{set_pte, set_pde}
use learn_kvm.Vmx.Masks.{
  pt_present_mask, pt_writable_mask, pt_user_mask, pt_pwt_mask, pt_pcd_mask, pt_accessed_mask,
  pt_shadow_ps_mark, pt64_base_addr_mask, pt32_root_level, pt_page_table_level, pt_directory_level,
}

-- The pointer that `fetch` returns: an entry, NULL, or ERR_PTR(-ENOMEM).
pub data Fetched : Type 0 where
  entry : ℕ → Fetched
  not_mapped no_memory : Fetched

-- The level of the guest's table that `level` of the shadow is built from.
unfoldable pub guest_level : PtType → ℕ → ℕ
guest_level t level =
    if not (is_pt64 t) && ltb pt32_root_level level then pt32_root_level else level

-- The entry of an upper level, for a new table.
unfoldable pub table_entry : PtType → ℕ → ℕ → ℕ → Machine → ℕ
table_entry t level shadow_addr guest_ent s =
    if not (is_long_mode s) && level == 3
    then bit_or shadow_addr
        (bit_and guest_ent (bit_or (bit_or pt_present_mask pt_pwt_mask) pt_pcd_mask))
    else bit_or (bit_or shadow_addr (bit_and guest_ent (pt_non_pte_copy_mask t)))
        (bit_or pt_writable_mask pt_user_mask)

-- `*prev_shadow_ent |= PT_SHADOW_PS_MARK`, if there is one.
unfoldable pub mark_large : Option ℕ → Machine → Machine
mark_large none s = s
mark_large (some prev) s = write64 prev (bit_or (read64 prev s) pt_shadow_ps_mark) s

-- The accessed bit is not set in the guest's PAE page directory pointers.
unfoldable pub mark_accessed : PtType → ℕ → ℕ → Machine → Machine
mark_accessed t walker_level guest_ent s =
    if s.vcpu.mmu.root_level != 3 || walker_level != 3
    then write_element t guest_ent (bit_or (read_element t guest_ent s) pt_accessed_mask) s
    else s

-- The last level: the entry is made of the guest's page table or large page entry.
unfoldable pub install_leaf : PtType → ℕ → GuestWalker → ℕ → ℕ → Option ℕ → Cmd (Unit {0})
install_leaf t addr walker guest_ent shadow_ent prev =
    if walker.level == pt_directory_level
    then (do
      act (mark_large prev)
      pde ← read (read_element t guest_ent)
      set_pde t pde shadow_ent walker.inherited_ar (pt_index t addr pt_page_table_level))
    else (do pte ← read (read_element t guest_ent); set_pte t pte shadow_ent walker.inherited_ar)

-- The loop at `level`, on the table at `shadow_addr`; `prev` is the entry above.
unfoldable pub fetch_from :
    PtType → ℕ → ℕ → ℕ → Option ℕ → GuestWalker → Cmd (Fetched × GuestWalker)
fetch_from t addr zero shadow_addr prev walker = λ s. fault
fetch_from t addr (suc level) shadow_addr prev walker = λ s.
    let shadow_ent = shadow_addr + 8 * pt64_index addr (suc level) in
    let e = read64 shadow_ent s in
    let last = suc level == pt_page_table_level in
    elim (is_present_pte e || is_io_pte e) [
      | true ↦ elim last [
        | true ↦ pure (entry shadow_ent, walker) s
        | false ↦ fetch_from t addr level (bit_and e pt64_base_addr_mask) (some shadow_ent) walker s
      ]
      | false ↦
          (do
            (guest_ent, walker') ← fetch_guest t walker (guest_level t (suc level)) addr
            pte ← read (read_element t guest_ent)
            elim (is_present_pte pte) [
              | false ↦ pure (not_mapped, walker')
              | true ↦ do
                act (mark_accessed t walker'.level guest_ent)
                elim last [
                  | true ↦ do
                    install_leaf t addr walker' guest_ent shadow_ent prev
                    pure (entry shadow_ent, walker')
                  | false ↦ λ s'.
                      let (new_table, s'') = kvm_mmu_alloc_page shadow_ent s' in
                      elim (is_valid_page new_table) [
                        | false ↦ pure (no_memory, walker') s''
                        | true ↦
                            let linked =
                              table_entry t (suc level) new_table (read_element t guest_ent s'')
                                s'' in
                            fetch_from t addr level new_table (some shadow_ent) walker'
                              (write64 shadow_ent linked s'')
                      ]
                ]
            ])
            s
    ]

unfoldable pub fetch : PtType → ℕ → GuestWalker → Cmd (Fetched × GuestWalker)
fetch t addr walker s =
    fetch_from t addr s.vcpu.mmu.shadow_root_level s.vcpu.mmu.root_hpa none walker s
