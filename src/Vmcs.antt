-- ===== src/Vmcs.antt =====
-- Access to the VMCS (`vmcs_read*`, `vmcs_write*` of src/2006-11-02/kvm-module/kvm.h and
-- kvm_main.c) and the queries that kvm.h builds on it. `vmread` and `vmwrite` are taken as a read
-- and a write of the field, on a 64-bit host; a failed `vmwrite` is only printed by the driver.
pub mod Laws
use learn_kvm.Base.{ℕ, Bool, bit_and, bit_or, u16, u32, not64, ◌==◌, ◌!=◌, if◌then◌else◌}
use learn_kvm.State.{Machine, Vcpu}
use learn_kvm.Vmx.Field
use learn_kvm.Vmx.Masks.{
  kvm_guest_cr0_mask, kvm_guest_cr4_mask, cr4_pae_mask, cr4_pse_mask, cr0_pg_mask, cr0_wp_mask,
  vm_entry_controls_ia32e_mask, selector_rpl_mask, intr_info_intr_type_mask, intr_info_vector_mask,
  intr_info_valid_mask, intr_type_exception, intr_type_ext_intr, pf_vector,
}

-- `s ▷ f` is the call `f(s)`: a sequence of statements reads from left to right.
infixl 3 ◌▷◌
abbrev pub ◌▷◌ : {A B : Type 0} → A → (A → B) → B
s ▷ f = f s

-- A C condition `x & mask`.
abbrev pub has : ℕ → ℕ → Bool
has x mask = bit_and x mask != 0

-- A write to one place of an array or of a map.
abbrev pub update {ℓ} : {A : Type ℓ} → (ℕ → A) → ℕ → A → ℕ → A
update f k v j = if k == j then v else f j

unfoldable pub vmcs_readl : ℕ → Machine → ℕ
vmcs_readl field s = s.vmcs field

unfoldable pub vmcs_read16 : ℕ → Machine → ℕ
unfolding vmcs_readl
vmcs_read16 field s = u16 (vmcs_readl field s)

unfoldable pub vmcs_read32 : ℕ → Machine → ℕ
unfolding vmcs_readl
vmcs_read32 field s = u32 (vmcs_readl field s)

unfoldable pub vmcs_writel : ℕ → ℕ → Machine → Machine
vmcs_writel field value s = record s { vmcs = update s.vmcs field value }

unfoldable pub vmcs_write16 : ℕ → ℕ → Machine → Machine
unfolding vmcs_writel
vmcs_write16 field value s = vmcs_writel field (u16 value) s

unfoldable pub vmcs_write32 : ℕ → ℕ → Machine → Machine
unfolding vmcs_writel
vmcs_write32 field value s = vmcs_writel field (u32 value) s

unfoldable pub vmcs_write64 : ℕ → ℕ → Machine → Machine
unfolding vmcs_writel
vmcs_write64 field value s = vmcs_writel field value s

unfoldable pub is_long_mode : Machine → Bool
unfolding vmcs_read32
is_long_mode s = has (vmcs_read32 Field.vm_entry_controls s) vm_entry_controls_ia32e_mask

unfoldable pub guest_cr4 : Machine → ℕ
unfolding vmcs_readl
guest_cr4 s =
    bit_or (bit_and (vmcs_readl Field.cr4_read_shadow s) kvm_guest_cr4_mask)
      (bit_and (vmcs_readl Field.guest_cr4 s) (not64 kvm_guest_cr4_mask))

unfoldable pub is_pae : Machine → Bool
unfolding guest_cr4
is_pae s = has (guest_cr4 s) cr4_pae_mask

unfoldable pub is_pse : Machine → Bool
unfolding guest_cr4
is_pse s = has (guest_cr4 s) cr4_pse_mask

unfoldable pub guest_cr0 : Machine → ℕ
unfolding vmcs_readl
guest_cr0 s =
    bit_or (bit_and (vmcs_readl Field.cr0_read_shadow s) kvm_guest_cr0_mask)
      (bit_and (vmcs_readl Field.guest_cr0 s) (not64 kvm_guest_cr0_mask))

unfoldable pub guest_cpl : Machine → ℕ
unfolding vmcs_read16
guest_cpl s = bit_and (vmcs_read16 Field.guest_cs_selector s) selector_rpl_mask

unfoldable pub is_paging : Machine → Bool
unfolding guest_cr0
is_paging s = has (guest_cr0 s) cr0_pg_mask

unfoldable pub is_write_protection : Machine → Bool
unfolding guest_cr0
is_write_protection s = has (guest_cr0 s) cr0_wp_mask

unfoldable pub is_page_fault : ℕ → Bool
is_page_fault intr_info =
    bit_and intr_info
      (bit_or (bit_or intr_info_intr_type_mask intr_info_vector_mask) intr_info_valid_mask)
    == bit_or (bit_or intr_type_exception pf_vector) intr_info_valid_mask

unfoldable pub is_external_interrupt : ℕ → Bool
is_external_interrupt intr_info =
    bit_and intr_info (bit_or intr_info_intr_type_mask intr_info_valid_mask)
    == bit_or intr_type_ext_intr intr_info_valid_mask

unfoldable pub flush_guest_tlb : Machine → Machine
unfolding vmcs_writel vmcs_readl
flush_guest_tlb s = vmcs_writel Field.guest_cr3 (vmcs_readl Field.guest_cr3 s) s

-- A field of the vcpu written.
abbrev pub on_vcpu : (Vcpu → Vcpu) → Machine → Machine
on_vcpu f s = record s { vcpu = f s.vcpu }
