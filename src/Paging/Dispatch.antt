-- ===== src/Paging/Dispatch.antt =====
-- The function pointers of struct kvm_mmu (src/2006-11-02/kvm-module/kvm.h) as the context
-- functions of mmu.c install them, and `gva_to_hpa`.
use learn_kvm.Base.{ℕ, ◌==◌, if◌then◌else◌}
use learn_kvm.State.{unset, nonpaging, paging64, paging32}
use learn_kvm.Run.{Cmd, ◌>>=◌, pure, act, skip, fault}
use learn_kvm.Slots.{gpa_to_hpa}
use learn_kvm.Mmu.Pages.{kvm_mmu_flush_tlb}
use learn_kvm.Mmu.Nonpaging.{nonpaging_page_fault}
use learn_kvm.Paging.Guest.{pt64, pt32, paging_gva_to_gpa}
use learn_kvm.Paging.Fault.{paging_page_fault, paging_inval_page}
use learn_kvm.Vmx.Masks.{unmapped_gva}
use learn_kvm.Base.{Bool}

unfoldable pub mmu_new_cr3 : Cmd (Unit {0})
mmu_new_cr3 s = elim s.vcpu.mmu.mode [
  | unset ↦ fault
  | nonpaging ↦ skip s
  | paging64 ↦ act kvm_mmu_flush_tlb s
  | paging32 ↦ act kvm_mmu_flush_tlb s
]

unfoldable pub mmu_page_fault : ℕ → ℕ → ℕ → Cmd Bool
mmu_page_fault rounds gva err s = elim s.vcpu.mmu.mode [
  | unset ↦ fault
  | nonpaging ↦ nonpaging_page_fault rounds gva s
  | paging64 ↦ paging_page_fault pt64 rounds gva err s
  | paging32 ↦ paging_page_fault pt32 rounds gva err s
]

unfoldable pub mmu_inval_page : ℕ → Cmd (Unit {0})
mmu_inval_page gva s = elim s.vcpu.mmu.mode [
  | unset ↦ fault
  | nonpaging ↦ skip s
  | paging64 ↦ act (paging_inval_page gva) s
  | paging32 ↦ act (paging_inval_page gva) s
]

unfoldable pub mmu_gva_to_gpa : ℕ → Cmd ℕ
mmu_gva_to_gpa gva s = elim s.vcpu.mmu.mode [
  | unset ↦ fault
  | nonpaging ↦ pure gva s
  | paging64 ↦ paging_gva_to_gpa pt64 gva s
  | paging32 ↦ paging_gva_to_gpa pt32 gva s
]

unfoldable pub gva_to_hpa : ℕ → Cmd ℕ
gva_to_hpa gva = do
  gpa ← mmu_gva_to_gpa gva
  if gpa == unmapped_gva then pure unmapped_gva else gpa_to_hpa gpa
