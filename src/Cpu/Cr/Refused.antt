-- ===== src/Cpu/Cr/Refused.antt =====
-- A #GP that does not stop the operation: `set_cr4` of src/2006-11-02/kvm-module/kvm_main.c with
-- reserved bits in the page directory pointers.
use learn_kvm.Base.{ℕ, ◌≡◌, true, false, arith, u32}
use learn_kvm.State.{Machine}
use learn_kvm.Run.{done}
use learn_kvm.Run.Laws.{Returns, returns}
use learn_kvm.Vmcs.{has, is_paging, is_pae, is_long_mode, vmcs_writel, vmcs_write32}
use learn_kvm.Mmu.Context.Kept.{reset-Kept}
use learn_kvm.Paging.Entry.{exception_info}
use learn_kvm.Cpu.Rmode.{inject_gp}
use learn_kvm.Cpu.Cr.{set_cr4, accept_cr4, load_cr4, pdptrs_have_reserved_bits_set}
use learn_kvm.Vmx.Field
use learn_kvm.Vmx.Masks.{cr4_reseved_bits, cr4_vmxe_mask, cr4_pae_mask, gp_vector}

-- Outside long mode, with paging on and PAE off, a value that turns PAE on while the page directory
-- pointers have reserved bits set is both refused and accepted: `set_cr4` returns with a #GP to be
-- delivered and with the new value in CR4's read shadow.
pub set_cr4_refused_and_loaded :
    (cr4 : ℕ) (s : Machine)
    → has cr4 cr4_reseved_bits ≡ false
    → is_long_mode s ≡ false
    → is_paging s ≡ true
    → is_pae s ≡ false
    → has cr4 cr4_pae_mask ≡ true
    → has cr4 cr4_vmxe_mask ≡ false
    → pdptrs_have_reserved_bits_set s.vcpu.cr3 s ≡ done true s
    → Returns
        (λ _ t.
          (t.vmcs Field.vm_entry_intr_info_field ≡ u32 (exception_info gp_vector))
          × (t.vmcs Field.cr4_read_shadow ≡ cr4))
        (set_cr4 cr4 s)
unfolding set_cr4 accept_cr4 inject_gp load_cr4 vmcs_writel vmcs_write32
set_cr4_refused_and_loaded cr4 s valid short paging no_pae pae no_vmxe reserved =
    let (_, same, _, _) = reset-Kept (load_cr4 cr4 (inject_gp s)) in
    rw (valid, short, paging, no_pae, pae, reserved, no_vmxe)
      (returns (
        same Field.vm_entry_intr_info_field (omega arith),
        same Field.cr4_read_shadow (omega arith),
      ))
