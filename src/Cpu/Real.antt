-- ===== src/Cpu/Real.antt =====
-- The `realmode_*` functions for the descriptor tables and LMSW of src/2006-11-02/kvm-module/kvm_main.c.
use learn_kvm.Base.{ℕ}
use learn_kvm.State.{Machine}
use learn_kvm.Vmcs.{vmcs_readl, vmcs_writel, vmcs_write32}
use learn_kvm.Cpu.Cr.{lmsw}
use learn_kvm.Vmx.Field

unfoldable pub realmode_lgdt : ℕ → ℕ → Machine → Machine
realmode_lgdt limit base s =
    vmcs_write32 Field.guest_gdtr_limit limit (vmcs_writel Field.guest_gdtr_base base s)

unfoldable pub realmode_lidt : ℕ → ℕ → Machine → Machine
realmode_lidt limit base s =
    vmcs_write32 Field.guest_idtr_limit limit (vmcs_writel Field.guest_idtr_base base s)

-- The first component is the `*rflags` that is stored.
unfoldable pub realmode_lmsw : ℕ → Machine → ℕ × Machine
realmode_lmsw msw s = let s' = lmsw msw s in (vmcs_readl Field.guest_rflags s', s')
