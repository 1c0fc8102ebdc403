-- ===== src/Vmx/Masks/Reason.antt =====
-- The basic exit reasons of src/2006-11-02/kvm-module/vmx.h that have handlers.
use learn_kvm.Base.{ℕ}

abbrev pub exit_reason_exception_nmi : ℕ
exit_reason_exception_nmi = 0

abbrev pub exit_reason_external_interrupt : ℕ
exit_reason_external_interrupt = 1

abbrev pub exit_reason_pending_interrupt : ℕ
exit_reason_pending_interrupt = 7

abbrev pub exit_reason_cpuid : ℕ
exit_reason_cpuid = 10

abbrev pub exit_reason_hlt : ℕ
exit_reason_hlt = 12

abbrev pub exit_reason_invlpg : ℕ
exit_reason_invlpg = 14

abbrev pub exit_reason_cr_access : ℕ
exit_reason_cr_access = 28

abbrev pub exit_reason_dr_access : ℕ
exit_reason_dr_access = 29

abbrev pub exit_reason_io_instruction : ℕ
exit_reason_io_instruction = 30

abbrev pub exit_reason_msr_read : ℕ
exit_reason_msr_read = 31

abbrev pub exit_reason_msr_write : ℕ
exit_reason_msr_write = 32
