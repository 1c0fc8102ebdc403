-- ===== src/Setup.antt =====
-- Making and freeing virtual processors, src/2006-11-02/kvm-module/kvm_main.c.
pub mod Host
pub mod Guest
pub mod Controls
pub mod Vcpu
pub mod Release
pub mod Reset
