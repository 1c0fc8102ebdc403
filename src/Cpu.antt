-- ===== src/Cpu.antt =====
-- The virtual processor's modes and registers, src/2006-11-02/kvm-module/kvm_main.c.
pub mod Segment
pub mod Rmode
pub mod Msr
pub mod Mode
pub mod Efer
pub mod Cr
pub mod Real
