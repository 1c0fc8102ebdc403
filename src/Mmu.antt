-- ===== src/Mmu.antt =====
-- The shadow memory management unit, src/2006-11-02/kvm-module/mmu.c.
pub mod Pages
pub mod Pool
pub mod Fill
pub mod Protect
pub mod Nonpaging
pub mod Context
pub mod Root
