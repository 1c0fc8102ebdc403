-- ===== src/Paging.antt =====
-- Shadowing a guest that pages: src/2006-11-02/kvm-module/paging_tmpl.h, which the driver compiles
-- once for 64-bit and once for 32-bit guest entries, and the parts of mmu.c that it uses.
pub mod Rights
pub mod Mmio
pub mod Guest
pub mod Entry
pub mod Fetch
pub mod Fault
pub mod Dispatch
pub mod Reads
