-- ===== src/Ioctl.antt =====
-- The ioctls on a virtual processor, src/2006-11-02/kvm-module/kvm_main.c.
pub mod Load
pub mod Regs
pub mod Sregs
pub mod Debug
pub mod Restore
pub mod Stored
pub mod Segments
pub mod Consistent
