-- ===== src/Debug.antt =====
-- The checks before an entry to the guest, `vm_entry_test` of src/2006-11-02/kvm-module/debug.c.
pub mod Segment
pub mod Guest
pub mod Host
pub mod Refusal
pub mod Canonical
pub mod RealMode
pub mod Start
pub mod Setup
