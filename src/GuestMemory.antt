-- ===== src/GuestMemory.antt =====
-- Reading and writing the guest's memory from the host.
pub mod Bytes
pub mod Copy
pub mod Emulator
pub mod Finish
