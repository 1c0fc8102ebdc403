-- ===== src/Exit.antt =====
-- The exits from the guest: the handlers of src/2006-11-02/kvm-module/kvm_main.c and their table. A
-- handler's result is true when the guest may go on, and false when user space has something to do.
pub mod Report
pub mod Emulate
pub mod Exception
pub mod Io
pub mod Control
pub mod Msr
pub mod Dispatch
pub mod Pending
pub mod Recall
pub mod Modes
pub mod Handlers
pub mod Steps
