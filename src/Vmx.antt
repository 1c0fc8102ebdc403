-- ===== src/Vmx.antt =====
-- Constants of src/2006-11-02/kvm-module/vmx.h and kvm.h.
pub mod Field
pub mod Masks
