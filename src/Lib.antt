-- ===== src/Lib.antt =====
-- A model of the KVM driver of src/2006-11-02/kvm-module on a 64-bit host: memory slots, the shadow page
-- tables, the virtual processor's modes and registers, interrupts, the exits from the guest and the
-- ioctls; and of the library of user space above it, src/2006-11-02/libkvm/kvmctl.c.
--
-- - State: the structs of kvm.h; `Machine` is one virtual machine with one vcpu, its VMCS as a map from
--   field encodings and host memory as 64-bit words. Vmx holds the encodings of vmx.h and the masks of
--   kvm.h, mmu.c and kvm_main.c.
-- - Vmcs: `vmcs_read*`, `vmcs_write*`, `guest_cr0`, `is_paging` and the like.
-- - Run: functions that follow pointers are commands, which return, fault, or use up the rounds given to
--   a loop that only ends when the kernel has a page to give.
-- - Slots: `gfn_to_memslot`, `mark_page_dirty`, `gpa_to_hpa`.
-- - Region: `kvm_dev_ioctl_set_memory_region`. Allocators and other threads are inputs, one `Round` for
--   each pass from the label `raced`; Region.Ioctl goes on to the reset of the shadow contexts.
-- - Mmu: the pool of shadow pages, the unpaged context and the setup of contexts, mmu.c.
-- - Paging: the walks, entries and faults of paging_tmpl.h, for both entry sizes.
-- - Cpu: real mode emulation, MSRs and control registers, kvm_main.c.
-- - GuestMemory: `kvm_read_guest`, `kvm_write_guest` and the functions of `emulate_ops`, over host
--   memory by bytes. A loop gets as many rounds as there are bytes, since each round copies one or more.
-- - Irq: `kvm_dev_ioctl_interrupt`, `kvm_do_inject_irq`, `inject_rmode_irq`. The kernel's `__ffs` is a
--   parameter, the lowest bit that is set.
-- - Exit: the handlers of `kvm_vmx_exit_handlers` and `kvm_handle_exit`. `x86_emulate_memop`, a copy of
--   Xen's emulator, and the time stamp counter are parameters.
-- - Ioctl: the ioctls that read and write registers, debug the guest and translate addresses; the dirty
--   log is Slots.Log.
-- - Setup: `kvm_dev_open`, `kvm_dev_ioctl_create_vcpu`, `kvm_vcpu_setup`, `kvm_dev_release`; the record
--   `Host` is what they ask of the host.
-- - Enter: `kvm_dev_ioctl_run`. A `Pass` is one round from the label `again`: the guest's run, which is what
--   the hardware does, and what the host answers; `passes` takes one for each round.
-- - Debug: the checks before an entry of debug.c, `vm_entry_test`.
-- - User: kvmctl.c. A process runs on the machine of its file descriptor and on the `opaque` of its callbacks,
--   and calls the ioctls of the other modules; User.Memory is its view of the guest's memory, with
--   `kvm_dev_nopage`. `kvm_run` takes the passes of each call of the driver; `handle_io` takes a bound on its
--   rounds, for which one more than the count of the request is enough.
-- - Base, Bits: shared names, tests and the laws of bitwise operations.
-- - Examples: concrete runs.
--
-- Loops over lists, levels and entries are structural; `nonpaging_page_fault` and `fetch_shadow` take a
-- bound on their rounds. Not modelled: locks, what other threads do outside of
-- Region, printing, reference counts of pages (`kmap`), the
-- instruction emulator, the assembler between the driver and the guest, the dumps of debug.c, the
-- module's registration, the copies between user space and the kernel, the loader libkvm/main.c, and the
-- later external module linux-2.6.30-kvm-kmod, which is copies of Linux and wrappers around it.
mod Base
pub mod Bits
pub mod Vmx
pub mod State
pub mod User
pub mod Vmcs
pub mod Run
pub mod Status
pub mod Slots
pub mod Region
pub mod Mmu
pub mod Paging
pub mod Cpu
pub mod Ioctl
pub mod GuestMemory
mod Examples
pub mod Irq
pub mod Exit
pub mod Setup
pub mod Enter
pub mod Debug
