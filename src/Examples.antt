-- ===== src/Examples.antt =====
-- Tests and concrete runs of the driver.
mod Machines
mod Slots
mod User
mod Cpu
mod Mmu
mod Irq
mod Ioctl
mod Setup
mod Exit
mod Debug
mod Enter
