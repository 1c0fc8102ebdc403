-- ===== src/State.antt =====
-- The driver's state: the structs of src/2006-11-02/kvm-module/kvm.h and the host memory that the
-- shadow page tables live in.
use learn_kvm.Base.{ℕ, Bool, Option, List}

-- struct kvm_mmu_page. Headers are named by their index in `page_header_buf`; `parent_pte` is the
-- address of an entry, 0 for NULL.
pub record MmuPage : Type 0 where
  pub page_hpa : ℕ
  pub slot_bitmap : ℕ
  pub global : ℕ
  pub parent_pte : ℕ

-- The function tables that the `*_init_context` functions install in struct kvm_mmu.
pub data PagingMode : Type 0 where
  unset nonpaging paging64 paging32 : PagingMode

-- struct kvm_mmu, its five function pointers read as one mode.
pub record KvmMmu : Type 0 where
  pub mode : PagingMode
  pub root_hpa : ℕ
  pub root_level : ℕ
  pub shadow_root_level : ℕ

-- An array from `vmalloc`: its address, by which the driver compares pointers, and its items.
pub record Vmalloc (A : Type 0) : Type 0 where
  pub address : ℕ
  pub items : List A

-- struct kvm_memory_slot, `none` for a NULL pointer. A `struct page *` is its page frame number.
-- The dirty bitmap is an array of 64-bit words.
pub record MemorySlot : Type 0 where
  pub base_gfn : ℕ
  pub npages : ℕ
  pub flags : ℕ
  pub phys_mem : Option (Vmalloc (Option ℕ))
  pub dirty_bitmap : Option (Vmalloc ℕ)

-- struct kvm, less its lock and the array of one vcpu.
pub record Kvm : Type 0 where
  pub nmemslots : ℕ
  pub memslots : List MemorySlot
  pub active_mmu_pages : List ℕ
  pub memory_config_version : ℕ
  pub busy : ℕ

-- struct vmx_msr_entry.
pub record MsrEntry : Type 0 where
  pub index : ℕ
  pub value : ℕ

-- The saved task register of `rmode.tr`.
pub record TrSave : Type 0 where
  pub base : ℕ
  pub limit : ℕ
  pub ar : ℕ

-- The anonymous struct `rmode`.
pub record Rmode : Type 0 where
  pub active : Bool
  pub save_iopl : ℕ
  pub tr : TrSave

-- struct kvm_guest_debug.
pub record GuestDebug : Type 0 where
  pub enabled : ℕ
  pub bp : ℕ → ℕ
  pub singlestep : ℕ

-- The mmio fields of struct kvm_vcpu; `mmio_data` is the eight bytes as one little-endian word.
pub record Mmio : Type 0 where
  pub needed : Bool
  pub read_completed : Bool
  pub is_write : Bool
  pub size : ℕ
  pub bytes : ℕ
  pub phys_addr : ℕ

-- struct kvm_vcpu. `vmcs` says whether the pointer is set; the fields of the VMCS itself are in
-- `Machine`.
pub record Vcpu : Type 0 where
  pub vmcs : Bool
  pub launched : ℕ
  pub irq_summary : ℕ
  pub irq_pending : ℕ → ℕ
  pub regs : ℕ → ℕ
  pub rip : ℕ
  pub cr2 : ℕ
  pub cr3 : ℕ
  pub cr8 : ℕ
  pub shadow_efer : ℕ
  pub apic_base : ℕ
  pub guest_msrs : List MsrEntry
  pub free_pages : List ℕ
  pub page_header_buf : ℕ → MmuPage
  pub mmu : KvmMmu
  pub guest_debug : GuestDebug
  pub mmio : Mmio
  pub rmode : Rmode

-- struct kvm_stat.
pub record KvmStat : Type 0 where
  pub pf_fixed : ℕ
  pub pf_guest : ℕ
  pub tlb_flush : ℕ
  pub invlpg : ℕ
  pub exits : ℕ
  pub io_exits : ℕ
  pub mmio_exits : ℕ
  pub signal_exits : ℕ
  pub irq_exits : ℕ

-- One virtual machine on its host: the driver's structs, the current VMCS as a map from field
-- encodings, host memory as 64-bit words (word `w` holds the bytes from `8 * w`), and
-- `page->private`, the index of the header of a page frame.
pub record Machine : Type 0 where
  pub kvm : Kvm
  pub vcpu : Vcpu
  pub vmcs : ℕ → ℕ
  pub mem : ℕ → ℕ
  pub private : ℕ → ℕ
  pub bad_page_address : ℕ
  pub stat : KvmStat
