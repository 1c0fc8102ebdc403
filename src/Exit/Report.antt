-- ===== src/Exit/Report.antt =====
-- struct kvm_run of src/2006-11-02/kvm-module/include/linux/kvm.h, what user space reads of an exit.
use learn_kvm.Base.{ℕ, Bool}
use learn_kvm.Run.{Cmd}

-- The member `hw` is one field of KvmRun.
pub record RunException : Type 0 where
  pub exception : ℕ
  pub error_code : ℕ

-- `address` and `value`, which share their place, are kept side by side.
pub record RunIo : Type 0 where
  pub direction : ℕ
  pub size : ℕ
  pub string : Bool
  pub string_down : Bool
  pub rep : Bool
  pub port : ℕ
  pub count : ℕ
  pub address : ℕ
  pub value : ℕ

-- `bytes` is the array `data` as one little-endian word.
pub record RunMmio : Type 0 where
  pub phys_addr : ℕ
  pub bytes : ℕ
  pub len : ℕ
  pub is_write : Bool

-- The members of the union are kept side by side: a write to one leaves the others here, and user
-- space reads the one that `exit_reason` names.
pub record KvmRun : Type 0 where
  pub vcpu : ℕ
  pub emulated : ℕ
  pub mmio_completed : ℕ
  pub exit_type : ℕ
  pub exit_reason : ℕ
  pub instruction_length : ℕ
  pub hardware_exit_reason : ℕ
  pub ex : RunException
  pub io : RunIo
  pub mmio : RunMmio

-- An exit handler.
abbrev pub Handler : Type 0
Handler = KvmRun → Cmd (Bool × KvmRun)
