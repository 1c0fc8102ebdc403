-- ===== src/User.antt =====
-- The library of user space, src/2006-11-02/libkvm/kvmctl.c, above the driver's own ioctls. A process has
-- the machine that its file descriptor stands for and the `opaque` of its callbacks. `copy_from_user` and
-- `copy_to_user` of `kvm_dev_ioctl` are taken to succeed.

pub mod Memory
pub mod Laws
pub mod Regs
pub mod Io
pub mod Access
pub mod Walk
pub mod Count
pub mod Carried
pub mod Handshake
pub mod Exits
pub mod Create
use learn_kvm.Base.{ℕ}
use learn_kvm.State.{Machine}
use learn_kvm.Run.{Outcome, Cmd}

-- `exited` is `exit(1)` or `abort()`; `killed` is a signal for an address that is not mapped, or a fault in
-- the driver.
pub data Result (O A : Type 0) : Type 0 where
  returned : A → Machine → O → Result O A
  exited : Result O A
  killed : Result O A
  out_of_rounds : Result O A

abbrev pub User : Type 0 → Type 0 → Type 0
User O A = Machine → O → Result O A

abbrev pub give : {O A : Type 0} → A → User O A
give = returned

abbrev pub quit : {O A : Type 0} → User O A
quit s o = exited

abbrev pub next : {O A B : Type 0} → Result O A → (A → User O B) → Result O B
next (returned a s o) k = k a s o
next exited k = exited
next killed k = killed
next out_of_rounds k = out_of_rounds

infixl 5 ◌>>=◌ ◌>>◌
abbrev pub ◌>>=◌ : {O A B : Type 0} → User O A → (A → User O B) → User O B
m >>= k = λ s o. next (m s o) k

abbrev pub ◌>>◌ : {O A B : Type 0} → User O A → User O B → User O B
m >> n = m >>= λ _. n

-- A call of the driver.
abbrev pub entered : {O A : Type 0} → O → Outcome A → Result O A
entered o (Outcome.done a s) = returned a s o
entered o Outcome.fault = killed
entered o Outcome.out_of_fuel = out_of_rounds

abbrev pub ioctl : {O A : Type 0} → Cmd A → User O A
ioctl m s o = entered o (m s)

-- struct kvm_callbacks. The opaque pointer is in the state of `User`; an `int` result is its 32 bits, and
-- what a callback stores through its last pointers comes with the result.
pub record KvmCallbacks (O : Type 0) : Type 0 where
  pub cpuid : ℕ → ℕ → ℕ → ℕ → User O (ℕ × ℕ × ℕ × ℕ × ℕ)
  pub inb : ℕ → User O (ℕ × ℕ)
  pub inw : ℕ → User O (ℕ × ℕ)
  pub inl : ℕ → User O (ℕ × ℕ)
  pub outb : ℕ → ℕ → User O ℕ
  pub outw : ℕ → ℕ → User O ℕ
  pub outl : ℕ → ℕ → User O ℕ
  pub readb : ℕ → User O (ℕ × ℕ)
  pub readw : ℕ → User O (ℕ × ℕ)
  pub readl : ℕ → User O (ℕ × ℕ)
  pub readq : ℕ → User O (ℕ × ℕ)
  pub writeb : ℕ → ℕ → User O ℕ
  pub writew : ℕ → ℕ → User O ℕ
  pub writel : ℕ → ℕ → User O ℕ
  pub writeq : ℕ → ℕ → User O ℕ
  pub debug : ℕ → User O ℕ
  pub halt : ℕ → User O ℕ
  pub io_window : User O ℕ

-- struct kvm_context, less the file descriptor and `opaque`. `mapped` is the length of the mapping at
-- `physical_memory`, 0 before there is one.
pub record KvmContext (O : Type 0) : Type 0 where
  pub callbacks : KvmCallbacks O
  pub physical_memory : ℕ
  pub mapped : ℕ
