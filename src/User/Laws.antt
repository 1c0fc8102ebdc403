-- ===== src/User/Laws.antt =====
-- Calls of a process that end, and keep the virtual processor's VMCS.
use learn_kvm.Base.{ℕ, ◌≡◌, sym, subst, true}
use learn_kvm.State.{Machine}
use learn_kvm.Run.{Outcome}
use learn_kvm.Run.Laws.{Ends, ends, breaks}
use learn_kvm.User.{User, Result, returned, exited, killed, KvmCallbacks, entered, next}

-- The call returns, and its result and final state satisfy `P`, or it ends the process; it does not use up
-- its rounds.
pub data Finishes {O A : Type 0} (P : A → Machine → O → Type 0) : Result O A → Type 0 where
  finishes : {a : A} {s : Machine} {o : O} → P a s o → Finishes P (returned a s o)
  exits : Finishes P exited
  dies : Finishes P killed

pub then-Finishes :
    {O A B : Type 0} {P : A → Machine → O → Type 0} {Q : B → Machine → O → Type 0} {r : Result O A}
    {k : A → User O B}
    → Finishes P r
    → ((a : A) (s : Machine) (o : O) → P a s o → Finishes Q (k a s o))
    → Finishes Q (next r k)
then-Finishes (finishes p) go = go _ _ _ p
then-Finishes exits go = exits
then-Finishes dies go = dies

pub weaken-Finishes :
    {O A : Type 0} {P Q : A → Machine → O → Type 0} {r : Result O A}
    → Finishes P r
    → ((a : A) (s : Machine) (o : O) → P a s o → Q a s o)
    → Finishes Q r
weaken-Finishes (finishes p) go = finishes (go _ _ _ p)
weaken-Finishes exits go = exits
weaken-Finishes dies go = dies

-- There is a VMCS.
abbrev pub Loaded : Machine → Type 0
Loaded s = s.vcpu.vmcs ≡ true

-- The call ends, and keeps the VMCS.
abbrev pub Tame : {O A : Type 0} → User O A → Type 0
Tame {O} m = (s : Machine) (o : O) → Loaded s → Finishes (λ _ t _. Loaded t) (m s o)

-- A command of the driver that only reads.
pub entered-Finishes :
    {O A F : Type 0} (s : Machine) (o : O) {r : Outcome A}
    → Loaded s
    → Ends F (λ _ t. t ≡ s) r
    → Finishes (λ (_ : A) t (_ : O). Loaded t) (entered o r)
entered-Finishes s o h (ends p) = finishes (subst Loaded (sym p) h)
entered-Finishes s o h (breaks why) = dies

-- The six callbacks of port accesses end, and keep the VMCS.
pub record PortsReturn {O : Type 0} (callbacks : KvmCallbacks O) : Type 0 where
  pub inb : (port : ℕ) → Tame (callbacks.inb port)
  pub inw : (port : ℕ) → Tame (callbacks.inw port)
  pub inl : (port : ℕ) → Tame (callbacks.inl port)
  pub outb : (port value : ℕ) → Tame (callbacks.outb port value)
  pub outw : (port value : ℕ) → Tame (callbacks.outw port value)
  pub outl : (port value : ℕ) → Tame (callbacks.outl port value)
