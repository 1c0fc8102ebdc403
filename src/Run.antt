-- ===== src/Run.antt =====
-- Commands over the machine: a function of the driver that may fault (follow a NULL pointer or run
-- past an array) or, where it loops until something succeeds, use up the rounds it is given.
pub mod Laws
use learn_kvm.Base.{ℕ, Option, none, some}
use learn_kvm.State.{Machine}

pub data Outcome (A : Type 0) : Type 0 where
  done : A → Machine → Outcome A
  fault : Outcome A
  out_of_fuel : Outcome A

abbrev pub Cmd : Type 0 → Type 0
Cmd A = Machine → Outcome A

abbrev pub pure : {A : Type 0} → A → Cmd A
pure = done

abbrev pub and_then : {A B : Type 0} → Outcome A → (A → Cmd B) → Outcome B
and_then (done a s) k = k a s
and_then fault k = fault
and_then out_of_fuel k = out_of_fuel

infixl 5 ◌>>=◌ ◌>>◌
abbrev pub ◌>>=◌ : {A B : Type 0} → Cmd A → (A → Cmd B) → Cmd B
m >>= k = λ s. and_then (m s) k

abbrev pub ◌>>◌ : {A B : Type 0} → Cmd A → Cmd B → Cmd B
m >> n = m >>= λ _. n

-- A value that is read off the state, and a change of the state that cannot fail.
abbrev pub read : {A : Type 0} → (Machine → A) → Cmd A
read f s = done (f s) s

abbrev pub act : (Machine → Machine) → Cmd (Unit {0})
act f s = done tt (f s)

abbrev pub skip : Cmd (Unit {0})
skip = done tt

-- Following a pointer.
abbrev pub deref : {A : Type 0} → Option A → Cmd A
deref none s = fault
deref (some a) s = done a s
