-- ===== src/Run/Laws.antt =====
-- Postconditions of commands: the command returns, and its result and final state satisfy `P`.
use learn_kvm.Base.{Option, none, some, ◌≡◌, refl}
use learn_kvm.State.{Machine}
use learn_kvm.Run.{Outcome, done, fault, out_of_fuel, Cmd, and_then, deref}

pub data Returns {A : Type 0} (P : A → Machine → Type 0) : Outcome A → Type 0 where
  returns : {a : A} {s : Machine} → P a s → Returns P (done a s)

pub bind :
    {A B : Type 0} {P : A → Machine → Type 0} {Q : B → Machine → Type 0} {r : Outcome A}
    {k : A → Cmd B}
    → Returns P r
    → ((a : A) (s : Machine) → P a s → Returns Q (k a s))
    → Returns Q (and_then r k)
bind (returns p) next = next _ _ p

pub deref-Returns :
    {A : Type 0} (o : Option A) (a : A) (s : Machine)
    → o ≡ some a
    → Returns (λ b t. (b ≡ a) × (t ≡ s)) (deref o s)
deref-Returns none a s e = absurd cc
deref-Returns (some b) a s e = returns (cc, refl)

-- The result and the final state satisfy `P` if the command returns.
pub data Ensures {A : Type 0} (P : A → Machine → Type 0) : Outcome A → Type 0 where
  ensures : {a : A} {s : Machine} → P a s → Ensures P (done a s)
  faults : Ensures P fault
  runs_out : Ensures P out_of_fuel

pub follow :
    {A B : Type 0} {P : A → Machine → Type 0} {Q : B → Machine → Type 0} {r : Outcome A}
    {k : A → Cmd B}
    → Ensures P r
    → ((a : A) (s : Machine) → P a s → Ensures Q (k a s))
    → Ensures Q (and_then r k)
follow (ensures p) next = next _ _ p
follow faults next = faults
follow runs_out next = runs_out

pub ensured :
    {A : Type 0} {P : A → Machine → Type 0} {a : A} {s : Machine} → Ensures P (done a s) → P a s
ensured (ensures p) = p

pub deref-Ensures : {A : Type 0} (o : Option A) (s : Machine) → Ensures (λ _ t. t ≡ s) (deref o s)
deref-Ensures none s = faults
deref-Ensures (some a) s = ensures refl

pub weaken :
    {A : Type 0} {P Q : A → Machine → Type 0} {r : Outcome A}
    → Returns P r
    → ((a : A) (s : Machine) → P a s → Q a s)
    → Returns Q r
weaken (returns p) next = returns (next _ _ p)

-- The command ends: it returns, and its result and final state satisfy `P`, or it faults for a reason in
-- `F`; it does not use up its rounds.
pub data Ends {A : Type 0} (F : Type 0) (P : A → Machine → Type 0) : Outcome A → Type 0 where
  ends : {a : A} {s : Machine} → P a s → Ends F P (done a s)
  breaks : F → Ends F P fault

pub then-Ends :
    {A B F : Type 0} {P : A → Machine → Type 0} {Q : B → Machine → Type 0} {r : Outcome A}
    {k : A → Cmd B}
    → Ends F P r
    → ((a : A) (s : Machine) → P a s → Ends F Q (k a s))
    → Ends F Q (and_then r k)
then-Ends (ends p) next = next _ _ p
then-Ends (breaks why) next = breaks why

-- Following a NULL pointer is the reason.
pub deref-Ends :
    {A F : Type 0} (o : Option A) (s : Machine)
    → (o ≡ none → F)
    → Ends F (λ a t. (o ≡ some a) × (t ≡ s)) (deref o s)
deref-Ends none s why = breaks (why refl)
deref-Ends (some a) s why = ends (refl, refl)

pub weaken-Ends :
    {A F : Type 0} {P Q : A → Machine → Type 0} {r : Outcome A}
    → Ends F P r
    → ((a : A) (s : Machine) → P a s → Q a s)
    → Ends F Q r
weaken-Ends (ends p) next = ends (next _ _ p)
weaken-Ends (breaks why) next = breaks why

-- The same for other reasons.
pub excuse :
    {A F G : Type 0} {P : A → Machine → Type 0} {r : Outcome A} → (F → G) → Ends F P r → Ends G P r
excuse because (ends p) = ends p
excuse because (breaks why) = breaks (because why)
