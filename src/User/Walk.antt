-- ===== src/User/Walk.antt =====
-- What the accesses of a repeated string instruction do to the variables of `handle_io` of
-- src/2006-11-02/libkvm/kvmctl.c.
use learn_kvm.Base.{
  ℕ, suc, ◌+◌, ◌-◌, ◌*◌, ◌^◌, ◌<◌, ◌≡◌, refl, sym, ◌∙◌, ap, Bool, true, false, ◌==◌, ◌!=◌,
  if◌then◌else◌, u64, arith,
}
use learn_kvm.Exit.Report.{RunIo}
use learn_kvm.Vmx.Masks.{kvm_exit_io_in, kvm_exit_io_out}
use learn_kvm.User.Io.{IoLoop, more_io, delta, step_string, after_access}
use learn_kvm.User.Access.{Same}

-- `n` steps of `d` where `moves` is true, modulo 2^64.
unfoldable pub moved : Bool → ℕ → ℕ → ℕ → ℕ
moved moves n d x = if moves then u64 (x + n * d) else x

u64_add : (a m : ℕ) → u64 (u64 a + m) ≡ u64 (a + m)
u64_add a m = omega arith

moved-suc :
    (moves : Bool) (n d x : ℕ) → moved moves n d (moved moves 1 d x) ≡ moved moves (suc n) d x
unfolding moved
moved-suc true n d x = u64_add (x + 1 * d) (n * d) ∙ ap u64 (omega arith)
moved-suc false n d x = refl

moved_zero : (moves : Bool) (d x : ℕ) → x < 2 ^ 64 → moved moves 0 d x ≡ x
unfolding moved
moved_zero true d x h = omega arith
moved_zero false d x h = refl

moved_lt : (moves : Bool) (n d x : ℕ) → x < 2 ^ 64 → moved moves n d x < 2 ^ 64
unfolding moved
moved_lt true n d x h = omega arith
moved_lt false n d x h = h

-- One less, and as many less as there are.
pub moved_down : (n : ℕ) → suc n < 2 ^ 64 → moved true 1 (2 ^ 64 - 1) (suc n) ≡ n
unfolding moved
moved_down n h = omega arith

pub moved_out : (n : ℕ) → moved true n (2 ^ 64 - 1) n ≡ 0
unfolding moved
moved_out n = omega arith

-- What `n` accesses of a repeated string instruction do to the variables of the loop.
pub record Walked (n : ℕ) (l l' : IoLoop) : Type 0 where
  pub string : l'.io.string ≡ l.io.string
  pub rep : l'.io.rep ≡ l.io.rep
  pub direction : l'.io.direction ≡ l.io.direction
  pub same_delta : delta l'.io ≡ delta l.io
  pub address : l'.io.address ≡ moved true n (delta l.io) l.io.address
  pub count : l'.io.count ≡ moved true n (2 ^ 64 - 1) l.io.count
  pub rip : l'.regs.rip ≡ l.regs.rip
  pub rcx : l'.regs.rcx ≡ moved true n (2 ^ 64 - 1) l.regs.rcx
  pub rsi : l'.regs.rsi ≡ moved (l.io.direction == kvm_exit_io_out) n (delta l.io) l.regs.rsi
  pub rdi : l'.regs.rdi ≡ moved (l.io.direction == kvm_exit_io_in) n (delta l.io) l.regs.rdi

-- The variables of a repeated string instruction, within their 64 bits.
pub record IsRepeated (l : IoLoop) : Type 0 where
  pub string : l.io.string ≡ true
  pub rep : l.io.rep ≡ true
  pub address : l.io.address < 2 ^ 64
  pub count : l.io.count < 2 ^ 64
  pub rcx : l.regs.rcx < 2 ^ 64
  pub rsi : l.regs.rsi < 2 ^ 64
  pub rdi : l.regs.rdi < 2 ^ 64

pub Walked-zero : (l : IoLoop) → IsRepeated l → Walked 0 l l
Walked-zero l fits = record {
  string = refl;
  rep = refl;
  direction = refl;
  same_delta = refl;
  address = sym (moved_zero true _ l.io.address fits.address);
  count = sym (moved_zero true _ l.io.count fits.count);
  rip = refl;
  rcx = sym (moved_zero true _ l.regs.rcx fits.rcx);
  rsi = sym (moved_zero _ _ l.regs.rsi fits.rsi);
  rdi = sym (moved_zero _ _ l.regs.rdi fits.rdi);
}

one_step : (moves : Bool) (d x : ℕ) → (if moves then u64 (x + d) else x) ≡ moved moves 1 d x
unfolding moved
one_step true d x = omega arith
one_step false d x = refl

step_string-Walked : (l : IoLoop) → l.io.rep ≡ true → Walked 1 l (step_string l)
unfolding step_string delta
step_string-Walked l e = record {
  string = refl;
  rep = refl;
  direction = refl;
  same_delta = refl;
  address = one_step true _ l.io.address;
  count = simp e (one_step true _ l.io.count);
  rip = refl;
  rcx = simp e (one_step true _ l.regs.rcx);
  rsi = one_step _ _ l.regs.rsi;
  rdi = one_step _ _ l.regs.rdi;
}

-- An access first, and then `n` of them.
pub Walked-suc :
    (n : ℕ) (l l' l'' : IoLoop) → Walked 1 l l' → Walked n l' l'' → Walked (suc n) l l''
Walked-suc n l l' l'' p q = record {
  string = q.string ∙ p.string;
  rep = q.rep ∙ p.rep;
  direction = q.direction ∙ p.direction;
  same_delta = q.same_delta ∙ p.same_delta;
  address = q.address ∙ further true (delta l.io) (delta l'.io) _ _ p.same_delta p.address;
  count = q.count ∙ further true _ _ _ _ refl p.count;
  rip = q.rip ∙ p.rip;
  rcx = q.rcx ∙ further true _ _ _ _ refl p.rcx;
  rsi =
      q.rsi
      ∙ ap (λ (c : ℕ). moved (c == kvm_exit_io_out) n (delta l'.io) l'.regs.rsi) p.direction
      ∙ further _ (delta l.io) (delta l'.io) _ _ p.same_delta p.rsi;
  rdi =
      q.rdi
      ∙ ap (λ (c : ℕ). moved (c == kvm_exit_io_in) n (delta l'.io) l'.regs.rdi) p.direction
      ∙ further _ (delta l.io) (delta l'.io) _ _ p.same_delta p.rdi;
}
  where
    further :
        (moves : Bool) (d d' x y : ℕ)
        → d' ≡ d
        → y ≡ moved moves 1 d x
        → moved moves n d' y ≡ moved moves (suc n) d x
    further moves d d' x y e f = rw (e, f) (moved-suc moves n d x)

pub IsRepeated-step : (l l' : IoLoop) → IsRepeated l → Walked 1 l l' → IsRepeated l'
IsRepeated-step l l' fits p = record {
  string = p.string ∙ fits.string;
  rep = p.rep ∙ fits.rep;
  address = rw p.address (moved_lt true 1 _ _ fits.address);
  count = rw p.count (moved_lt true 1 _ _ fits.count);
  rcx = rw p.rcx (moved_lt true 1 _ _ fits.rcx);
  rsi = rw p.rsi (moved_lt _ 1 _ _ fits.rsi);
  rdi = rw p.rdi (moved_lt _ 1 _ _ fits.rdi);
}

-- A round steps from variables that the access itself leaves as they are.
pub Walked-Same : (l l' l'' : IoLoop) → Same l l' → Walked 1 l' l'' → Walked 1 l l''
Walked-Same l l' l'' p q = record {
  string = q.string ∙ ap (λ (i : RunIo). i.string) p.io;
  rep = q.rep ∙ ap (λ (i : RunIo). i.rep) p.io;
  direction = q.direction ∙ ap (λ (i : RunIo). i.direction) p.io;
  same_delta = q.same_delta ∙ ap delta p.io;
  address = q.address ∙ ap (λ (i : RunIo). moved true 1 (delta i) i.address) p.io;
  count = q.count ∙ ap (λ (i : RunIo). moved true 1 (2 ^ 64 - 1) i.count) p.io;
  rip = q.rip ∙ p.rip;
  rcx = q.rcx ∙ ap (moved true 1 (2 ^ 64 - 1)) p.rcx;
  rsi =
      q.rsi
      ∙ ap (λ (i : RunIo). moved (i.direction == kvm_exit_io_out) 1 (delta i) l'.regs.rsi) p.io
      ∙ ap (moved _ 1 (delta l.io)) p.rsi;
  rdi =
      q.rdi
      ∙ ap (λ (i : RunIo). moved (i.direction == kvm_exit_io_in) 1 (delta i) l'.regs.rdi) p.io
      ∙ ap (moved _ 1 (delta l.io)) p.rdi;
}

pub access-Walked :
    (l l1 l2 : IoLoop) → IsRepeated l → Same l l1 → Same l1 l2 → Walked 1 l2 (after_access l2)
unfolding after_access
access-Walked l l1 l2 fits p q =
    let same_io : l2.io ≡ l.io = q.io ∙ p.io in
    simp (ap (λ (i : RunIo). i.string) same_io ∙ fits.string, after_access)
      (step_string-Walked l2 (ap (λ (i : RunIo). i.rep) same_io ∙ fits.rep))

pub more_io-count :
    (io : RunIo) (b : Bool) (n : ℕ) → io.rep ≡ true → io.count ≡ n → more_io io b ≡ (n != 0)
unfolding more_io
more_io-count io b n e f = simp (e, f) refl
