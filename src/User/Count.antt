-- ===== src/User/Count.antt =====
-- The loop of `handle_io` of src/2006-11-02/libkvm/kvmctl.c ends when the count does.
use learn_kvm.Base.{
  ℕ, zero, suc, ◌-◌, ◌^◌, ◌<◌, ◌≡◌, ◌≢◌, refl, subst, inl, inr, ◌⊎◌, ◌∙◌, ap, Bool, true, false,
  arith, !=_of_ne,
}
use learn_kvm.State.{Machine}
use learn_kvm.User.{User, KvmContext}
use learn_kvm.User.Laws.{Finishes, finishes, then-Finishes, weaken-Finishes, Loaded, PortsReturn}
use learn_kvm.User.Io.{IoLoop, end_round, io_round, io_loop}
use learn_kvm.User.Access.{transfer-Same, value_place-Same}
use learn_kvm.User.Walk.{
  moved, Walked, Walked-zero, Walked-suc, IsRepeated, IsRepeated-step, Walked-Same, access-Walked,
  more_io-count, moved_down,
}

module _ {O : Type 0} (kvm : KvmContext O) (ports : PortsReturn kvm.callbacks) (vcpu : ℕ) where
  round-Walked :
      (l : IoLoop) (s : Machine) (o : O)
      → IsRepeated l
      → Loaded s
      → Finishes (λ r t _. Loaded t × Walked 1 l r.1) (io_round kvm vcpu l s o)
  unfolding io_round
  round-Walked l s o fits h =
      then-Finishes (value_place-Same kvm vcpu l s o h) λ (place, l1) t o' (h1, p1).
        then-Finishes (transfer-Same kvm ports place l1 t o' h1) λ (r, l2) u o'' (h2, p2).
          finishes
            (h2, Walked-Same l l1 _ p1 (Walked-Same l1 l2 _ p2 (access-Walked l l1 l2 fits p1 p2)))

  -- A callback has objected, or `n` accesses are done.
  abbrev pub Ended : ℕ → IoLoop → ℕ × IoLoop → Machine → O → Type 0
  Ended n l r t _ = Loaded t × ((r.0 ≢ 0) ⊎ (r.0 ≡ 0) × Walked n l r.1)

  end_round-Ended :
      (n : ℕ) (again : IoLoop → User O (ℕ × IoLoop)) (l l' : IoLoop) (t : Machine) (o : O) (r : ℕ)
      → Loaded t
      → Walked 1 l l'
      → Finishes (Ended n l') (again l' t o)
      → Finishes (Ended (suc n) l) (end_round again (r, l') t o)
  unfolding end_round
  end_round-Ended n again l l' t o zero h w rest = weaken-Finishes rest λ (r, l'') u o'' (h'', p).
      (h'', elim p [ inl ne ↦ inl ne | inr (z, q) ↦ inr (z, Walked-suc n l l' l'' w q) ])
  end_round-Ended n again l l' t o (suc r) h w rest = finishes (h, inl (λ q. cc))

  -- The loop ends, and without an objection of a callback it ends when the count does.
  pub io_loop-Ended :
      (n rounds : ℕ) (first_time : Bool) (l : IoLoop) (s : Machine) (o : O)
      → IsRepeated l
      → l.io.count ≡ n
      → n < rounds
      → Loaded s
      → Finishes (Ended n l) (io_loop kvm rounds vcpu first_time l s o)
  unfolding io_loop
  io_loop-Ended n zero first_time l s o fits e lt h = absurd (omega arith)
  io_loop-Ended zero (suc rounds) first_time l s o fits e lt h =
      rw (more_io-count l.io first_time 0 fits.rep e, io_loop)
        (finishes (h, inr (refl, Walked-zero l fits)))
  io_loop-Ended (suc n) (suc rounds) first_time l s o fits e lt h =
      let small : suc n < 2 ^ 64 = subst (λ (c : ℕ). c < 2 ^ 64) e fits.count in
      rw (more_io-count l.io first_time (suc n) fits.rep e ∙ !=_of_ne (suc n) 0 (λ q. cc), io_loop)
        (then-Finishes (round-Walked l s o fits h) λ (r, l') t o' (h', w).
          end_round-Ended n _ l l' t o' r h' w (
            io_loop-Ended n rounds false l' t o' (IsRepeated-step l l' fits w)
              (w.count ∙ ap (moved true 1 (2 ^ 64 - 1)) e ∙ moved_down n small) (omega arith) h'))
