-- ===== src/Irq/Queue.antt =====
-- The interrupts that are pending: `irq_pending` and `irq_summary` of struct kvm_vcpu as a set of numbers,
-- and what the driver does to it (src/2006-11-02/kvm-module/kvm_main.c).
use learn_kvm.Base.{
  ℕ, zero, suc, ◌/◌, ◌%◌, ◌^◌, ◌≤◌, ◌<◌, bit_or, ◌≡◌, ◌≢◌, refl, sym, ap, ◌∙◌, subst, ◌⊎◌, ◌↔◌, inl,
  inr, ◌==◌, Bool-cases, eq_of_==, ==_refl, ==_of_ne, arith,
}
use learn_kvm.Bits.{bit, bit-zero, bit_high, bit_or-lt, set_self, set_other, pow-lt64}
use learn_kvm.State.{Vcpu}
use learn_kvm.Irq.{queue_irq}

-- Interrupt `irq` is pending.
abbrev pub IsPending : ℕ → Vcpu → Type 0
IsPending irq v = bit (irq % 64) (v.irq_pending (irq / 64)) ≡ 1

-- The summary marks exactly the words of `irq_pending` that are not 0, and everything fits in its place.
pub record IsQueue (v : Vcpu) : Type 0 where
  pub marks : (w : ℕ) → bit w v.irq_summary ≡ 1 → v.irq_pending w ≢ 0
  pub is_marked : (w : ℕ) → v.irq_pending w ≢ 0 → bit w v.irq_summary ≡ 1
  pub summary_small : v.irq_summary < 2 ^ 4
  pub words_small : (w : ℕ) → v.irq_pending w < 2 ^ 64

-- The lowest bit that is set, which the kernel documents of `__ffs`.
abbrev pub IsFfs : (ℕ → ℕ) → Type 0
IsFfs ffs = (w : ℕ) → w ≢ 0 → w < 2 ^ 64 → (bit (ffs w) w ≡ 1) × ((k : ℕ) → bit k w ≡ 1 → ffs w ≤ k)

-- A bit that is set keeps a word from being 0.
pub ne_of_bit : (k w : ℕ) → bit k w ≡ 1 → w ≢ 0
ne_of_bit k w h e = absurd (omega (arith, bit-zero k, ap (bit k) e))

-- A bit that is set is one of the low ones.
pub bit-lt : (n k w : ℕ) → w < 2 ^ n → bit k w ≡ 1 → k < n
bit-lt n k w small h = elim (split k n) [
  | inl p ↦ p
  | inr p ↦ absurd (omega (arith, bit_high n k w small p))
]
  where
    split : (a b : ℕ) → (a < b) ⊎ (b ≤ a)
    split a b = ground arith

module _ (irq : ℕ) (v : Vcpu) where
  abbrev word : ℕ
  word = irq / 64

  abbrev with_irq : ℕ
  with_irq = bit_or (v.irq_pending word) (2 ^ (irq % 64))

  word_self : (queue_irq irq v).irq_pending word ≡ with_irq
  unfolding queue_irq
  word_self = rw (==_refl word) refl

  word_other : (w : ℕ) → word ≢ w → (queue_irq irq v).irq_pending w ≡ v.irq_pending w
  unfolding queue_irq
  word_other w ne = rw (==_of_ne word w ne) refl

  -- After `queue_irq` the pending interrupts are the new one and those that were pending before.
  pub queue_irq-IsPending : (j : ℕ) → IsPending j (queue_irq irq v) ↔ (j ≡ irq) ⊎ IsPending j v
  queue_irq-IsPending j = elim (Bool-cases (word == j / 64)) [
    | inr e ↦
        let ne : word ≢ j / 64 = ground arith in
        let same = ap (bit (j % 64)) (word_other (j / 64) ne) in
        (
          λ h. inr (sym same ∙ h),
          λ h. elim h [ inl q ↦ absurd (ne (sym (ap (λ (x : ℕ). x / 64) q))) | inr q ↦ same ∙ q ],
        )
    | inl e ↦
        let eq : word ≡ j / 64 = eq_of_== _ _ e in
        let at : (queue_irq irq v).irq_pending (j / 64) ≡ with_irq =
          ap (λ (w : ℕ). (queue_irq irq v).irq_pending w) (sym eq) ∙ word_self in
        elim (Bool-cases (j % 64 == irq % 64)) [
          | inl d ↦
              let same : j % 64 ≡ irq % 64 = eq_of_== _ _ d in
              let here : j ≡ irq = omega (arith, same, eq) in
              (
                λ _. inl here,
                λ _.
                    ap (bit (j % 64)) at
                    ∙ ap (λ (k : ℕ). bit k with_irq) same
                    ∙ set_self (irq % 64) (v.irq_pending word),
              )
          | inr d ↦
              let ne : j % 64 ≢ irq % 64 = ground arith in
              let keep : bit (j % 64) with_irq ≡ bit (j % 64) (v.irq_pending (j / 64)) =
                set_other (j % 64) (irq % 64) (v.irq_pending word) ne
                ∙ ap (λ (w : ℕ). bit (j % 64) (v.irq_pending w)) eq in
              (
                λ h. inr (sym keep ∙ sym (ap (bit (j % 64)) at) ∙ h),
                λ h. elim h [
                  | inl q ↦ absurd (ne (ap (λ (x : ℕ). x % 64) q))
                  | inr q ↦ ap (bit (j % 64)) at ∙ keep ∙ q
                ],
              )
        ]
  ]

  pub queue_irq-IsQueue : irq < 256 → IsQueue v → IsQueue (queue_irq irq v)
  unfolding queue_irq
  queue_irq-IsQueue small q = record {
    marks = λ w h. elim (Bool-cases (word == w)) [
      | inl e ↦ rw e (ne_of_bit (irq % 64) with_irq (set_self (irq % 64) (v.irq_pending word)))
      | inr e ↦
          let ne : w ≢ word = ground arith in
          rw e (q.marks w (sym (set_other w word v.irq_summary ne) ∙ h))
    ];
    is_marked = λ w h. elim (Bool-cases (word == w)) [
      | inl e ↦
          let eq : word ≡ w = eq_of_== word w e in
          subst (λ (x : ℕ). bit x (bit_or v.irq_summary (2 ^ word)) ≡ 1) eq
            (set_self word v.irq_summary)
      | inr e ↦
          let ne : w ≢ word = ground arith in
          set_other w word v.irq_summary ne ∙ q.is_marked w (rw e at h)
    ];
    summary_small =
        bit_or-lt 4 v.irq_summary (2 ^ word) q.summary_small (by_word word (omega arith));
    words_small = λ w. elim (Bool-cases (word == w)) [
      | inl e ↦ rw e (
          bit_or-lt 64 (v.irq_pending word) (2 ^ (irq % 64)) (q.words_small word)
            (pow-lt64 (irq % 64) (omega arith)))
      | inr e ↦ rw e (q.words_small w)
    ];
  }
    where
      by_word : (w : ℕ) → w < 4 → 2 ^ w < 16
      by_word zero h = omega arith
      by_word (suc zero) h = omega arith
      by_word (suc (suc zero)) h = omega arith
      by_word (suc (suc (suc zero))) h = omega arith
      by_word (suc (suc (suc (suc w)))) h = absurd (omega arith)
