-- ===== src/Irq/Next.antt =====
-- The interrupt that is taken next: the first half of `kvm_do_inject_irq` of
-- src/2006-11-02/kvm-module/kvm_main.c.
use learn_kvm.Base.{
  ℕ, ◌/◌, ◌%◌, ◌^◌, ◌≤◌, ◌<◌, not64, ◌≡◌, ◌≢◌, refl, sym, ap, ◌∙◌, subst, ◌↔◌, inl, inr, true,
  false, ◌==◌, Bool-cases, eq_of_==, ==_refl, ==_of_ne, arith,
}
use learn_kvm.Bits.{bit, bit_and-le_left, clear_self, clear_other}
use learn_kvm.State.{Vcpu}
use learn_kvm.Irq.{clear_bit, next_irq, dequeue_irq}
use learn_kvm.Irq.Queue.{IsPending, IsQueue, IsFfs, ne_of_bit, bit-lt}

module _ (ffs : ℕ → ℕ) (low : IsFfs ffs) (v : Vcpu) (q : IsQueue v)
    (some_irq : v.irq_summary ≢ 0) where
  abbrev word : ℕ
  word = ffs v.irq_summary

  abbrev digit : ℕ
  digit = ffs (v.irq_pending word)

  abbrev left : ℕ
  left = clear_bit digit (v.irq_pending word)

  word_marked : bit word v.irq_summary ≡ 1
  word_marked = (low v.irq_summary some_irq (let h = q.summary_small in omega arith)).0

  word_pending : v.irq_pending word ≢ 0
  word_pending = q.marks word word_marked

  digit_set : bit digit (v.irq_pending word) ≡ 1
  digit_set = (low (v.irq_pending word) word_pending (q.words_small word)).0

  digit-lt : digit < 64
  digit-lt = bit-lt 64 digit (v.irq_pending word) (q.words_small word) digit_set

  word-lt : word < 4
  word-lt = bit-lt 4 word v.irq_summary q.summary_small word_marked

  next-word : next_irq ffs v / 64 ≡ word
  unfolding next_irq
  next-word = omega (arith, digit-lt)

  next-digit : next_irq ffs v % 64 ≡ digit
  unfolding next_irq
  next-digit = omega (arith, digit-lt)

  pub next_irq-lt : next_irq ffs v < 256
  unfolding next_irq
  next_irq-lt = omega (arith, digit-lt, word-lt)

  pub next_irq-IsPending : IsPending (next_irq ffs v) v
  next_irq-IsPending = rw (next-word, next-digit) digit_set

  -- No pending interrupt has a lower number.
  pub next_irq-least : (j : ℕ) → IsPending j v → next_irq ffs v ≤ j
  unfolding next_irq
  next_irq-least j h =
      let marked : bit (j / 64) v.irq_summary ≡ 1 =
        q.is_marked (j / 64) (ne_of_bit (j % 64) (v.irq_pending (j / 64)) h) in
      let first : word ≤ j / 64 =
        (low v.irq_summary some_irq (let h = q.summary_small in omega arith)).1 (j / 64) marked in
      elim (Bool-cases (word == j / 64)) [
        | inr e ↦ let ne : word ≢ j / 64 = ground arith in omega (arith, digit-lt, first)
        | inl e ↦
            let eq : word ≡ j / 64 = eq_of_== _ _ e in
            let there : bit (j % 64) (v.irq_pending word) ≡ 1 =
              ap (λ (w : ℕ). bit (j % 64) (v.irq_pending w)) eq ∙ h in
            let lowest =
              (low (v.irq_pending word) word_pending (q.words_small word)).1 (j % 64) there in
            omega (arith, eq, lowest)
      ]

  taken_self : (dequeue_irq ffs v).irq_pending word ≡ left
  unfolding dequeue_irq
  taken_self = rw (==_refl word) refl

  taken_other : (w : ℕ) → word ≢ w → (dequeue_irq ffs v).irq_pending w ≡ v.irq_pending w
  unfolding dequeue_irq
  taken_other w ne = rw (==_of_ne word w ne) refl

  -- What is pending afterwards: all but the interrupt that is taken.
  pub dequeue_irq-IsPending :
      (j : ℕ) → IsPending j (dequeue_irq ffs v) ↔ (j ≢ next_irq ffs v) × IsPending j v
  unfolding clear_bit
  dequeue_irq-IsPending j = elim (Bool-cases (word == j / 64)) [
    | inr e ↦
        let ne : word ≢ j / 64 = ground arith in
        let same = ap (bit (j % 64)) (taken_other (j / 64) ne) in
        (
          λ h. ((λ p. ne (sym next-word ∙ sym (ap (λ (x : ℕ). x / 64) p))), sym same ∙ h),
          λ h. same ∙ h.1,
        )
    | inl e ↦
        let eq : word ≡ j / 64 = eq_of_== _ _ e in
        let at : (dequeue_irq ffs v).irq_pending (j / 64) ≡ left =
          ap (λ (w : ℕ). (dequeue_irq ffs v).irq_pending w) (sym eq) ∙ taken_self in
        elim (Bool-cases (j % 64 == digit)) [
          | inl d ↦
              let same : j % 64 ≡ digit = eq_of_== _ _ d in
              let here : j ≡ next_irq ffs v = omega (arith, same, eq, next-word, next-digit) in
              let off : bit (j % 64) left ≡ 0 =
                ap (λ (k : ℕ). bit k left) same ∙ clear_self digit (v.irq_pending word) digit-lt in
              (
                λ h. absurd (let z = sym (ap (bit (j % 64)) at) ∙ h in omega (arith, z, off)),
                λ h. absurd (h.0 here),
              )
          | inr d ↦
              let ne : j % 64 ≢ digit = ground arith in
              let keep : bit (j % 64) left ≡ bit (j % 64) (v.irq_pending (j / 64)) =
                clear_other (j % 64) digit (v.irq_pending word) (omega arith) digit-lt ne
                ∙ ap (λ (w : ℕ). bit (j % 64) (v.irq_pending w)) eq in
              (
                λ h. (
                  (λ p. ne (ap (λ (x : ℕ). x % 64) p ∙ next-digit)),
                  sym keep ∙ sym (ap (bit (j % 64)) at) ∙ h,
                ),
                λ h. ap (bit (j % 64)) at ∙ keep ∙ h.1,
              )
        ]
  ]

  left-lt : left < 2 ^ 64
  unfolding clear_bit
  left-lt =
      let h = q.words_small word in
      omega (arith, bit_and-le_left (v.irq_pending word) (not64 (2 ^ digit)))

  words-lt : (w : ℕ) → (dequeue_irq ffs v).irq_pending w < 2 ^ 64
  unfolding dequeue_irq
  words-lt w = elim (Bool-cases (word == w)) [
    | inl e ↦ rw e left-lt
    | inr e ↦ rw e (q.words_small w)
  ]

  -- The word keeps its mark while something is left in it.
  still_marked : left ≢ 0 → IsQueue (dequeue_irq ffs v)
  unfolding dequeue_irq
  still_marked h =
      let test : (left == 0) ≡ false = ==_of_ne left 0 h in
      record {
        marks = λ w m. elim (Bool-cases (word == w)) [
          | inl e ↦ rw e h
          | inr e ↦ rw e (q.marks w (rw test at m))
        ];
        is_marked = λ w m. elim (Bool-cases (word == w)) [
          | inl e ↦
              rw test (subst (λ (x : ℕ). bit x v.irq_summary ≡ 1) (eq_of_== word w e) word_marked)
          | inr e ↦ rw test (q.is_marked w (rw e at m))
        ];
        summary_small = rw test q.summary_small;
        words_small = words-lt;
      }

  -- The mark goes with the last interrupt of the word.
  unmarked : left ≡ 0 → IsQueue (dequeue_irq ffs v)
  unfolding dequeue_irq clear_bit
  unmarked h =
      let test : (left == 0) ≡ true = ap (λ (x : ℕ). x == 0) h in
      let gone = clear_self word v.irq_summary (omega (arith, word-lt)) in
      record {
        marks = λ w m. elim (Bool-cases (word == w)) [
          | inl e ↦
              let eq : word ≡ w = eq_of_== word w e in
              let on : bit w (clear_bit word v.irq_summary) ≡ 1 = rw test at m in
              absurd
                (omega (arith, gone, ap (λ (x : ℕ). bit x (clear_bit word v.irq_summary)) eq, on))
          | inr e ↦
              let ne : w ≢ word = ground arith in
              let on : bit w (clear_bit word v.irq_summary) ≡ 1 = rw test at m in
              rw e (q.marks w (by_place w ne on))
        ];
        is_marked = λ w m. elim (Bool-cases (word == w)) [
          | inl e ↦ absurd (rw e at m h)
          | inr e ↦
              let ne : w ≢ word = ground arith in
              let was = q.is_marked w (rw e at m) in
              let small = bit-lt 4 w v.irq_summary q.summary_small was in
              rw test
                (clear_other w word v.irq_summary (omega arith) (omega (arith, word-lt)) ne ∙ was)
        ];
        summary_small = rw test (
            let s = q.summary_small in
            omega (arith, bit_and-le_left v.irq_summary (not64 (2 ^ word))));
        words_small = words-lt;
      }
    where
      by_place :
          (w : ℕ) → w ≢ word → bit w (clear_bit word v.irq_summary) ≡ 1 → bit w v.irq_summary ≡ 1
      by_place w ne on =
          let s = q.summary_small in
          let small : w < 4 =
            bit-lt 4 w (clear_bit word v.irq_summary)
              (omega (arith, bit_and-le_left v.irq_summary (not64 (2 ^ word)))) on in
          sym (clear_other w word v.irq_summary (omega arith) (omega (arith, word-lt)) ne) ∙ on

  pub dequeue_irq-IsQueue : IsQueue (dequeue_irq ffs v)
  dequeue_irq-IsQueue = elim (Bool-cases (left == 0)) [
    | inl e ↦ unmarked (eq_of_== left 0 e)
    | inr e ↦ still_marked (ground arith)
  ]
