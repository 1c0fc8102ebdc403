-- ===== src/Slots/Dirty.antt =====
-- The dirty log: `mark_page_dirty` of src/2006-11-02/kvm-module/kvm_main.c.
use learn_kvm.Base.{
  ℕ, zero, suc, ◌-◌, ◌*◌, ◌/◌, ◌%◌, ◌^◌, ◌≤◌, ◌≡◌, ◌≢◌, refl, inl, inr, ◌∙◌, ap, sym, Bool, true,
  some, List, arith, bit_or, ◌==◌, Bool-cases, eq_of_==, get_elem?, set, get_elem?-set_self,
  get_elem?-set_ne, lt-length_of_get,
}
use native.Mathlib.Nat.{one-le-pow}
use learn_kvm.Bits.{bit, bit_le, bit-or, bit_and-pow, bit_and_self}
use learn_kvm.State.{Machine, MemorySlot, Vmalloc}
use learn_kvm.Run.Laws.{Returns, returns}
use learn_kvm.Vmcs.{has}
use learn_kvm.Vmcs.Laws.{has-bit}
use learn_kvm.Slots.{gfn_to_memslot, set_bit, test_bit, mark_page_dirty}
use learn_kvm.Vmx.Masks.{bits_per_long}

-- A bit that is set stays set when others are.
has-or : (k w v : ℕ) → has w (2 ^ k) ≡ true → has (bit_or w v) (2 ^ k) ≡ true
has-or k w v h =
    let e : (bit k w == 1) ≡ true = sym (has-bit k w) ∙ h in
    let one : bit k w ≡ 1 = eq_of_== (bit k w) 1 e in
    let up : bit k (bit_or w v) ≡ 1 = omega (arith, bit-or k w v, bit_le k v) in
    has-bit k (bit_or w v) ∙ ap (λ (b : ℕ). b == 1) up

bit-pow_self : (k : ℕ) → bit k (2 ^ k) ≡ 1
bit-pow_self k =
    by_value (bit k (2 ^ k)) (2 ^ k) (bit_le k (2 ^ k)) (one-le-pow k 2 (omega arith))
      (sym (bit_and_self (2 ^ k)) ∙ bit_and-pow k (2 ^ k))
  where
    by_value : (b p : ℕ) → b ≤ 1 → 1 ≤ p → p ≡ b * p → b ≡ 1
    by_value zero p h pos e = absurd (omega arith)
    by_value (suc zero) p h pos e = refl
    by_value (suc (suc b)) p h pos e = absurd (omega arith)

has-or_self : (k w : ℕ) → has (bit_or w (2 ^ k)) (2 ^ k) ≡ true
has-or_self k w =
    let up : bit k (bit_or w (2 ^ k)) ≡ 1 =
      omega (arith, bit-or k w (2 ^ k), bit-pow_self k, bit_le k w) in
    has-bit k (bit_or w (2 ^ k)) ∙ ap (λ (b : ℕ). b == 1) up

-- The bit of a word that is there.
pub test_bit_at :
    (n : ℕ) (words : List ℕ) (w : ℕ)
    → get_elem? words (n / bits_per_long) ≡ some w
    → test_bit n words ≡ some (has w (2 ^ (n % bits_per_long)))
unfolding test_bit
test_bit_at n words w e = rw (e, test_bit) refl

same_word :
    (n : ℕ) (xs ys : List ℕ)
    → get_elem? xs (n / bits_per_long) ≡ get_elem? ys (n / bits_per_long)
    → test_bit n xs ≡ test_bit n ys
unfolding test_bit
same_word n xs ys e = rw (e, test_bit) refl

module _ (n : ℕ) (words : List ℕ) (w : ℕ) (at : get_elem? words (n / bits_per_long) ≡ some w) where
  abbrev marked : List ℕ
  marked = set words (n / bits_per_long) (bit_or w (2 ^ (n % bits_per_long)))

  set_bit-marked : set_bit n words ≡ some marked
  unfolding set_bit
  set_bit-marked = rw (at, set_bit) refl

  test_bit-marked : test_bit n marked ≡ some true
  test_bit-marked =
      test_bit_at n marked (bit_or w (2 ^ (n % bits_per_long))) (
        get_elem?-set_self words (n / bits_per_long) (bit_or w (2 ^ (n % bits_per_long)))
          (lt-length_of_get words (n / bits_per_long) at))
      ∙ ap (λ (b : Bool). some b) (has-or_self (n % bits_per_long) w)

  -- No bit is lost.
  test_bit-kept : (j : ℕ) → test_bit j words ≡ some true → test_bit j marked ≡ some true
  test_bit-kept j h = elim (Bool-cases (n / bits_per_long == j / bits_per_long)) [
    | inl e ↦
        let same : n / bits_per_long ≡ j / bits_per_long = eq_of_== _ _ e in
        let here : get_elem? words (j / bits_per_long) ≡ some w =
          ap (get_elem? words) (sym same) ∙ at in
        let on : some (has w (2 ^ (j % bits_per_long))) ≡ some true =
          sym (test_bit_at j words w here) ∙ h in
        test_bit_at j marked (bit_or w (2 ^ (n % bits_per_long))) (
          ap (get_elem? marked) (sym same)
          ∙ get_elem?-set_self words (n / bits_per_long) (bit_or w (2 ^ (n % bits_per_long)))
              (lt-length_of_get words (n / bits_per_long) at))
        ∙ ap (λ (b : Bool). some b) (has-or (j % bits_per_long) w (2 ^ (n % bits_per_long)) cc)
    | inr e ↦
        let ne : n / bits_per_long ≢ j / bits_per_long = ground arith in
        let alike : get_elem? marked (j / bits_per_long) ≡ get_elem? words (j / bits_per_long) =
          get_elem?-set_ne words (n / bits_per_long) (j / bits_per_long) _ ne in
        same_word j marked words alike ∙ h
  ]

-- Slot `i` has a dirty bitmap in which page `n` is marked, with every page that was marked in
-- `words`.
pub record IsMarked (i n : ℕ) (words : List ℕ) (s : Machine) : Type 0 where
  pub slot : MemorySlot
  pub map : Vmalloc ℕ
  pub present : get_elem? s.kvm.memslots i ≡ some slot
  pub logged : slot.dirty_bitmap ≡ some map
  pub marked : test_bit n map.items ≡ some true
  pub kept : (j : ℕ) → test_bit j words ≡ some true → test_bit j map.items ≡ some true

-- The page of a frame whose slot is logged, with a bitmap that reaches to it: `mark_page_dirty`
-- returns, the page's bit is set and no other bit is lost.
pub mark_page_dirty-IsMarked :
    (gfn i w : ℕ) (m : MemorySlot) (map : Vmalloc ℕ) (s : Machine)
    → gfn_to_memslot s.kvm gfn ≡ some (i, m)
    → get_elem? s.kvm.memslots i ≡ some m
    → m.dirty_bitmap ≡ some map
    → get_elem? map.items ((gfn - m.base_gfn) / bits_per_long) ≡ some w
    → Returns (λ _ t. IsMarked i (gfn - m.base_gfn) map.items t) (mark_page_dirty gfn s)
unfolding mark_page_dirty
mark_page_dirty-IsMarked gfn i w m map s found there logged at =
    let n : ℕ = gfn - m.base_gfn in
    let test = test_bit_at n map.items w at in
    elim (Bool-cases (has w (2 ^ (n % bits_per_long)))) [
      | inl on ↦
          rw (found, logged, test, on, mark_page_dirty)
            (returns (record {
              slot = m;
              map = map;
              present = there;
              logged = logged;
              marked = test ∙ ap (λ (b : Bool). some b) on;
              kept = λ j h. h;
            }))
      | inr off ↦
          rw (found, logged, test, off, set_bit-marked n map.items w at, mark_page_dirty)
            (returns (record {
              slot = record m {
                dirty_bitmap = some (record map { items = marked n map.items w at });
              };
              map = record map { items = marked n map.items w at };
              present =
                  get_elem?-set_self s.kvm.memslots i _ (lt-length_of_get s.kvm.memslots i there);
              logged = refl;
              marked = test_bit-marked n map.items w at;
              kept = test_bit-kept n map.items w at;
            }))
    ]
