-- ===== src/GuestMemory/Finish.antt =====
-- The copies to and from the guest end: `kvm_read_guest`, `kvm_write_guest` and `emulator_read_std` of
-- src/2006-11-02/kvm-module/kvm_main.c.
use learn_kvm.Base.{
  ℕ, zero, suc, ◌+◌, ◌-◌, ◌≤◌, ◌<◌, ◌≡◌, refl, sym, subst, inl, inr, ◌∙◌, ap, Bool-cases, List, [],
  ◌∷◌, ◌++◌, length, take, drop, bit_and, u64, arith,
}
use learn_kvm.Bits.{bit_and-low}
use learn_kvm.State.{Machine}
use learn_kvm.Run.{Outcome}
use learn_kvm.Run.Laws.{Ends, ends, then-Ends, excuse}
use learn_kvm.Slots.{is_error_hpa}
use learn_kvm.Paging.Guest.{page_of}
use learn_kvm.Paging.Reads.{Lacks, gva_to_hpa-Looks}
use learn_kvm.GuestMemory.Bytes.{read_bytes, write_bytes, write_byte}
use learn_kvm.GuestMemory.Copy.{
  page_offset, on_page, read_loop, kvm_read_guest, write_loop, kvm_write_guest,
}
use learn_kvm.Vmx.Masks.{page_size}

-- A round copies at least one byte, and no more than there are.
pub on_page-pos :
    (addr size : ℕ) → (1 ≤ on_page addr (suc size)) × (on_page addr (suc size) ≤ suc size)
unfolding on_page page_offset
on_page-pos addr size =
    let low = bit_and-low 12 addr in
    let offset : ℕ = bit_and addr (page_size - 1) in
    let small : offset < 4096 = omega arith in (omega arith, omega arith)

length-read_bytes : (n a : ℕ) (s : Machine) → length (read_bytes n a s) ≡ n
unfolding read_bytes
length-read_bytes zero a s = refl
length-read_bytes (suc n) a s = ap suc (length-read_bytes n (a + 1) s)

length-++ : {A : Type 0} (xs ys : List A) → length (xs ++ ys) ≡ length xs + length ys
length-++ [] ys = omega arith
length-++ (x ∷ xs) ys = omega (arith, length-++ xs ys)

length-drop : {A : Type 0} (n : ℕ) (xs : List A) → length (drop n xs) ≡ length xs - n
length-drop zero xs = omega arith
length-drop (suc n) [] = omega arith
length-drop (suc n) (x ∷ xs) = omega (arith, length-drop n xs)

-- What a reader leaves: the state as it was, and at most `size` bytes; it faults only for what is missing.
abbrev pub HasRead : ℕ → Machine → Outcome (List ℕ) → Type 0
HasRead size s = Ends (Lacks s) λ bytes t. (t ≡ s) × (length bytes ≤ size)

read_loop-HasRead :
    (rounds addr size : ℕ) (s : Machine)
    → size ≤ rounds
    → HasRead size s (read_loop rounds addr size s)
unfolding read_loop
read_loop-HasRead zero addr zero s h = ends (refl, omega arith)
read_loop-HasRead (suc rounds) addr zero s h = ends (refl, omega arith)
read_loop-HasRead zero addr (suc size) s h = absurd (omega arith)
read_loop-HasRead (suc rounds) addr (suc size) s h =
    then-Ends (gva_to_hpa-Looks addr s) λ (paddr : ℕ) t p. elim (Bool-cases (is_error_hpa paddr)) [
      | inl e ↦ rw e (ends (p, omega arith))
      | inr e ↦
          let now : ℕ = on_page addr (suc size) in
          let (pos, fits) = on_page-pos addr size in
          let bytes = read_bytes now (page_of paddr + page_offset addr) t in
          rw e (
            then-Ends
              (excuse (subst Lacks p)
                (read_loop-HasRead rounds (u64 (addr + now)) (suc size - now) t (omega arith)))
              λ (rest : List ℕ) u q. ends (
                q.0 ∙ p,
                omega (
                  arith,
                  length-++ bytes rest,
                  length-read_bytes now (page_of paddr + page_offset addr) t,
                  q.1,
                ),
              ))
    ]

-- Of any guest memory, mapped or not, `kvm_read_guest` reads at most as many bytes as it is asked for and
-- leaves the machine as it was: its loop ends within one round for each byte. It faults only where the context
-- of the guest's tables is not set up or has no level, or a slot lacks a page of its array.
pub kvm_read_guest-HasRead :
    (addr size : ℕ) (s : Machine) → HasRead size s (kvm_read_guest addr size s)
unfolding kvm_read_guest
kvm_read_guest-HasRead addr size s = read_loop-HasRead size addr size s (omega arith)

-- What a writer leaves: everything but the memory as it was, and a count of at most `size`; it faults only for
-- what is missing.
abbrev pub HasWritten : ℕ → Machine → Outcome ℕ → Type 0
HasWritten size s = Ends (Lacks s) λ n t. (n ≤ size) × (t ≡ record s { mem = t.mem })

write_bytes-rest :
    (bs : List ℕ) (a : ℕ) (s : Machine)
    → write_bytes a bs s ≡ record s { mem = (write_bytes a bs s).mem }
unfolding write_bytes write_byte
write_bytes-rest [] a s = refl
write_bytes-rest (b ∷ bs) a s = write_bytes-rest bs (a + 1) (write_byte a b s)

write_loop-HasWritten :
    (rounds addr : ℕ) (bytes : List ℕ) (s : Machine)
    → length bytes ≤ rounds
    → HasWritten (length bytes) s (write_loop rounds addr bytes s)
unfolding write_loop
write_loop-HasWritten zero addr [] s h = ends (omega arith, refl)
write_loop-HasWritten (suc rounds) addr [] s h = ends (omega arith, refl)
write_loop-HasWritten zero addr (b ∷ bs) s h = absurd (omega arith)
write_loop-HasWritten (suc rounds) addr (b ∷ bs) s h =
    then-Ends (gva_to_hpa-Looks addr s) λ (paddr : ℕ) t p. elim (Bool-cases (is_error_hpa paddr)) [
      | inl e ↦
          rw e (ends (omega arith, p ∙ ap (λ (x : Machine). record s { mem = x.mem }) (sym p)))
      | inr e ↦
          let now : ℕ = on_page addr (suc (length bs)) in
          let (pos, fits) = on_page-pos addr (length bs) in
          let left = length-drop now (b ∷ bs) in
          let at : ℕ = page_of paddr + page_offset addr in
          let t' : Machine = write_bytes at (take now (b ∷ bs)) t in
          let rest : t' ≡ record s { mem = t'.mem } =
            write_bytes-rest (take now (b ∷ bs)) at t
            ∙ ap (λ (x : Machine). record x { mem = t'.mem }) p in
          rw e (
            then-Ends
              (excuse (subst Lacks rest) (
                write_loop-HasWritten rounds (u64 (addr + now)) (drop now (b ∷ bs)) t'
                  (omega (arith, left))))
              λ (n : ℕ) u q. ends (
                omega (arith, left, q.0),
                q.1 ∙ ap (λ (x : Machine). record x { mem = u.mem }) rest,
              ))
    ]

-- Whatever the guest maps, `kvm_write_guest` counts at most the bytes that it is given and changes nothing
-- but the memory: its loop ends within one round for each byte. It faults only where the context of the guest's
-- tables is not set up or has no level, or a slot lacks a page of its array.
pub kvm_write_guest-HasWritten :
    (addr : ℕ) (bytes : List ℕ) (s : Machine)
    → HasWritten (length bytes) s (kvm_write_guest addr bytes s)
unfolding kvm_write_guest
kvm_write_guest-HasWritten addr bytes s =
    write_loop-HasWritten (length bytes) addr bytes s (omega arith)
