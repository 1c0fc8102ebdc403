-- ===== src/GuestMemory/Copy.antt =====
-- `kvm_read_guest` and `kvm_write_guest` of src/2006-11-02/kvm-module/kvm_main.c. Each round of their
-- loops copies at least one byte, so that as many rounds as there are bytes are enough.
use learn_kvm.Base.{
  ℕ, zero, suc, ◌+◌, ◌-◌, true, false, List, [], ◌∷◌, ◌++◌, length, take, drop, min, u64, bit_and,
}
use learn_kvm.Run.{Cmd, ◌>>=◌, ◌>>◌, pure, act, read, out_of_fuel}
use learn_kvm.Slots.{is_error_hpa}
use learn_kvm.Paging.Guest.{page_of}
use learn_kvm.Paging.Dispatch.{gva_to_hpa}
use learn_kvm.GuestMemory.Bytes.{read_bytes, write_bytes}
use learn_kvm.Vmx.Masks.{page_size}

-- `addr & ~PAGE_MASK`.
unfoldable pub page_offset : ℕ → ℕ
page_offset addr = bit_and addr (page_size - 1)

-- How much of `size` is on the page of `addr`.
unfoldable pub on_page : ℕ → ℕ → ℕ
on_page addr size = min size (page_size - page_offset addr)

-- The bytes that are read; their number is what the function returns.
unfoldable pub read_loop : ℕ → ℕ → ℕ → Cmd (List ℕ)
read_loop rounds addr zero = pure []
read_loop zero addr (suc size) = λ s. out_of_fuel
read_loop (suc rounds) addr (suc size) = do
  paddr ← gva_to_hpa addr
  elim (is_error_hpa paddr) [
    | true ↦ pure []
    | false ↦ do
      let now = on_page addr (suc size)
      bytes ← read (read_bytes now (page_of paddr + page_offset addr))
      rest ← read_loop rounds (u64 (addr + now)) (suc size - now)
      pure (bytes ++ rest)
  ]

unfoldable pub kvm_read_guest : ℕ → ℕ → Cmd (List ℕ)
kvm_read_guest addr size = read_loop size addr size

-- The number of bytes that are written.
unfoldable pub write_loop : ℕ → ℕ → List ℕ → Cmd ℕ
write_loop rounds addr [] = pure 0
write_loop zero addr (b ∷ bs) = λ s. out_of_fuel
write_loop (suc rounds) addr (b ∷ bs) = do
  paddr ← gva_to_hpa addr
  elim (is_error_hpa paddr) [
    | true ↦ pure 0
    | false ↦ do
      let now = on_page addr (length (b ∷ bs))
      act (write_bytes (page_of paddr + page_offset addr) (take now (b ∷ bs)))
      rest ← write_loop rounds (u64 (addr + now)) (drop now (b ∷ bs))
      pure (now + rest)
  ]

unfoldable pub kvm_write_guest : ℕ → List ℕ → Cmd ℕ
kvm_write_guest addr bytes = write_loop (length bytes) addr bytes
