-- ===== src/GuestMemory/Bytes.antt =====
-- Host memory by bytes: `memcpy` to and from the words of `Machine.mem`, the low byte first.
use learn_kvm.Base.{ℕ, zero, suc, ◌+◌, ◌*◌, ◌/◌, ◌%◌, ◌^◌, List, [], ◌∷◌}
use learn_kvm.State.{Machine}
use learn_kvm.Vmcs.{update}

-- Byte `k` of a word, and the word with another one there.
unfoldable pub byte_of : ℕ → ℕ → ℕ
byte_of k w = w / 2 ^ (8 * k) % 256

unfoldable pub with_byte : ℕ → ℕ → ℕ → ℕ
with_byte k v w = w / 2 ^ (8 * (k + 1)) * 2 ^ (8 * (k + 1)) + v * 2 ^ (8 * k) + w % 2 ^ (8 * k)

unfoldable pub read_byte : ℕ → Machine → ℕ
read_byte a s = byte_of (a % 8) (s.mem (a / 8))

unfoldable pub write_byte : ℕ → ℕ → Machine → Machine
write_byte a v s = record s { mem = update s.mem (a / 8) (with_byte (a % 8) v (s.mem (a / 8))) }

-- `n` bytes from `a` on.
unfoldable pub read_bytes : ℕ → ℕ → Machine → List ℕ
read_bytes zero a s = []
read_bytes (suc n) a s = read_byte a s ∷ read_bytes n (a + 1) s

unfoldable pub write_bytes : ℕ → List ℕ → Machine → Machine
write_bytes a [] s = s
write_bytes a (b ∷ bs) s = write_bytes (a + 1) bs (write_byte a b s)

-- A little-endian number of bytes.
unfoldable pub of_bytes : List ℕ → ℕ
of_bytes [] = 0
of_bytes (b ∷ bs) = b + 256 * of_bytes bs

unfoldable pub to_bytes : ℕ → ℕ → List ℕ
to_bytes zero v = []
to_bytes (suc n) v = v % 256 ∷ to_bytes n (v / 256)
