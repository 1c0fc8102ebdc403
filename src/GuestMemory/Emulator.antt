-- ===== src/GuestMemory/Emulator.antt =====
-- The memory accesses of the instruction emulator: the functions of `emulate_ops` of
-- src/2006-11-02/kvm-module/kvm_main.c.
use learn_kvm.Base.{
  ℕ, zero, suc, ◌+◌, ◌-◌, ◌*◌, ◌/◌, ◌%◌, ◌^◌, true, false, List, [], ◌++◌, none, some, ◌==◌, u64,
  shr, if◌then◌else◌,
}
use learn_kvm.State.{Machine, Mmio}
use learn_kvm.Run.{Cmd, ◌>>=◌, ◌>>◌, pure, act, read, deref, out_of_fuel}
use learn_kvm.Vmcs.{on_vcpu}
use learn_kvm.Slots.{gfn_to_memslot, gfn_to_page}
use learn_kvm.Paging.Dispatch.{mmu_gva_to_gpa}
use learn_kvm.GuestMemory.Bytes.{read_bytes, to_bytes}
use learn_kvm.GuestMemory.Copy.{page_offset, on_page}
use learn_kvm.Vmx.Masks.{page_shift, page_size, unmapped_gva}

-- The results X86EMUL_CONTINUE, X86EMUL_UNHANDLEABLE and X86EMUL_PROPAGATE_FAULT.
pub data Access : Type 0 where
  continues unhandleable propagate_fault : Access

-- The bytes read, with as many rounds as there are bytes.
unfoldable pub read_std_loop : ℕ → ℕ → ℕ → Cmd (Access × List ℕ)
read_std_loop rounds addr zero = pure (continues, [])
read_std_loop zero addr (suc bytes) = λ s. out_of_fuel
read_std_loop (suc rounds) addr (suc bytes) = do
  gpa ← mmu_gva_to_gpa addr
  elim (gpa == unmapped_gva) [
    | true ↦ pure (propagate_fault, [])
    | false ↦ λ s. elim (gfn_to_memslot s.kvm (shr gpa page_shift)) [
      | none ↦ pure (unhandleable, []) s
      | some (i, memslot) ↦
          (do
            entry ← deref (gfn_to_page memslot (shr gpa page_shift))
            page ← deref entry
            let tocopy = on_page addr (suc bytes)
            now ← read (read_bytes tocopy (page * page_size + page_offset addr))
            (r, rest) ← read_std_loop rounds (u64 (addr + tocopy)) (suc bytes - tocopy)
            pure (r, now ++ rest))
            s
    ]
  ]

unfoldable pub emulator_read_std : ℕ → ℕ → Cmd (Access × List ℕ)
emulator_read_std addr bytes = read_std_loop bytes addr bytes

unfoldable pub emulator_write_std : ℕ → ℕ → ℕ → Cmd Access
emulator_write_std addr val bytes = pure unhandleable

abbrev pub on_mmio : (Mmio → Mmio) → Machine → Machine
on_mmio f = on_vcpu λ v. record v { mmio = f v.mmio }

-- An access to a device is left to user space.
unfoldable pub request_read : ℕ → ℕ → Machine → Machine
request_read gpa bytes =
    on_mmio λ m. record m { needed = true; phys_addr = gpa; size = bytes; is_write = false }

unfoldable pub emulator_read_emulated : ℕ → ℕ → Cmd (Access × List ℕ)
emulator_read_emulated addr bytes s =
    if s.vcpu.mmio.read_completed
    then (do
      act (on_mmio λ m. record m { read_completed = false })
      pure (continues, to_bytes bytes s.vcpu.mmio.bytes))
        s
    else (do
      (r, got) ← emulator_read_std addr bytes
      elim r [
        | continues ↦ pure (continues, got)
        | _ ↦ do
          gpa ← mmu_gva_to_gpa addr
          if gpa == unmapped_gva
              then pure (propagate_fault, got)
              else do act (request_read gpa bytes); pure (unhandleable, got)
      ])
        s

-- The low `bytes` bytes of the eight.
unfoldable pub overwrite : ℕ → ℕ → ℕ → ℕ
overwrite bytes val old = old / 2 ^ (8 * bytes) * 2 ^ (8 * bytes) + val % 2 ^ (8 * bytes)

unfoldable pub emulator_write_emulated : ℕ → ℕ → ℕ → Cmd Access
emulator_write_emulated addr val bytes = do
  gpa ← mmu_gva_to_gpa addr
  if gpa == unmapped_gva then pure propagate_fault else do
    act (
        on_mmio λ m. record m {
          needed = true;
          phys_addr = gpa;
          size = bytes;
          is_write = true;
          bytes = overwrite bytes val m.bytes;
        })
    pure continues

unfoldable pub emulator_cmpxchg_emulated : ℕ → ℕ → ℕ → ℕ → Cmd Access
emulator_cmpxchg_emulated addr old new bytes = emulator_write_emulated addr new bytes
