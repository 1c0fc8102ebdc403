-- ===== src/Exit/Io.antt =====
-- `handle_io` and `get_io_count` of src/2006-11-02/kvm-module/kvm_main.c.
use learn_kvm.Base.{
  ℕ, ◌+◌, ◌-◌, ◌*◌, ◌/◌, ◌^◌, Bool, true, false, ◌||◌, ◌==◌, ◌!=◌, if◌then◌else◌, List, [], ◌∷◌,
  Option, none, some, bit_and, u16, u32, u64, shr,
}
use learn_kvm.State.{Machine}
use learn_kvm.Run.{Cmd, ◌>>=◌, pure, read}
use learn_kvm.Vmcs.{has, vmcs_readl, vmcs_read32}
use learn_kvm.GuestMemory.Copy.{kvm_read_guest}
use learn_kvm.Exit.Report.{RunIo, Handler}
use learn_kvm.Vmx.Field
use learn_kvm.Vmx.Masks.{
  x86_eflags_vm, x86_eflags_df, ar_l_mask, ar_db_mask, vcpu_regs_rax, vcpu_regs_rcx, kvm_exit_io,
  kvm_exit_io_in, kvm_exit_io_out,
}

-- The size of the count register in bytes, before prefixes.
unfoldable pub countr_size : Machine → ℕ
countr_size s =
    let cs_ar = vmcs_read32 Field.guest_cs_ar_bytes s in
    if has (vmcs_readl Field.guest_rflags s) x86_eflags_vm
    then 2
    else if has cs_ar ar_l_mask
    then 8
    else if has cs_ar ar_db_mask
    then 4
    else 2

-- The prefixes that the scan passes over.
unfoldable pub is_prefix : ℕ → Bool
is_prefix b =
    b == 0xf0
    || b == 0xf2
    || b == 0xf3
    || b == 0x2e
    || b == 0x36
    || b == 0x3e
    || b == 0x26
    || b == 0x64
    || b == 0x65
    || b == 0x66

-- An address size prefix changes the size, and ends the scan as every other byte does.
unfoldable pub other_size : ℕ → ℕ → ℕ
other_size b size = if b == 0x67 then (if size == 2 then 4 else size / 2) else size

unfoldable pub scan_prefixes : List ℕ → ℕ → Option ℕ
scan_prefixes [] size = none
scan_prefixes (b ∷ bs) size =
    if is_prefix b then scan_prefixes bs size else some (other_size b size)

-- `none` is the result 0.
unfoldable pub get_io_count : Cmd (Option ℕ)
get_io_count s =
    let size = countr_size s in
    let rip = vmcs_readl Field.guest_rip s in
    let at = if size != 8 then u64 (rip + vmcs_readl Field.guest_cs_base s) else rip in
    (do
      inst ← kvm_read_guest at 8
      elim (scan_prefixes inst size) [
        | none ↦ pure none
        | some size ↦ λ t. pure (some (bit_and (t.vcpu.regs vcpu_regs_rcx) (2 ^ (8 * size) - 1))) t
      ])
      s

unfoldable pub count_io_exit : Machine → Machine
count_io_exit s = record s { stat = record s.stat { io_exits = s.stat.io_exits + 1 } }

-- The exit qualification and the direction flag.
unfoldable pub io_request : ℕ → Bool → RunIo → RunIo
io_request qualification down io = record io {
  direction = if has qualification 8 then kvm_exit_io_in else kvm_exit_io_out;
  size = bit_and qualification 7 + 1;
  string = has qualification 16;
  string_down = down;
  rep = has qualification 32;
  port = u16 (shr qualification 16);
}

unfoldable pub handle_io : Handler
handle_io run s =
    let q = vmcs_readl Field.exit_qualification s in
    let io = io_request q (has (vmcs_readl Field.guest_rflags s) x86_eflags_df) run.io in
    let run' = record run { exit_reason = kvm_exit_io; io = io } in
    let s' = count_io_exit s in
    if io.string
    then (do
      counted ← get_io_count
      elim counted [
        | none ↦ pure (true, run')
        | some n ↦ do
          address ← read (vmcs_readl Field.guest_linear_address)
          pure (false, record run' { io = record io { count = n; address = address } })
      ])
        s'
    else pure (false, record run' { io = record io { value = u32 (s.vcpu.regs vcpu_regs_rax) } }) s'
