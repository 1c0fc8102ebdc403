-- ===== src/User/Handshake.antt =====
-- A read of a device goes from the driver to a process and back: `handle_mmio` of
-- src/2006-11-02/libkvm/kvmctl.c, `kvm_dev_ioctl_run` and `emulator_read_emulated` of
-- src/2006-11-02/kvm-module/kvm_main.c.
use learn_kvm.Base.{
  ℕ, zero, suc, ◌+◌, ◌*◌, ◌/◌, ◌%◌, ◌^◌, ◌≡◌, refl, ap, ◌∙◌, sym, subst, false, List, arith,
}
use native.Mathlib.Nat.{div-add-mod', pow-suc, mul_assoc}
use learn_kvm.State.{Machine}
use learn_kvm.Run.Laws.{Returns, returns}
use learn_kvm.Exit.Report.{KvmRun}
use learn_kvm.GuestMemory.Bytes.{to_bytes}
use learn_kvm.GuestMemory.Emulator.{continues, emulator_read_emulated}
use learn_kvm.Enter.{take_request}
use learn_kvm.User.{User, Result, returned, give, next, KvmContext, KvmCallbacks}
use learn_kvm.User.Exits.{handle_mmio, mmio_read, store_data}

-- Eight bits are a factor of 256.
eight_bits : (k : ℕ) → 2 ^ (suc (suc (suc (suc (suc (suc (suc (suc k)))))))) ≡ 2 ^ k * 256
eight_bits k =
    rw
      (
        pow-suc 2 (suc (suc (suc (suc (suc (suc (suc k))))))),
        pow-suc 2 (suc (suc (suc (suc (suc (suc k)))))),
        pow-suc 2 (suc (suc (suc (suc (suc k))))),
        pow-suc 2 (suc (suc (suc (suc k)))),
        pow-suc 2 (suc (suc (suc k))),
        pow-suc 2 (suc (suc k)),
        pow-suc 2 (suc k),
        pow-suc 2 k,
      )
      (twos (2 ^ k))
  where
    twos : (p : ℕ) → p * 2 * 2 * 2 * 2 * 2 * 2 * 2 * 2 ≡ p * 256
    twos p = omega arith

pow_byte : (n a : ℕ) → a * 2 ^ (8 * suc n) ≡ a * 2 ^ (8 * n) * 256
pow_byte n a =
    let e : 8 * suc n ≡ suc (suc (suc (suc (suc (suc (suc (suc (8 * n)))))))) = omega arith in
    ap (λ (k : ℕ). a * 2 ^ k) e
    ∙ ap (λ (p : ℕ). a * p) (eight_bits (8 * n))
    ∙ sym (mul_assoc a (2 ^ (8 * n)) 256)

-- The low `n` bytes of a number that has them below others.
to_bytes_add : (n a r : ℕ) → to_bytes n (a * 2 ^ (8 * n) + r) ≡ to_bytes n r
unfolding to_bytes
to_bytes_add zero a r = refl
to_bytes_add (suc n) a r =
    let k : ℕ = a * 2 ^ (8 * n) in
    let low : (k * 256 + r) % 256 ≡ r % 256 = omega arith in
    let high : (k * 256 + r) / 256 ≡ k + r / 256 = omega arith in
    rw (pow_byte n a, low, high, to_bytes_add n a (r / 256)) refl

to_bytes-low : (n h v : ℕ) → to_bytes n (h * 2 ^ (8 * n) + v % 2 ^ (8 * n)) ≡ to_bytes n v
to_bytes-low n h v =
    let m : ℕ = 2 ^ (8 * n) in
    to_bytes_add n h (v % m)
    ∙ sym (to_bytes_add n (v / m) (v % m))
    ∙ ap (to_bytes n) (div-add-mod' v m)

-- The widths that `handle_mmio` has a callback for.
pub data IsWidth : ℕ → Type 0 where
  one : IsWidth 1
  two : IsWidth 2
  four : IsWidth 4
  eight : IsWidth 8

-- The callback that reads so many bytes.
abbrev pub reader : {O : Type 0} {n : ℕ} → KvmCallbacks O → IsWidth n → ℕ → User O (ℕ × ℕ)
reader callbacks one = callbacks.readb
reader callbacks two = callbacks.readw
reader callbacks four = callbacks.readl
reader callbacks eight = callbacks.readq

-- What is left in the struct.
abbrev stored : ℕ → KvmRun → ℕ → KvmRun
stored len run v =
    let old = run.mmio.bytes in
    record run {
      mmio = record run.mmio { bytes = old / 2 ^ (8 * len) * 2 ^ (8 * len) + v % 2 ^ (8 * len) };
    }

mmio_read-reader :
    {O : Type 0} (kvm : KvmContext O) (run : KvmRun) (s s' : Machine) (o o' : O) (r v len : ℕ)
    (width : IsWidth len)
    → run.mmio.len ≡ len
    → reader kvm.callbacks width run.mmio.phys_addr s o ≡ returned (r, v) s' o'
    → mmio_read kvm run s o ≡ returned (r, stored len run v) s' o'
unfolding mmio_read store_data
mmio_read-reader kvm run s s' o o' r v _ one q e = simp (q, mmio_read) (rw e refl)
mmio_read-reader kvm run s s' o o' r v _ two q e = simp (q, mmio_read) (rw e refl)
mmio_read-reader kvm run s s' o o' r v _ four q e = simp (q, mmio_read) (rw e refl)
mmio_read-reader kvm run s s' o o' r v _ eight q e = simp (q, mmio_read) (rw e refl)

-- The driver takes the answer of the process, and gives it to the emulator.
taken :
    (run : KvmRun) (t : Machine) (addr n : ℕ)
    → run.mmio_completed ≡ 1
    → Returns
        (λ r _. r ≡ (continues, to_bytes n run.mmio.bytes))
        (emulator_read_emulated addr n (take_request run t))
unfolding take_request emulator_read_emulated
taken run t addr n e = simp (e, take_request, emulator_read_emulated) (returns refl)

handle_mmio-read :
    {O : Type 0} (kvm : KvmContext O) (run : KvmRun) (s : Machine) (o : O)
    → run.mmio.is_write ≡ false
    → handle_mmio kvm run s o
      ≡ next (mmio_read kvm run s o) (λ a. give (a.0, record a.1 { mmio_completed = 1 }))
unfolding handle_mmio
handle_mmio-read kvm run s o w = simp (w, handle_mmio) refl

-- For a read of a device, of a width that handle_mmio has a callback for, and once that callback has returned
-- a value, handle_mmio returns the callback's result; when the driver has taken the struct that it leaves,
-- emulator_read_emulated of as many bytes, at any address, returns the bytes of that value, whatever the
-- machine is by then.
pub handle_mmio-emulator_read :
    {O : Type 0} (kvm : KvmContext O) (run : KvmRun) (s s' : Machine) (o o' : O) (r v len : ℕ)
    (width : IsWidth len)
    → run.mmio.len ≡ len
    → run.mmio.is_write ≡ false
    → reader kvm.callbacks width run.mmio.phys_addr s o ≡ returned (r, v) s' o'
    → (run' : KvmRun) × (handle_mmio kvm run s o ≡ returned (r, run') s' o')
      × ((t : Machine) (addr : ℕ)
          → Returns
              (λ got _. got ≡ (continues, to_bytes len v))
              (emulator_read_emulated addr len (take_request run' t)))
handle_mmio-emulator_read {O} kvm run s s' o o' r v len width q w e =
    let run' : KvmRun = record (stored len run v) { mmio_completed = 1 } in
    (
      run',
      handle_mmio-read kvm run s o w
          ∙ ap
              (λ (x : Result O (ℕ × KvmRun)).
                next x (λ (a : ℕ × KvmRun). give (a.0, record a.1 { mmio_completed = 1 })))
              (mmio_read-reader kvm run s s' o o' r v len width q e),
      λ t addr.
          subst
            (λ (bytes : List ℕ).
              Returns (λ got _. got ≡ (continues, bytes))
                (emulator_read_emulated addr len (take_request run' t)))
            (to_bytes-low len _ v) (taken run' t addr len refl),
    )
