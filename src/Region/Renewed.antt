-- ===== src/Region/Renewed.antt =====
-- What the reset of the shadow contexts leaves of a change of the slots.
use learn_kvm.Base.{ℕ, ◌/◌, ◌≡◌, refl, inl, inr, ap, List, ◌∷◌, Bool-cases, length}
use learn_kvm.State.{Machine, Kvm}
use learn_kvm.Status.{Status, success, error}
use learn_kvm.Run.Laws.{Returns, returns}
use learn_kvm.Cpu.Cr.Stays.{core, reset-core}
use learn_kvm.Mmu.Context.{kvm_mmu_reset_context}
use learn_kvm.Mmu.Context.Kept.{configuration, reset-Kept}
use learn_kvm.Mmu.Pool.{IsPooled, PoolStep-IsPooled, resets}
use learn_kvm.Ioctl.Load.{vcpu_load}
use learn_kvm.Region.{MemoryRegion, Round, Release, Pass, returned, raced, set_memory_region}
use learn_kvm.Region.Outcome.{IsQuiet, Installed, Settled, set_memory_region-Settled}
use learn_kvm.Region.Ioctl.{reset_vcpus, finish_region, kvm_dev_ioctl_set_memory_region}

-- The configuration is there, a header is on one of the lists, and the mode is the same.
pub record Renewed (h : ℕ) (kvm : Kvm) (s t : Machine) : Type 0 where
  pub configured : configuration t.kvm ≡ configuration kvm
  pub pooled : IsPooled h t
  pub mode : core t ≡ core s

reset_vcpus-Renewed :
    (h : ℕ) (kvm : Kvm) (s : Machine)
    → kvm.active_mmu_pages ≡ s.kvm.active_mmu_pages
    → IsPooled h s
    → Renewed h kvm s (reset_vcpus (record s { kvm = kvm }))
unfolding reset_vcpus
reset_vcpus-Renewed h kvm s same p =
    let s' : Machine = record s { kvm = kvm } in
    let before : IsPooled h s' = rw same p in
    elim (Bool-cases (vcpu_load s')) [
      | inl e ↦
          let (_, _, k, _) = reset-Kept s' in
          rw e (record {
            configured = k;
            pooled = PoolStep-IsPooled h s' (kvm_mmu_reset_context s') resets before;
            mode = reset-core s';
          })
      | inr e ↦ rw e (record { configured = refl; pooled = before; mode = refl })
    ]

-- An error leaves the machine as it is; a success installs the slot and renews the shadow contexts.
abbrev pub IsRenewed : ℕ → MemoryRegion → Machine → Status × List Release → Machine → Type 0
IsRenewed h mem s (success, log) t =
    (kvm : Kvm) × Installed mem.slot (mem.guest_phys_addr / 4096) (mem.memory_size / 4096) s.kvm kvm
    × Renewed h kvm s t
IsRenewed h mem s (error e, log) t = t ≡ s

finish-IsRenewed :
    (h : ℕ) (mem : MemoryRegion) (s : Machine) (p : Pass)
    → IsPooled h s
    → Settled mem.slot (mem.guest_phys_addr / 4096) (mem.memory_size / 4096) s.kvm p
    → Returns (IsRenewed h mem s) (finish_region s p)
unfolding finish_region
finish-IsRenewed h mem s (returned success kvm log) pooled settled =
    returns (kvm, settled, reset_vcpus-Renewed h kvm s settled.pages pooled)
finish-IsRenewed h mem s (returned (error e) kvm log) pooled settled =
    returns (ap (λ (k : Kvm). record s { kvm = k }) settled)
finish-IsRenewed h mem s (raced kvm log) pooled settled = absurd settled

-- With nobody else at work kvm_dev_ioctl_set_memory_region returns. An error leaves the whole machine
-- as it was. After a success the slot covers the requested frames in a new version of the
-- configuration, which the reset of the shadow context has kept, and the processor's mode too, and a
-- header of a shadow page that was on exactly one of the free and the active list still is.
pub set_memory_region-IsRenewed :
    (h : ℕ) (mem : MemoryRegion) (r : Round) (rs : List Round) (s : Machine)
    → IsPooled h s
    → IsQuiet r
    → length s.kvm.memslots ≡ 4
    → Returns (IsRenewed h mem s) (kvm_dev_ioctl_set_memory_region mem (r ∷ rs) s)
unfolding kvm_dev_ioctl_set_memory_region
set_memory_region-IsRenewed h mem r rs s pooled quiet four =
    finish-IsRenewed h mem s (set_memory_region mem (r ∷ rs) s.kvm) pooled
      (set_memory_region-Settled mem r rs s.kvm quiet four)
