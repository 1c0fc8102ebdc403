-- ===== src/User/Access.antt =====
-- The accesses of `handle_io` of src/2006-11-02/libkvm/kvmctl.c end, and keep the counters.
use learn_kvm.Base.{
  ℕ, zero, suc, ◌+◌, ◌-◌, ◌≡◌, refl, inl, inr, ◌||◌, ◌&&◌, ltb, leb, ◌==◌, ◌!=◌, Bool-cases, Option,
  Option-cases, List, [], ◌∷◌, u16, u64, shr,
}
use learn_kvm.State.{Machine}
use learn_kvm.Run.Laws.{Ends, ends, breaks, then-Ends, weaken-Ends, deref-Ends, excuse}
use learn_kvm.Run.{Outcome}
use learn_kvm.Slots.{gfn_to_memslot, gfn_to_page}
use learn_kvm.GuestMemory.Bytes.{write_byte, to_bytes}
use learn_kvm.Paging.Reads.{mmu_gva_to_gpa-Looks}
use learn_kvm.Ioctl.Debug.{KvmTranslation, kvm_dev_ioctl_translate}
use learn_kvm.Ioctl.Load.{vcpu_load}
use learn_kvm.Vmx.Masks.{page_shift, kvm_exit_io_in, kvm_exit_io_out}
use learn_kvm.User.{KvmContext}
use learn_kvm.User.Laws.{
  Finishes, finishes, exits, dies, then-Finishes, entered-Finishes, Loaded, Tame, PortsReturn,
}
use learn_kvm.User.Memory.{
  VmArea, kvm_dev_nopage, touch, load_bytes, store_bytes, TranslationCache, look_up, translate,
}
use learn_kvm.User.Io.{
  IoLoop, Place, rax, at, load_value, store_value, port_in, port_out, loaded_value, transfer,
  value_place,
}

-- Every fault is allowed here, since it ends the process.
abbrev Quiet : {A : Type 0} → Machine → Outcome A → Type 0
Quiet s = Ends (Unit {0}) λ _ t. t ≡ s

nopage-Quiet : (vma : VmArea) (address : ℕ) (s : Machine) → Quiet s (kvm_dev_nopage vma address s)
unfolding kvm_dev_nopage
nopage-Quiet vma address s =
    let pgoff : ℕ = u64 (shr (address - vma.vm_start) page_shift + vma.vm_pgoff) in
    elim (Option-cases (gfn_to_memslot s.kvm pgoff)) [
      | inl e ↦ rw (e, kvm_dev_nopage) (ends refl)
      | inr ((i, slot), e) ↦
          rw (e, kvm_dev_nopage)
            (weaken-Ends (deref-Ends (gfn_to_page slot pgoff) s λ _. tt) λ _ t p. p.1)
    ]

translate-Quiet : (tr : KvmTranslation) (s : Machine) → Quiet s (kvm_dev_ioctl_translate tr s)
unfolding kvm_dev_ioctl_translate
translate-Quiet tr s = elim (Bool-cases (tr.vcpu != 0)) [
  | inl e ↦ rw e (breaks tt)
  | inr e ↦ elim (Bool-cases (vcpu_load s)) [
    | inl l ↦
        rw (e, l)
          (then-Ends (excuse (λ _. tt) (mmu_gva_to_gpa-Looks tr.linear_address s)) λ _ t p. ends p)
    | inr l ↦ rw (e, l) (ends refl)
  ]
]

-- The request and the counters are as before.
pub record Same (l l' : IoLoop) : Type 0 where
  pub io : l'.io ≡ l.io
  pub rcx : l'.regs.rcx ≡ l.regs.rcx
  pub rsi : l'.regs.rsi ≡ l.regs.rsi
  pub rdi : l'.regs.rdi ≡ l.regs.rdi
  pub rip : l'.regs.rip ≡ l.regs.rip

same : (l : IoLoop) → Same l l
same l = record { io = refl; rcx = refl; rsi = refl; rdi = refl; rip = refl }

module _ {O : Type 0} (kvm : KvmContext O) where
  touch-Tame : (address : ℕ) → Tame (touch kvm address)
  unfolding touch
  touch-Tame address s o h =
      elim (Bool-cases
        (ltb address kvm.physical_memory || leb (kvm.physical_memory + kvm.mapped) address)) [
          | inl e ↦ rw e dies
          | inr e ↦ rw e (
              then-Finishes (entered-Finishes s o h (nopage-Quiet _ address s))
                λ (page : Option ℕ) t o' p. elim (Option-cases page) [
                  | inl q ↦ rw q dies
                  | inr (pfn, q) ↦ rw q (finishes p)
                ])
        ]

  load_bytes-Tame : (n address : ℕ) → Tame (load_bytes kvm n address)
  unfolding load_bytes
  load_bytes-Tame zero address s o h = finishes h
  load_bytes-Tame (suc n) address s o h = then-Finishes (touch-Tame address s o h) λ place t o' p.
      then-Finishes (load_bytes-Tame n (address + 1) t o' p) λ rest u o'' q. finishes q

  store_bytes-Tame : (address : ℕ) (bytes : List ℕ) → Tame (store_bytes kvm address bytes)
  unfolding store_bytes write_byte
  store_bytes-Tame address [] s o h = finishes h
  store_bytes-Tame address (b ∷ bs) s o h =
      then-Finishes (touch-Tame address s o h)
        λ place t o' p. store_bytes-Tame (address + 1) bs (write_byte place b t) o' p

  look_up-Tame : (vcpu : ℕ) (tr : TranslationCache) (page : ℕ) → Tame (look_up kvm vcpu tr page)
  unfolding look_up
  look_up-Tame vcpu tr page s o h = elim (Bool-cases (tr.physical != 0 && tr.linear == page)) [
    | inl e ↦ rw e (finishes h)
    | inr e ↦
        rw e (then-Finishes (entered-Finishes s o h (translate-Quiet _ s)) λ _ t o' p. finishes p)
  ]

  translate-Tame :
      (vcpu : ℕ) (tr : TranslationCache) (linear : ℕ) → Tame (translate kvm vcpu tr linear)
  unfolding translate
  translate-Tame vcpu tr linear s o h =
      then-Finishes (look_up-Tame vcpu tr _ s o h) λ _ t o' p. finishes p

  load_value-Tame : (place : Place) (size : ℕ) (l : IoLoop) → Tame (load_value kvm place size l)
  unfolding load_value
  load_value-Tame rax size l s o h = finishes h
  load_value-Tame (at address) size l s o h =
      then-Finishes (load_bytes-Tame size address s o h) λ _ t o' p. finishes p

  store_value-Same :
      (place : Place) (size value : ℕ) (l : IoLoop) (s : Machine) (o : O)
      → Loaded s
      → Finishes (λ l' t _. Loaded t × Same l l') (store_value kvm place size value l s o)
  unfolding store_value
  store_value-Same rax size value l s o h =
      finishes (h, record { io = refl; rcx = refl; rsi = refl; rdi = refl; rip = refl })
  store_value-Same (at address) size value l s o h =
      then-Finishes (store_bytes-Tame address (to_bytes size value) s o h)
        λ _ t o' p. finishes (p, same l)

  loaded_value-Tame : (place : Place) (l : IoLoop) → Tame (loaded_value kvm place l)
  unfolding loaded_value
  loaded_value-Tame place l s o h =
      elim (Bool-cases (l.io.size == 1 || l.io.size == 2 || l.io.size == 4)) [
        | inl e ↦ rw e (load_value-Tame place l.io.size l s o h)
        | inr e ↦ rw e exits
      ]

  module _ (ports : PortsReturn kvm.callbacks) where
    port_in-Tame : (size addr : ℕ) → Tame (port_in kvm size addr)
    unfolding port_in
    port_in-Tame size addr s o h = elim (Bool-cases (size == 1)) [
      | inl e ↦ rw e (ports.inb addr s o h)
      | inr e ↦ elim (Bool-cases (size == 2)) [
        | inl e2 ↦ rw (e, e2) (ports.inw addr s o h)
        | inr e2 ↦ elim (Bool-cases (size == 4)) [
          | inl e4 ↦ rw (e, e2, e4) (ports.inl addr s o h)
          | inr e4 ↦ rw (e, e2, e4) exits
        ]
      ]
    ]

    port_out-Tame : (size addr value : ℕ) → Tame (port_out kvm size addr value)
    unfolding port_out
    port_out-Tame size addr value s o h = elim (Bool-cases (size == 1)) [
      | inl e ↦ rw e (ports.outb addr value s o h)
      | inr e ↦ elim (Bool-cases (size == 2)) [
        | inl e2 ↦ rw (e, e2) (ports.outw addr value s o h)
        | inr e2 ↦ elim (Bool-cases (size == 4)) [
          | inl e4 ↦ rw (e, e2, e4) (ports.outl addr value s o h)
          | inr e4 ↦ rw (e, e2, e4) exits
        ]
      ]
    ]

    pub transfer-Same :
        (place : Place) (l : IoLoop) (s : Machine) (o : O)
        → Loaded s
        → Finishes (λ r t _. Loaded t × Same l r.1) (transfer kvm place l s o)
    unfolding transfer loaded_value
    transfer-Same place l s o h = elim (Bool-cases (l.io.direction == kvm_exit_io_in)) [
      | inl e ↦ rw e (
          then-Finishes (port_in-Tame l.io.size (u16 l.io.port) s o h) λ (r, value) t o' p.
            then-Finishes (store_value-Same place l.io.size value l t o' p)
              λ l' u o'' q. finishes q)
      | inr e ↦ elim (Bool-cases (l.io.direction == kvm_exit_io_out)) [
        | inl f ↦
            rw (e, f)
              (then-Finishes (loaded_value-Tame place l s o h) λ value t o' p.
                then-Finishes (port_out-Tame l.io.size (u16 l.io.port) value t o' p)
                  λ r u o'' q. finishes (q, same l))
        | inr f ↦ rw (e, f) exits
      ]
    ]

  pub value_place-Same :
      (vcpu : ℕ) (l : IoLoop) (s : Machine) (o : O)
      → Loaded s
      → Finishes (λ r t _. Loaded t × Same l r.1) (value_place kvm vcpu l s o)
  unfolding value_place
  value_place-Same vcpu l s o h = elim (Bool-cases l.io.string) [
    | inl e ↦
        simp (e, value_place)
          (then-Finishes (translate-Tame vcpu l.tr l.io.address s o h) λ (found, tr) t o' p.
            elim (Option-cases found) [
              | inl q ↦ rw q exits
              | inr (address, q) ↦ rw q (
                  finishes
                    (p, record { io = refl; rcx = refl; rsi = refl; rdi = refl; rip = refl }))
            ])
    | inr e ↦ simp (e, value_place) (finishes (h, same l))
  ]
