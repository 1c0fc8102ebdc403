-- ===== src/Exit/Exception.antt =====
-- `handle_exception` and `handle_rmode_exception` of src/2006-11-02/kvm-module/kvm_main.c. The parameter
-- `rounds` bounds the rounds of the page fault handlers. An NMI goes to the host's own handler.
use learn_kvm.Base.{
  ℕ, ◌+◌, Bool, true, false, ◌&&◌, ◌==◌, if◌then◌else◌, bit_and, bit_or, Option, none, some,
}
use learn_kvm.State.{Machine}
use learn_kvm.Run.{Cmd, ◌>>=◌, ◌>>◌, pure, act, read}
use learn_kvm.Vmcs.{has, is_page_fault, is_external_interrupt, vmcs_readl, vmcs_read32, on_vcpu}
use learn_kvm.Paging.Dispatch.{mmu_page_fault}
use learn_kvm.Irq.{queue_irq}
use learn_kvm.Exit.Report.{KvmRun, Handler}
use learn_kvm.Exit.Emulate.{Memop, emulate_done, emulate_do_mmio, emulate_fail, emulate_instruction}
use learn_kvm.Vmx.Field
use learn_kvm.Vmx.Masks.{
  gp_vector, vectoring_info_vector_mask, intr_info_vector_mask, intr_info_intr_type_mask,
  intr_info_deliever_code_mask, intr_type_exception, kvm_exit_mmio, kvm_exit_debug,
  kvm_exit_exception,
}

-- The interrupt whose delivery the exit has cut short is queued again.
unfoldable pub requeue : ℕ → Machine → Machine
requeue vect_info s =
    if is_external_interrupt vect_info
    then on_vcpu (queue_irq (bit_and vect_info vectoring_info_vector_mask)) s
    else s

unfoldable pub error_code_of : ℕ → Machine → ℕ
error_code_of intr_info s =
    if has intr_info intr_info_deliever_code_mask
    then vmcs_read32 Field.vm_exit_intr_error_code s
    else 0

unfoldable pub count_mmio_exit : Machine → Machine
count_mmio_exit s = record s { stat = record s.stat { mmio_exits = s.stat.mmio_exits + 1 } }

-- The exits that no one handles are user space's.
unfoldable pub leave : ℕ → ℕ → KvmRun → KvmRun
leave intr_info error_code run =
    if bit_and intr_info (bit_or intr_info_intr_type_mask intr_info_vector_mask)
      == bit_or intr_type_exception 1
    then record run { exit_reason = kvm_exit_debug }
    else record run {
      exit_reason = kvm_exit_exception;
      ex = record { exception = bit_and intr_info intr_info_vector_mask; error_code = error_code };
    }

module _ (memop : Memop) (rounds : ℕ) where
  unfoldable pub handle_rmode_exception : ℕ → ℕ → Cmd Bool
  handle_rmode_exception vec err_code s =
      if s.vcpu.rmode.active && (vec == gp_vector && err_code == 0)
      then (do
        (er, _) ← emulate_instruction memop 0
        elim er [
          | emulate_done ↦ pure true
          | emulate_do_mmio ↦ pure false
          | emulate_fail ↦ pure false
        ])
          s
      else pure false s

  -- A page fault: `some` is the handler's result, `none` that the handler goes on.
  unfoldable pub settle_page_fault : ℕ → ℕ → KvmRun → Cmd (Option Bool × KvmRun)
  settle_page_fault cr2 error_code run = do
    unsettled ← mmu_page_fault rounds cr2 error_code
    elim unsettled [
      | false ↦ pure (some true, run)
      | true ↦ do
        (er, report) ← emulate_instruction memop cr2
        elim er [
          | emulate_done ↦ pure (some true, report run)
          | emulate_do_mmio ↦ do
            act count_mmio_exit
            pure (some false, record (report run) { exit_reason = kvm_exit_mmio })
          | emulate_fail ↦ pure (none, report run)
        ]
    ]

  -- What follows the page fault.
  unfoldable pub finish_exception : ℕ → ℕ → Handler
  finish_exception intr_info error_code run = do
    active ← read (λ s. s.vcpu.rmode.active)
    handled ←
        if active
        then handle_rmode_exception (bit_and intr_info intr_info_vector_mask) error_code
        else pure false
    if handled then pure (true, run) else pure (false, leave intr_info error_code run)

  unfoldable pub handle_exception : Handler
  handle_exception run s =
      let vect_info = vmcs_read32 Field.idt_vectoring_info_field s in
      let intr_info = vmcs_read32 Field.vm_exit_intr_info s in
      let error_code = error_code_of intr_info s in
      let s' = requeue vect_info s in
      if bit_and intr_info intr_info_intr_type_mask == 0x200
      then pure (true, run) s'
      else if is_page_fault intr_info
      then (do
        (settled, run') ← settle_page_fault (vmcs_readl Field.exit_qualification s) error_code run
        elim settled [
          | some goes_on ↦ pure (goes_on, run')
          | none ↦ finish_exception intr_info error_code run'
        ])
          s'
      else finish_exception intr_info error_code run s'
