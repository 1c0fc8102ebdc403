-- ===== src/Region/Ioctl.antt =====
-- `kvm_dev_ioctl_set_memory_region` on the whole machine: the slots, and then the shadow contexts of
-- the vcpus (src/2006-11-02/kvm-module/kvm_main.c).
use learn_kvm.Base.{List, if◌then◌else◌}
use learn_kvm.State.{Machine}
use learn_kvm.Status.{Status, success, error}
use learn_kvm.Run.{Cmd, Outcome, done, out_of_fuel}
use learn_kvm.Mmu.Context.{kvm_mmu_reset_context}
use learn_kvm.Ioctl.Load.{vcpu_load}
use learn_kvm.Region.{MemoryRegion, Round, Release, Pass, returned, raced, set_memory_region}

-- KVM_MAX_VCPUS is 1, so that the loop has one round.
unfoldable pub reset_vcpus : Machine → Machine
reset_vcpus s = if vcpu_load s then kvm_mmu_reset_context s else s

-- Only a commit reaches the loop. Out of fuel is a race with no rounds left.
unfoldable pub finish_region : Machine → Pass → Outcome (Status × List Release)
finish_region s (returned success kvm log) =
    done (success, log) (reset_vcpus (record s { kvm = kvm }))
finish_region s (returned (error e) kvm log) = done (error e, log) (record s { kvm = kvm })
finish_region s (raced kvm log) = out_of_fuel

unfoldable pub kvm_dev_ioctl_set_memory_region :
    MemoryRegion → List Round → Cmd (Status × List Release)
kvm_dev_ioctl_set_memory_region mem rounds s = finish_region s (set_memory_region mem rounds s.kvm)
