-- ===== src/Tests/Lives.antt =====
-- Objects that own a descriptor, at concrete inputs.
use min_bp.Prelude.{◌≡◌, true, [], ◌∷◌, none, some}
use min_bp.Kvm.{Machine}
use min_bp.VCpu
use min_bp.KvmSystem.{KvmSystem, open_system, create_vm}
use min_bp.VirtualMachine.{VirtualMachine, add_vcpu}
use min_bp.VirtualMachine
use min_bp.Main.Process.Objects.{Object, total, destroy_all}
use min_bp.Main.Process.Objects.Balance.{OneOwner}
use min_bp.Main.Process.Objects.Lifetime.{
  Objects, objects, Reach, start, further, opens, makes_vm, adds_vcpu, moves, Reach-OneOwner,
}
use min_bp.Tests.Toy.{Toy, toy, machine, kernel, vcpu, toy_is_open}
use min_bp.Tests.Endings.{toy_process}

abbrev system : KvmSystem
system = record { fd = some 5; api_version = 12; vcpu_mmap_size = 4096 }

abbrev empty_vm : VirtualMachine
empty_vm = VirtualMachine.new (some 6) 4096

abbrev vm : VirtualMachine
vm = record empty_vm { vcpus = vcpu ∷ [] }

abbrev opened : Machine Toy
opened = record (machine []) { kernel = record (kernel []) { device = true } }

abbrev with_vm : Machine Toy
with_vm = record (machine []) { kernel = record (kernel []) { device = true; vm = true } }

abbrev with_vcpu : Machine Toy
with_vcpu = record (machine []) {
  kernel = record (kernel []) { device = true; vm = true; vcpu = true };
}

-- The VM with its vCPU, what the move left of it, and the system.
abbrev after_move : Objects Toy
after_move =
    objects
      (Object.machine vm
        ∷ Object.machine (record vm { fd = none; vcpus = [] })
        ∷ Object.system system
        ∷ [])
      with_vcpu

opened-Reach :
    Reach toy toy_process (objects [] (machine [])) (objects (Object.system system ∷ []) opened)
unfolding open_system
opened-Reach = further start (opens "/dev/kvm" [] (machine []))

made-Reach :
    Reach toy toy_process
      (objects [] (machine []))
      (objects (Object.machine empty_vm ∷ Object.system system ∷ []) with_vm)
unfolding create_vm
made-Reach = further opened-Reach (makes_vm system [] opened)

vcpu-Reach :
    Reach toy toy_process
      (objects [] (machine []))
      (objects (Object.machine vm ∷ Object.system system ∷ []) with_vcpu)
unfolding add_vcpu VCpu.create
vcpu-Reach = further made-Reach (adds_vcpu 0 empty_vm (Object.system system ∷ []) with_vm)

after_move-Reach : Reach toy toy_process (objects [] (machine [])) after_move
unfolding VirtualMachine.move
after_move-Reach =
    further vcpu-Reach (moves (Object.machine vm) (Object.system system ∷ []) with_vcpu)

Reach-OneOwner_example :
    OneOwner (total after_move.all 7) (toy_is_open with_vcpu.kernel 7) (toy_is_open (kernel []) 7)
    × (toy_is_open (destroy_all toy after_move.all after_move.now).kernel 7
        ≡ toy_is_open (kernel []) 7)
Reach-OneOwner_example = Reach-OneOwner toy toy_process (machine []) after_move after_move-Reach 7
