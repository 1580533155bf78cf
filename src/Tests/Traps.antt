-- ===== src/Tests/Traps.antt =====
-- A run of the trap handler.
use system_n.Base.{◌^◌, ◌+◌, refl, arith}
use system_n.Syscall.Heap.{Ensures}
use system_n.Trap.{Env, trap_handler}
use system_n.Trap.Dispatch.{Resumes, trap_handler-Resumes}
use system_n.Tests.Kernels.{image}
use system_n.Tests.Devices.{free_list, machine}

abbrev pub env : Env
env = record { image = image; time = 60; now = 60; sepc = 0x2a4; fuel = 2 ^ 52 + 1 }

trap_handler-Resumes_example :
    Ensures (λ (switch, m'). Resumes 0 machine m') (trap_handler free_list env 8 0 machine)
trap_handler-Resumes_example =
    trap_handler-Resumes free_list env (2 ^ 52) 8 machine refl (omega arith) (omega arith) refl refl
      (omega arith)
