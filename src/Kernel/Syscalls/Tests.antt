-- ===== src/Kernel/Syscalls/Tests.antt =====
-- The theorems on the system call table at a concrete state.
use quark_kernel.Base.{◌≡◌, none, arith, ◌==◌, if◌then◌else◌, true, false}
use quark_kernel.Base.Fault.{Ensures}
use quark_kernel.Kernel.State.{Kernel}
use quark_kernel.Kernel.Tests.{sample}
use quark_kernel.Kernel.Syscalls.{set_syscall}
use quark_kernel.Kernel.Syscalls.Laws.{IsTable, Kept, set_syscall-Kept, set_syscall-past_table}

past_table_faults : set_syscall 256 2 1 4096 sample ≡ none
past_table_faults = set_syscall-past_table sample 2 1 4096

-- Call 5, of one argument, belongs to process 2.
abbrev called : Kernel
called = record sample {
  syscall_table = λ i.
      if i == 5
      then record { defined = true; arg_count = 1; process_id = 2; func_ptr = 4096 }
      else record { defined = false; arg_count = 0; process_id = 0; func_ptr = 1 };
}

called-IsTable : IsTable called.syscall_table
called-IsTable id d = (ground arith, ground arith)

-- Call 6 is free.
set_syscall-Kept_example : Ensures (Kept called) (set_syscall 6 2 0 8192 called)
set_syscall-Kept_example = set_syscall-Kept called 6 2 0 8192 called-IsTable (omega arith)
