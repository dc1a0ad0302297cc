-- ===== src/Kernel/Start/Tests.antt =====
-- The kernel's start with the functions at the addresses 1001 to 1007.
use quark_kernel.Base.{ℕ, some, arith}
use quark_kernel.Base.Fault.{Ensures}
use quark_kernel.PriorityQueue.{Node}
use quark_kernel.Kernel.Tests.{sample}
use quark_kernel.Kernel.Start.{Functions, initialize_state}
use quark_kernel.Kernel.Start.Started.{Started, AreLinked, initialize_state-Started}

abbrev functions : Functions
functions = record {
  test_syscall_ptr = 1001;
  mmap_ptr = 1002;
  munmap_ptr = 1003;
  send_ptr = 1004;
  receive_ptr = 1005;
  open_port_ptr = 1006;
  close_port_ptr = 1007;
}

abbrev array : ℕ → Node
array i = record { value = 0; priority = 0 }

are_linked : AreLinked functions
are_linked = record {
  test_syscall_ptr = λ e. omega (arith, e);
  mmap_ptr = λ e. omega (arith, e);
  munmap_ptr = λ e. omega (arith, e);
  send_ptr = λ e. omega (arith, e);
  receive_ptr = λ e. omega (arith, e);
  open_port_ptr = λ e. omega (arith, e);
  close_port_ptr = λ e. omega (arith, e);
}

initialize_state-Started_example :
    Ensures (λ r. Started functions r.1) (initialize_state (some array) functions sample)
initialize_state-Started_example = initialize_state-Started array functions sample are_linked
