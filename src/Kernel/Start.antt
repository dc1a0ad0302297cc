-- ===== src/Kernel/Start.antt =====
-- The start of the kernel's state: src/kernel.c, the middle part of `kernel_initialize`. The screen,
-- the page map and the heap before it, and the modules and interrupts behind it, are left out.
pub mod Started
mod Tests
use quark_kernel.Base.{ℕ, Option, none, some, Bool, false, ◌==◌, if◌then◌else◌}
use quark_kernel.Avl.{leaf}
use quark_kernel.PriorityQueue.{Node, construct_priority_queue}
use quark_kernel.Status.{enone}
use quark_kernel.Kernel.State.{Kernel, Syscall, null}
use quark_kernel.Kernel.Monad.{M, pure, fault, ◌>>=◌, ◌>>◌, read, modify}
use quark_kernel.Kernel.Syscalls.{set_syscall}

-- `syscall_id_t`.
abbrev pub syscall_test : ℕ
syscall_test = 1

abbrev pub syscall_mmap : ℕ
syscall_mmap = 2

abbrev pub syscall_munmap : ℕ
syscall_munmap = 3

abbrev pub syscall_yield : ℕ
syscall_yield = 4

abbrev pub syscall_exit : ℕ
syscall_exit = 5

abbrev pub syscall_send : ℕ
syscall_send = 6

abbrev pub syscall_receive : ℕ
syscall_receive = 7

abbrev pub syscall_open_port : ℕ
syscall_open_port = 8

abbrev pub syscall_close_port : ℕ
syscall_close_port = 9

-- The addresses of the functions of src/syscalls.c, from the linker.
pub record Functions : Type 0 where
  pub test_syscall_ptr : ℕ
  pub mmap_ptr : ℕ
  pub munmap_ptr : ℕ
  pub send_ptr : ℕ
  pub receive_ptr : ℕ
  pub open_port_ptr : ℕ
  pub close_port_ptr : ℕ

-- What `memset` leaves of an entry of the table.
abbrev pub undefined : Syscall
undefined = record { defined = false; arg_count = 0; process_id = 0; func_ptr = null }

-- The seven calls, whose status is ignored.
unfoldable pub set_syscalls : Functions → M ℕ
set_syscalls f = do
  _ ← set_syscall syscall_test 1 0 f.test_syscall_ptr
  _ ← set_syscall syscall_mmap 3 0 f.mmap_ptr
  _ ← set_syscall syscall_munmap 2 0 f.munmap_ptr
  _ ← set_syscall syscall_send 3 0 f.send_ptr
  _ ← set_syscall syscall_receive 2 0 f.receive_ptr
  _ ← set_syscall syscall_open_port 1 0 f.open_port_ptr
  set_syscall syscall_close_port 1 0 f.close_port_ptr

-- `heap` is what `kmalloc` returns for the array of the queue; a failure stops the kernel.
unfoldable pub initialize_state : (heap : Option (ℕ → Node)) → Functions → M ℕ
initialize_state heap f = do
  modify
      λ k. record k { active_process = null; next_pid = 1; process_table = leaf; port_table = leaf }
  k ← read
  let (status, queue) = construct_priority_queue heap k.priority_queue 512
  modify λ k. record k { priority_queue = queue }
  if status == enone then pure tt else fault
  modify λ k. record k { syscall_table = λ id. undefined }
  set_syscalls f
