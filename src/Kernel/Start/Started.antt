-- ===== src/Kernel/Start/Started.antt =====
-- The state that the kernel starts with, and what its system calls reach.
use quark_kernel.Base.{
  ℕ, ◌^◌, ◌<◌, ◌≡◌, ◌≢◌, refl, true, false, List, ◌==◌, if◌then◌else◌, some, ne→not-==, lt→ltb,
  lt→not-leb, arith, le→not-ltb,
}
use quark_kernel.Base.Fault.{Ensures, ensures}
use quark_kernel.Avl.{leaf}
use quark_kernel.PriorityQueue.{Node, construct_priority_queue}
use quark_kernel.PriorityQueue.Order.{IsValid}
use quark_kernel.Status.{enone, enosyscall}
use quark_kernel.Kernel.State.{Kernel, Syscall, null, put}
use quark_kernel.Kernel.Monad.{M}
use quark_kernel.Kernel.Syscalls.{syscall_at, set_syscall, do_syscall}
use quark_kernel.Kernel.Start.{Functions, undefined, set_syscalls, initialize_state}

-- What is defined for each number: the number of the arguments and the function.
abbrev pub entry_for : Functions → ℕ → Syscall
entry_for f id =
    if id == 9
    then record { defined = true; arg_count = 1; process_id = 0; func_ptr = f.close_port_ptr }
    else if id == 8
    then record { defined = true; arg_count = 1; process_id = 0; func_ptr = f.open_port_ptr }
    else if id == 7
    then record { defined = true; arg_count = 2; process_id = 0; func_ptr = f.receive_ptr }
    else if id == 6
    then record { defined = true; arg_count = 3; process_id = 0; func_ptr = f.send_ptr }
    else if id == 3
    then record { defined = true; arg_count = 2; process_id = 0; func_ptr = f.munmap_ptr }
    else if id == 2
    then record { defined = true; arg_count = 3; process_id = 0; func_ptr = f.mmap_ptr }
    else if id == 1
    then record { defined = true; arg_count = 1; process_id = 0; func_ptr = f.test_syscall_ptr }
    else undefined

-- No function lies at the address 0.
pub record AreLinked (f : Functions) : Type 0 where
  pub test_syscall_ptr : f.test_syscall_ptr ≢ null
  pub mmap_ptr : f.mmap_ptr ≢ null
  pub munmap_ptr : f.munmap_ptr ≢ null
  pub send_ptr : f.send_ptr ≢ null
  pub receive_ptr : f.receive_ptr ≢ null
  pub open_port_ptr : f.open_port_ptr ≢ null
  pub close_port_ptr : f.close_port_ptr ≢ null

pub record Started (f : Functions) (k : Kernel) : Type 0 where
  pub idle : k.active_process ≡ null
  pub first_pid : k.next_pid ≡ 1
  pub no_processes : k.process_table ≡ leaf
  pub no_ports : k.port_table ≡ leaf
  pub queue : IsValid k.priority_queue
  pub no_ready : k.priority_queue.size ≡ 0
  pub capacity : k.priority_queue.capacity ≡ 512
  pub calls : (id : ℕ) → k.syscall_table id ≡ entry_for f id

-- A call for an entry that is not defined yet, and a function of the kernel.
set_syscall-defines :
    (k : Kernel) (id arg_count func_ptr : ℕ)
    → id < 256
    → (k.syscall_table id).defined ≡ false
    → arg_count < 4
    → func_ptr ≢ null
    → set_syscall id arg_count 0 func_ptr k
      ≡ some (
        enone,
        record k {
          syscall_table = put k.syscall_table id (record {
            defined = true;
            arg_count = arg_count;
            process_id = 0;
            func_ptr = func_ptr;
          });
        },
      )
unfolding set_syscall syscall_at
set_syscall-defines k id arg_count func_ptr lt gone few present =
    rw
      (
        lt→not-leb (2 ^ 31) id (omega arith),
        le→not-ltb 256 id (omega arith),
        lt→ltb id 256 lt,
        gone,
        lt→not-leb (2 ^ 31) arg_count (omega arith),
        le→not-ltb 3 arg_count (omega arith),
        ne→not-== func_ptr null present,
      )
      refl

abbrev entry : (arg_count func_ptr : ℕ) → Syscall
entry arg_count func_ptr = record {
  defined = true;
  arg_count = arg_count;
  process_id = 0;
  func_ptr = func_ptr;
}

-- The tables before and after each call.
abbrev table_0 : Functions → ℕ → Syscall
table_0 f id = undefined

abbrev table_1 : Functions → ℕ → Syscall
table_1 f = put (table_0 f) 1 (entry 1 f.test_syscall_ptr)

abbrev table_2 : Functions → ℕ → Syscall
table_2 f = put (table_1 f) 2 (entry 3 f.mmap_ptr)

abbrev table_3 : Functions → ℕ → Syscall
table_3 f = put (table_2 f) 3 (entry 2 f.munmap_ptr)

abbrev table_4 : Functions → ℕ → Syscall
table_4 f = put (table_3 f) 6 (entry 3 f.send_ptr)

abbrev table_5 : Functions → ℕ → Syscall
table_5 f = put (table_4 f) 7 (entry 2 f.receive_ptr)

abbrev table_6 : Functions → ℕ → Syscall
table_6 f = put (table_5 f) 8 (entry 1 f.open_port_ptr)

-- The table after the seven calls.
set_syscalls-table :
    (f : Functions) (k : Kernel)
    → AreLinked f
    → set_syscalls f (record k { syscall_table = table_0 f })
      ≡ some (enone, record k { syscall_table = entry_for f })
unfolding set_syscalls
set_syscalls-table f k linked =
    rw
      (
        set_syscall-defines (record k { syscall_table = table_0 f }) 1 1 f.test_syscall_ptr
            (omega arith) refl (omega arith) linked.test_syscall_ptr,
        set_syscall-defines (record k { syscall_table = table_1 f }) 2 3 f.mmap_ptr (omega arith)
            refl (omega arith) linked.mmap_ptr,
        set_syscall-defines (record k { syscall_table = table_2 f }) 3 2 f.munmap_ptr (omega arith)
            refl (omega arith) linked.munmap_ptr,
        set_syscall-defines (record k { syscall_table = table_3 f }) 6 3 f.send_ptr (omega arith)
            refl (omega arith) linked.send_ptr,
        set_syscall-defines (record k { syscall_table = table_4 f }) 7 2 f.receive_ptr (omega arith)
            refl (omega arith) linked.receive_ptr,
        set_syscall-defines (record k { syscall_table = table_5 f }) 8 1 f.open_port_ptr
            (omega arith) refl (omega arith) linked.open_port_ptr,
        set_syscall-defines (record k { syscall_table = table_6 f }) 9 1 f.close_port_ptr
            (omega arith) refl (omega arith) linked.close_port_ptr,
      )
      refl

-- Where the queue's array is allocated, the kernel starts with no process, no port and no process
-- ready, and with exactly the system calls test, mmap, munmap, send, receive, open_port and close_port,
-- each with its number of arguments and its function; so the numbers of yield and of exit are not
-- defined. No function lies at the address 0.
pub initialize_state-Started :
    (heap : ℕ → Node) (f : Functions) (k : Kernel)
    → AreLinked f
    → Ensures (λ r. Started f r.1) (initialize_state (some heap) f k)
unfolding initialize_state construct_priority_queue
initialize_state-Started heap f k linked =
    rw
      (set_syscalls-table f
        (record k {
          active_process = null;
          next_pid = 1;
          process_table = leaf;
          port_table = leaf;
          priority_queue = record { heap = heap; size = 0; capacity = 512 };
        })
        linked)
      (ensures (record {
        idle = refl;
        first_pid = refl;
        no_processes = refl;
        no_ports = refl;
        queue = record { heap = λ i pos lt. absurd (omega arith); bounded = omega arith };
        no_ready = refl;
        capacity = refl;
        calls = λ id. refl;
      }))

-- A system call with a number that has no function at the start is answered with ENOSYSCALL, and
-- nothing changes.
pub do_syscall-undefined :
    (call : ℕ → List ℕ → M ℕ) (f : Functions) (k : Kernel) (id a b c pc stack flags : ℕ)
    → Started f k
    → id < 256
    → (entry_for f id).defined ≡ false
    → do_syscall call id a b c pc stack flags k ≡ some (enosyscall, k)
unfolding do_syscall syscall_at
do_syscall-undefined call f k id a b c pc stack flags s lt gone =
    rw (le→not-ltb 256 id (omega arith), lt→ltb id 256 lt, s.calls id, gone) refl
