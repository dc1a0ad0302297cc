-- ===== src/Kernel/State.antt =====
-- include/kernel.h, include/syscalls.h: the data of the kernel.
-- A pointer is a number, NULL is 0. What `kmalloc` hands out is an argument of the operation.
-- A `struct queue_t` is the list of the items on it, the next one first.
use quark_kernel.Base.{ℕ, ◌+◌, ◌%◌, ◌^◌, Bool, Option, List, ◌==◌, if◌then◌else◌}
use quark_kernel.Avl.{Tree}
use quark_kernel.PriorityQueue.{PriorityQueue}

-- The conversion of an `unsigned long` of 32 bits to the `int` key of a tree, held as its offset
-- from INT_MIN.
unfoldable pub to_key : ℕ → ℕ
to_key id = (id + 2 ^ 31) % 2 ^ 32

pub record Message : Type 0 where
  pub sender : ℕ
  pub code : ℕ
  pub args : List ℕ

pub data ProcessState : Type 0 where
  active requesting sending : ProcessState

abbrev pub is_requesting : ProcessState → Bool
is_requesting active = Bool.false
is_requesting requesting = Bool.true
is_requesting sending = Bool.false

-- `struct process_context_t` on i386; `gp_registers` is the array of eight registers.
pub record ProcessContext : Type 0 where
  pub gp_registers : ℕ → ℕ
  pub ss : ℕ
  pub cs : ℕ
  pub eip : ℕ
  pub flags : ℕ

pub record Process : Type 0 where
  pub pid : ℕ
  pub priority : ℕ
  pub page_table : ℕ
  pub state : ProcessState
  pub sending_queue : List ℕ
  pub message_queue : List Message
  pub message_buffer : ℕ
  pub ctx : ProcessContext

pub record Port : Type 0 where
  pub id : ℕ
  pub owner_pid : ℕ

pub record Syscall : Type 0 where
  pub defined : Bool
  pub arg_count : ℕ
  pub process_id : ℕ
  pub func_ptr : ℕ

-- `struct kernel_t`, with the memory that it points to: `processes` and `ports` are the allocated
-- structures, `space` is the loaded top-level page table, and `user` the messages in the memory of
-- each address space.
pub record Kernel : Type 0 where
  pub syscall_table : ℕ → Syscall
  pub priority_queue : PriorityQueue
  pub port_table : Tree ℕ
  pub process_table : Tree ℕ
  pub active_process : ℕ
  pub next_pid : ℕ
  pub processes : ℕ → Option Process
  pub ports : ℕ → Option Port
  pub space : ℕ
  pub user : ℕ → ℕ → Message

abbrev pub null : ℕ
null = 0

-- A write at one argument of a function.
abbrev pub put {ℓ} : {A : Type ℓ} → (ℕ → A) → ℕ → A → ℕ → A
put f p v q = if q == p then v else f q
