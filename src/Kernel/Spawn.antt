-- ===== src/Kernel/Spawn.antt =====
-- The creation of a process: src/kernel.c, `kernel_spawn_process`.
pub mod Spawned
mod Tests
use quark_kernel.Base.{
  ℕ, ◌+◌, ◌-◌, ◌%◌, ◌^◌, Bool, true, false, not, Option, none, some, [], ◌==◌, if◌then◌else◌,
}
use quark_kernel.Base.State.{St, pure, ◌>>=◌, ◌>>◌, read, modify, lift}
use quark_kernel.Avl.{avl_insert}
use quark_kernel.Paging.{Machine, page_size, page_rw, page_usermode, page_present}
use quark_kernel.PageMap.{reserve_page, map_page}
use quark_kernel.Kernel.State.{Kernel, Process, ProcessContext, active, null, put, to_key}
use quark_kernel.Kernel.Monad.{M, enqueue}
use quark_kernel.Kernel.Syscalls.{set_context_pc, set_context_stack, set_context_flags}

-- The kernel and the machine that it runs on.
pub record System : Type 0 where
  pub kernel : Kernel
  pub machine : Machine

abbrev pub with_kernel : {A : Type 0} → System → Option (A × Kernel) → Option (A × System)
with_kernel s none = none
with_kernel s (some (a, k)) = some (a, record s { kernel = k })

abbrev pub in_kernel : {A : Type 0} → M A → St System A
in_kernel m s = with_kernel s (m s.kernel)

abbrev pub with_machine : {A : Type 0} → System → Option (A × Machine) → Option (A × System)
with_machine s none = none
with_machine s (some (a, m)) = some (a, record s { machine = m })

abbrev pub in_machine : {A : Type 0} → St Machine A → St System A
in_machine m s = with_machine s (m s.machine)

abbrev pub default_flags : ℕ
default_flags = 12800

-- The context after `memset`, and with the entry point, the flags and the stack.
abbrev pub initial_context : (kernel_start program_entry : ℕ) → ProcessContext
initial_context kernel_start program_entry = set_context_stack kernel_start (
    set_context_flags default_flags (
      set_context_pc program_entry
        (record { gp_registers = λ i. 0; ss = 0; cs = 0; eip = 0; flags = 0 })))

abbrev pub new_process : (kernel_start program_entry priority address_space pid : ℕ) → Process
new_process kernel_start program_entry priority address_space pid = record {
  pid = pid;
  priority = priority;
  page_table = address_space;
  state = active;
  sending_queue = [];
  message_queue = [];
  message_buffer = null;
  ctx = initial_context kernel_start program_entry;
}

-- The page below the kernel, for the stack.
abbrev pub stack_top_page : ℕ → ℕ
stack_top_page kernel_start = (kernel_start + 2 ^ 32 - page_size) % 2 ^ 32

-- The process at `p` goes into the table and the ready queue.
unfoldable pub add_process : (p : ℕ) (node : Bool) → Process → St System ℕ
add_process p node process = do
  modify λ s. record s {
    kernel = record s.kernel { processes = put s.kernel.processes p (some process) };
  }
  s ← read
  table ← lift (avl_insert node s.kernel.process_table (to_key process.pid) p)
  modify λ s. record s { kernel = record s.kernel { process_table = table } }
  in_kernel (enqueue p process.priority)
  modify λ s. record s { kernel = record s.kernel { next_pid = (s.kernel.next_pid + 1) % 2 ^ 32 } }
  pure process.pid

-- `p` and `context` are what the two calls of `kmalloc` return, and `node` says whether that of the
-- tree's node returns memory. `kernel_start` is the address of the kernel, from the linker.
unfoldable pub kernel_spawn_process :
    (p context : ℕ) (node : Bool) (kernel_start program_entry priority address_space : ℕ)
    → St System ℕ
kernel_spawn_process p context node kernel_start program_entry priority address_space =
    let spawn : ℕ → St System ℕ = λ stack_page. do
      in_machine (
          map_page (stack_top_page kernel_start) stack_page
            (page_present + page_usermode + page_rw))
      s ← read
      add_process p node
          (new_process kernel_start program_entry priority address_space s.kernel.next_pid)
    in let with_stack : St System ℕ = do
      stack_page ← in_machine reserve_page
      if not (stack_page % page_size == 0) then pure 0 else spawn stack_page
      in if p == null then pure 0 else if context == null then pure 0 else with_stack
