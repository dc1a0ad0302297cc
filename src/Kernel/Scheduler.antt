-- ===== src/Kernel/Scheduler.antt =====
-- Processes: src/kernel.c, from `kernel_current_pid` to `kernel_terminate_process`.
pub mod Laws
pub mod Exit
use quark_kernel.Base.{ℕ, List, [], ◌∷◌, Option, none, some, Bool, ◌==◌, if◌then◌else◌}
use quark_kernel.Avl.{avl_get, avl_insert, avl_remove}
use quark_kernel.PriorityQueue.{priorityqueue_extract_min, priorityqueue_remove}
use quark_kernel.Status.{enone, edoesntexist, eexited}
use quark_kernel.Kernel.State.{Kernel, Process, active, null, put, to_key}
use quark_kernel.Kernel.Monad.{
  M, pure, fault, ◌>>=◌, ◌>>◌, read, modify, lift, process_at, set_process, if_found, enqueue,
  set_context_return, paging_load_address_space,
}

unfoldable pub kernel_current_pid : M ℕ
kernel_current_pid = do
  k ← read
  if k.active_process == null
      then pure 0
      else (do process ← process_at k.active_process; pure process.pid)

-- The first half of the scheduler: the active process goes back on the queue.
unfoldable pub requeue_active : M (Unit {0})
requeue_active = do
  k ← read
  if k.active_process == null
      then pure tt
      else (do process ← process_at k.active_process; enqueue k.active_process process.priority)

-- The second half: the next process becomes the active one, or the kernel panics.
unfoldable pub activate_next : M ℕ
activate_next = do
  k ← read
  (next, q) ← lift (priorityqueue_extract_min k.priority_queue)
  modify λ k. record k { priority_queue = q; active_process = next }
  if next == null
      then fault
      else (do process ← process_at next; paging_load_address_space process.page_table; pure next)

-- It returns the process whose context the code returns.
unfoldable pub kernel_advance_scheduler : M ℕ
kernel_advance_scheduler = requeue_active >> activate_next

-- The loop over the senders that wait for a process that ends.
unfoldable pub wake_senders : List ℕ → M (Unit {0})
wake_senders [] = pure tt
wake_senders (sender ∷ senders) = do
  process ← process_at sender
  set_process sender
      (record process { state = active; ctx = set_context_return process.ctx eexited })
  enqueue sender process.priority
  wake_senders senders

-- The `kfree` of the queued messages, of the context and of the process is the end of the process.
unfoldable pub kernel_terminate_process : ℕ → M ℕ
kernel_terminate_process process_id = do
  k ← read
  let terminate : ℕ → M ℕ = λ p. do
    process ← process_at p
    modify
        λ k. record k { active_process = if k.active_process == p then null else k.active_process }
    table ← lift (avl_remove k.process_table (to_key process_id))
    (status, q) ← lift (priorityqueue_remove k.priority_queue p)
    modify λ k. record k { process_table = table; priority_queue = q }
    wake_senders process.sending_queue
    modify λ k. record k { processes = put k.processes p none }
    pure enone
  if_found (avl_get k.process_table (to_key process_id)) terminate (pure edoesntexist)

-- src/syscalls.c
unfoldable pub terminate_self : M ℕ
terminate_self = kernel_current_pid >>= kernel_terminate_process
