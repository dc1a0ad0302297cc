-- ===== src/Kernel/Scheduler/Exit.antt =====
-- The end of the process that runs: `terminate_self` and `kernel_terminate_process`.
use quark_kernel.Base.{ℕ, ◌≤◌, ◌≡◌, ◌≢◌, refl, ==_refl, ne→not-==, [], none, some}
use quark_kernel.Base.Fault.{Ensures, ensures}
use quark_kernel.Avl.{avl_get}
use quark_kernel.Avl.Entries.{IsOrdered}
use quark_kernel.Avl.Map.{without, get-remove}
use quark_kernel.PriorityQueue.Remove.{NoneBefore, remove-missing}
use quark_kernel.Status.{enone}
use quark_kernel.Kernel.State.{Kernel, Process, null, put, to_key}
use quark_kernel.Kernel.Monad.{Ensures-lift}
use quark_kernel.Kernel.Scheduler.{
  kernel_current_pid, wake_senders, kernel_terminate_process, terminate_self,
}

-- The process is gone from the memory and from the table, no process is active, and the ready
-- queue and the other processes are as before.
pub record Exited (k : Kernel) (pid : ℕ) (r : ℕ × Kernel) : Type 0 where
  pub status : r.0 ≡ enone
  pub freed : r.1.processes ≡ put k.processes k.active_process none
  pub idle : r.1.active_process ≡ null
  pub table :
      (key : ℕ)
      → avl_get r.1.process_table key ≡ without (to_key pid) key (avl_get k.process_table key)
  pub ordered : IsOrdered r.1.process_table
  pub queue : r.1.priority_queue ≡ k.priority_queue

-- The process that runs ends: it is gone from the memory and from the process table, no process
-- is active, and the ready queue and the other processes are as before. It is in the process
-- table, which is ordered, and not in the ready queue, and no sender waits for it.
pub terminate_self-Exited :
    (k : Kernel) (x : Process)
    → k.active_process ≢ null
    → k.processes k.active_process ≡ some x
    → avl_get k.process_table (to_key x.pid) ≡ some k.active_process
    → IsOrdered k.process_table
    → k.priority_queue.size ≤ k.priority_queue.capacity
    → NoneBefore k.priority_queue k.active_process 0 k.priority_queue.size
    → x.sending_queue ≡ []
    → Ensures (Exited k x.pid) (terminate_self k)
unfolding terminate_self kernel_current_pid kernel_terminate_process wake_senders
terminate_self-Exited k x present live found o room absent alone =
    rw (ne→not-== k.active_process null present, live, found, live, ==_refl k.active_process)
      (Ensures-lift _ (get-remove k.process_table (to_key x.pid) o) λ t' r.
        rw (remove-missing k.priority_queue k.active_process room absent, alone)
          (ensures (record {
            status = refl;
            freed = refl;
            idle = refl;
            table = r.1;
            ordered = r.0;
            queue = refl;
          })))
