-- ===== src/Kernel/Spawn/Spawned.antt =====
-- A process that is created.
use quark_kernel.Base.{
  ℕ, ◌+◌, ◌%◌, ◌^◌, ◌<◌, ◌≡◌, ◌≢◌, refl, true, Option, none, some, ==_refl, ne→not-==, ◌∙◌,
}
use quark_kernel.Base.Fault.{Ensures, ensures, Ensures-inv}
use quark_kernel.Avl.{avl_get}
use quark_kernel.Avl.Entries.{IsOrdered}
use quark_kernel.Avl.Height.{IsBalanced}
use quark_kernel.Avl.Map.{with, get-insert}
use quark_kernel.PriorityQueue.Order.{IsValid}
use quark_kernel.PriorityQueue.Insert.{Inserted, insert-Inserted}
use quark_kernel.Status.{enone}
use quark_kernel.Paging.{Machine, page_rw, page_usermode}
use quark_kernel.Paging.Tree.{IsTree}
use quark_kernel.PageMap.Translate.{IsBelowWindow, IsTree-same}
use quark_kernel.PageMap.Tables.{IsReady}
use quark_kernel.PageMap.Mapping.{Mapped, map_page-Mapped}
use quark_kernel.MemoryCalls.Fill.{reserve_page-reply}
use quark_kernel.Kernel.State.{Process, null, to_key}
use quark_kernel.Kernel.Scheduler.Laws.{entry}
use quark_kernel.Kernel.Spawn.{
  System, new_process, stack_top_page, add_process, kernel_spawn_process,
}

with-other : (key value k : ℕ) (o : Option ℕ) → k ≢ key → with key value k o ≡ o
with-other key value k none ne = rw (ne→not-== k key ne) refl
with-other key value k (some v) ne = refl

-- The new process is in the table and in the ready queue, under the pid that was next, and its stack
-- is mapped to the frame, for the process too.
pub record Spawned (s : System) (p frame : ℕ) (kernel_start : ℕ) (x : Process) (r : ℕ × System)
    : Type 0 where
  pub pid : r.0 ≡ s.kernel.next_pid
  pub process : r.1.kernel.processes p ≡ some x
  pub known : avl_get r.1.kernel.process_table (to_key s.kernel.next_pid) ≡ some p
  pub others :
      (key : ℕ)
      → key ≢ to_key s.kernel.next_pid
      → avl_get r.1.kernel.process_table key ≡ avl_get s.kernel.process_table key
  pub queue :
      Inserted s.kernel.priority_queue (entry p x.priority) (enone, r.1.kernel.priority_queue)
  pub next : r.1.kernel.next_pid ≡ (s.kernel.next_pid + 1) % 2 ^ 32
  pub stack :
      Mapped
        (record s.machine { calls = s.machine.calls + 1 })
        (stack_top_page kernel_start)
        frame
        (65536 + page_usermode + page_rw)
        (enone, r.1.machine)

-- A new process, where memory is to be had: it gets the next pid, is in the process table and in
-- the ready queue, and the page below the kernel is mapped to a new frame for its stack; the other
-- entries of the table are as before. The page tables, the process table and the ready queue are
-- well formed, the queue has room, the pid is free, the frame is an aligned address of 32 bits,
-- and the page is below the window and has its table, or the allocator a free frame for it.
pub spawn-Spawned :
    (s : System) (p context kernel_start program_entry priority address_space frame : ℕ)
    → p ≢ null
    → context ≢ null
    → s.machine.replies s.machine.calls ≡ some frame
    → frame % 4096 ≡ 0
    → frame < 2 ^ 32
    → IsTree s.machine
    → IsBelowWindow (stack_top_page kernel_start)
    → IsReady (record s.machine { calls = s.machine.calls + 1 }) (stack_top_page kernel_start)
    → IsBalanced s.kernel.process_table
    → IsOrdered s.kernel.process_table
    → avl_get s.kernel.process_table (to_key s.kernel.next_pid) ≡ none
    → IsValid s.kernel.priority_queue
    → s.kernel.priority_queue.size < s.kernel.priority_queue.capacity
    → Ensures
        (Spawned s p frame kernel_start
          (new_process kernel_start program_entry priority address_space s.kernel.next_pid))
        (kernel_spawn_process p context true kernel_start program_entry priority address_space s)
unfolding kernel_spawn_process add_process
spawn-Spawned s p context kernel_start program_entry priority address_space frame p_there
      context_there reply aligned small tree low ready balanced ordered free valid room =
    let reserved : Machine = record s.machine { calls = s.machine.calls + 1 } in
    let reserved-IsTree = IsTree-same s.machine reserved refl (λ d. refl) tree in
    let ((status, m), e, mapped) = Ensures-inv (
      map_page-Mapped reserved (stack_top_page kernel_start) frame 65541 reserved-IsTree low aligned
        small ready) in
    let (table, e', (ordered', get)) =
      Ensures-inv
        (get-insert s.kernel.process_table (to_key s.kernel.next_pid) p balanced ordered) in
    let ((status', q'), e'', r) =
      Ensures-inv (insert-Inserted s.kernel.priority_queue p priority valid room) in
    rw
      (
        ne→not-== p null p_there,
        ne→not-== context null context_there,
        reserve_page-reply s.machine frame reply,
        aligned,
        e,
        e',
        e'',
      )
      (ensures (record {
        pid = refl;
        process = rw (==_refl p) refl;
        known = rw (get (to_key s.kernel.next_pid), free, ==_refl (to_key s.kernel.next_pid)) refl;
        others = λ key ne.
            get key
            ∙ with-other (to_key s.kernel.next_pid) p key (avl_get s.kernel.process_table key) ne;
        queue = record {
          status = refl;
          valid = r.valid;
          same = r.same;
          size = r.size;
          capacity = r.capacity;
        };
        next = refl;
        stack = record {
          status = refl;
          tree = mapped.tree;
          here = mapped.here;
          writable = mapped.writable;
          user = mapped.user;
          others = mapped.others;
        };
      }))
