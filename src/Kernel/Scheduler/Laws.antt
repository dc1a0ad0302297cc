-- ===== src/Kernel/Scheduler/Laws.antt =====
-- The choice of the scheduler, `kernel_advance_scheduler`, and what is left ready.
use quark_kernel.Base.{
  ltb, ℕ, ◌+◌, ◌≤◌, ◌<◌, ◌≡◌, ◌≢◌, refl, ◌∙◌, ==_refl, ==_iff, ne→not-==, ◌==◌, not, ◌&&◌, false,
  Bool, Option, none, some, arith,
}
use quark_kernel.Base.Fault.{Ensures, ensures, Ensures-map}
use quark_kernel.PriorityQueue.{Node, PriorityQueue}
use quark_kernel.PriorityQueue.Bag.{bit, tally, tally_none, none-tally}
use quark_kernel.PriorityQueue.Order.{key, IsValid}
use quark_kernel.PriorityQueue.Insert.{Inserted, insert-Inserted}
use quark_kernel.PriorityQueue.ExtractMin.{extract_min-least}
use quark_kernel.Kernel.State.{Kernel, Process, null}
use quark_kernel.Kernel.Monad.{Ensures-then, Ensures-lift}
use quark_kernel.Kernel.Scheduler.{requeue_active, activate_next, kernel_advance_scheduler}

-- An entry that is not a live process with that priority.
unfoldable pub is_process : Option Process → ℕ → Bool
is_process none priority = false
is_process (some x) priority = x.priority == priority

abbrev pub is_stray : (ℕ → Option Process) → Node → Bool
is_stray processes e = not (not (e.value == null) && is_process (processes e.value) e.priority)

-- The ready queue is valid, and its entries are live processes with their priorities.
pub record IsReady (k : Kernel) : Type 0 where
  pub valid : IsValid k.priority_queue
  pub live : tally (is_stray k.processes) k.priority_queue.heap k.priority_queue.size ≡ 0

live_entry :
    (o : Option Process) (e : Node)
    → not (not (e.value == null) && is_process o e.priority) ≡ false
    → (e.value ≢ null) × (x : Process) × (o ≡ some x) × (x.priority ≡ e.priority)
unfolding is_process
live_entry none e h = absurd (ground arith)
live_entry (some x) e h = (ground arith, x, refl, ground arith)

abbrev pub entry : ℕ → ℕ → Node
entry value priority = record { value = value; priority = priority }

-- What the second half of the scheduler does: the next process is an entry of the ready queue
-- with a least priority value, it becomes the active one, in its own address space, and the ready
-- queue keeps exactly the other entries.
pub record Entered (k : Kernel) (r : ℕ × Kernel) : Type 0 where
  pub process : Process
  pub running : k.processes r.0 ≡ some process
  pub present : r.0 ≢ null
  pub least : (i : ℕ) → i < k.priority_queue.size → process.priority ≤ key k.priority_queue.heap i
  pub active : r.1.active_process ≡ r.0
  pub space : r.1.space ≡ process.page_table
  pub processes : r.1.processes ≡ k.processes
  pub ready : IsReady r.1
  pub same :
      (p : Node → Bool)
      → tally p r.1.priority_queue.heap r.1.priority_queue.size
          + bit (p (entry r.0 process.priority))
        ≡ tally p k.priority_queue.heap k.priority_queue.size

pub activate_next-Entered :
    (k : Kernel) → IsReady k → 0 < k.priority_queue.size → Ensures (Entered k) (activate_next k)
unfolding activate_next
activate_next-Entered k h pos =
    let top : Node = k.priority_queue.heap 0 in
    let (present, x, live, prio) = live_entry (k.processes top.value) top (
      tally_none (is_stray k.processes) k.priority_queue.heap k.priority_queue.size 0 h.live pos) in
    Ensures-lift _ (extract_min-least k.priority_queue h.valid pos) λ (next, q') r.
      rw (r.value, ne→not-== top.value null present, live)
        (ensures (record {
          process = x;
          running = live;
          present = present;
          least = λ i lt. omega (arith, prio, r.least i lt);
          active = refl;
          space = refl;
          processes = refl;
          ready = record {
            valid = r.valid;
            live = omega (arith, r.same (is_stray k.processes), h.live);
          };
          same = λ p. rw prio (r.same p);
        }))

not-lt : {a b : ℕ} → ltb a b ≡ false → b ≤ a
not-lt h = ground arith

bit_zero : (b : Bool) → bit b ≡ 0 → b ≡ false
bit_zero b h = ground arith

-- Where no process is active, the next one is an entry of the ready queue with a least priority
-- value. It becomes the active process, in its own address space; the ready queue keeps exactly
-- the other entries, and is valid. Before, it is valid and not empty, and its entries are live
-- processes with their priorities.
pub advance-Entered :
    (k : Kernel)
    → IsReady k
    → k.active_process ≡ null
    → 0 < k.priority_queue.size
    → Ensures (Entered k) (kernel_advance_scheduler k)
unfolding kernel_advance_scheduler requeue_active
advance-Entered k h idle pos =
    rw ((==_iff k.active_process null).1 idle) (activate_next-Entered k h pos)

-- What a round of the scheduler does while the process `x` is active: as above, where the next
-- process may be `x` again, which is ready with the others.
pub record Scheduled (k : Kernel) (x : Process) (r : ℕ × Kernel) : Type 0 where
  pub process : Process
  pub running : k.processes r.0 ≡ some process
  pub present : r.0 ≢ null
  pub least : (i : ℕ) → i < k.priority_queue.size → process.priority ≤ key k.priority_queue.heap i
  pub least_active : process.priority ≤ x.priority
  pub active : r.1.active_process ≡ r.0
  pub space : r.1.space ≡ process.page_table
  pub ready : IsReady r.1
  pub same :
      (p : Node → Bool)
      → tally p r.1.priority_queue.heap r.1.priority_queue.size
          + bit (p (entry r.0 process.priority))
        ≡ tally p k.priority_queue.heap k.priority_queue.size
          + bit (p (entry k.active_process x.priority))

module _ (k : Kernel) (x : Process) (status : ℕ) (q' : PriorityQueue) (h : IsReady k)
    (present : k.active_process ≢ null) (live : k.processes k.active_process ≡ some x)
    (r : Inserted k.priority_queue (entry k.active_process x.priority) (status, q')) where
  abbrev requeued : Kernel
  requeued = record k { priority_queue = q' }

  requeued-IsReady : IsReady requeued
  unfolding is_process
  requeued-IsReady = record {
    valid = r.valid;
    live =
        let active_live : is_stray k.processes (entry k.active_process x.priority) ≡ false =
          rw (live, is_process, ne→not-== k.active_process null present, ==_refl x.priority) refl in
        rw (r.same (is_stray k.processes), h.live, active_live) refl;
  }

  scheduled : (n : ℕ) (k' : Kernel) → Entered requeued (n, k') → Scheduled k x (n, k')
  scheduled n k' e =
      let lower : Node → Bool = λ a. ltb a.priority e.process.priority in
      let clear = none-tally lower q'.heap q'.size λ i lt. ground (arith, e.least i lt) in
      record {
        process = e.process;
        running = e.running;
        present = e.present;
        least = λ i lt. not-lt (
            tally_none lower k.priority_queue.heap k.priority_queue.size i
              (omega (arith, clear, r.same lower)) lt);
        least_active = not-lt (bit_zero _ (omega (arith, clear, r.same lower)));
        active = e.active;
        space = e.space;
        ready = e.ready;
        same = λ p. e.same p ∙ r.same p;
      }

-- On a round of the scheduler while the process `x` is active: the next process has a least
-- priority value among `x` and the ready ones. It becomes the active process, in its own address
-- space; the ready queue then holds exactly the others, and is valid. Before, the ready queue is
-- valid, its entries are live processes with their priorities, and it has room for `x`.
pub advance-Scheduled :
    (k : Kernel) (x : Process)
    → IsReady k
    → k.active_process ≢ null
    → k.processes k.active_process ≡ some x
    → k.priority_queue.size < k.priority_queue.capacity
    → Ensures (Scheduled k x) (kernel_advance_scheduler k)
unfolding kernel_advance_scheduler requeue_active
advance-Scheduled k x h present live room =
    rw (ne→not-== k.active_process null present, live)
      (Ensures-then {P = λ r. Ensures (Scheduled k x) (activate_next r.1)}
        (Ensures-lift _ (insert-Inserted k.priority_queue k.active_process x.priority h.valid room)
          λ (status, q') r. ensures (
            Ensures-map
              (activate_next-Entered (requeued k x status q' h present live r)
                (requeued-IsReady k x status q' h present live r) (omega (arith, r.size)))
              λ (n, k') e. scheduled k x status q' h present live r n k' e))
        λ u k' z. z)
