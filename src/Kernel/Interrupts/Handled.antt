-- ===== src/Kernel/Interrupts/Handled.antt =====
-- What the execution of a handler does.
use quark_kernel.Base.{ℕ, ◌≤◌, ◌<◌, ◌≡◌, ◌≢◌, refl, false, some, All, ==_refl, ne→not-==}
use quark_kernel.Base.Fault.{Ensures, ensures, Ensures-inv}
use quark_kernel.Avl.{avl_get}
use quark_kernel.Kernel.Scheduler.Laws.{entry}
use quark_kernel.PriorityQueue.Order.{IsValid}
use quark_kernel.PriorityQueue.Insert.{Inserted, insert-Inserted}
use quark_kernel.Status.{enone}
use quark_kernel.Kernel.State.{Process, active, to_key}
use quark_kernel.Context.{Stack, stack_pointer}
use quark_kernel.Context.Calls.{IsWord}
use quark_kernel.Kernel.Interrupts.{
  SignalAction, Interrupts, context_words, push_call, stack_of, is_active, call_handler,
  kernel_execute_interrupt_handler,
}
use quark_kernel.Kernel.Interrupts.Frame.{Entered, push_call-Entered}

-- The process at `p` is ready, with the frame of the handler on its stack; the process that ran runs in
-- its address space.
pub record Handled (s : Interrupts) (interrupt : ℕ) (action : SignalAction) (p : ℕ)
    (x running : Process) (r : ℕ × Interrupts) : Type 0 where
  pub status : r.0 ≡ enone
  pub frame : Stack
  pub memory : r.1.memories x.page_table ≡ frame.memory
  pub woken : r.1.kernel.processes p ≡ some (record x { ctx = frame.ctx; state = active })
  pub called : Entered interrupt x.state action (stack_of s x) frame
  pub queue :
      Inserted s.kernel.priority_queue (entry p x.priority) (enone, r.1.kernel.priority_queue)
  pub space : r.1.kernel.space ≡ running.page_table

-- The execution of a handler whose process is alive, waits, and is not the one that runs: the process
-- becomes ready at the start of the handler, with a frame on its stack that holds the interrupt's
-- number, the context, whose stack pointer is the one behind its copy, and the state that the process
-- had, and then the user data and the address of the number as arguments, and the return address; above the
-- frame the stack is as before, and the other registers too. The address space of the process that
-- runs is loaded again. The ready queue is valid and has room, the stack has room for the frame, and
-- the interrupt's number, the registers, the user data and the return address are words of 32 bits.
pub execute-Handled :
    (s : Interrupts) (interrupt a p : ℕ) (action : SignalAction) (x running : Process)
    → avl_get s.interrupt_handlers (to_key interrupt) ≡ some a
    → s.actions a ≡ some action
    → avl_get s.kernel.process_table (to_key action.pid) ≡ some p
    → s.kernel.processes p ≡ some x
    → is_active x.state ≡ false
    → s.kernel.processes s.kernel.active_process ≡ some running
    → s.kernel.active_process ≢ p
    → IsValid s.kernel.priority_queue
    → s.kernel.priority_queue.size < s.kernel.priority_queue.capacity
    → 68 ≤ stack_pointer (stack_of s x)
    → IsWord (stack_pointer (stack_of s x))
    → IsWord interrupt
    → All IsWord (context_words x.ctx)
    → IsWord action.userdata
    → IsWord action.trampoline_ptr
    → Ensures
        (Handled s interrupt action p x running)
        (kernel_execute_interrupt_handler interrupt s)
unfolding kernel_execute_interrupt_handler call_handler
execute-Handled s interrupt a p action x running found live_action known live waits runs other valid
      room stack_room word number_word ctx_words data_word ret_word =
    let ((status, q'), e, r) =
      Ensures-inv (insert-Inserted s.kernel.priority_queue p x.priority valid room) in
    rw (found, live_action, known, live, waits, e, ne→not-== s.kernel.active_process p other, runs)
      (ensures (record {
        status = refl;
        frame = push_call interrupt x.state action (stack_of s x);
        memory = rw (==_refl x.page_table) refl;
        woken = rw (==_refl p) refl;
        called =
            push_call-Entered interrupt x.state (stack_of s x) stack_room word action number_word
              ctx_words data_word ret_word;
        queue = record {
          status = refl;
          valid = r.valid;
          same = r.same;
          size = r.size;
          capacity = r.capacity;
        };
        space = refl;
      }))
