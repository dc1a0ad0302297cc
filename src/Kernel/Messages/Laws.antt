-- ===== src/Kernel/Messages/Laws.antt =====
-- What a message that is sent becomes: delivered to a process that waits, or queued.
use quark_kernel.Base.{
  ℕ, ◌+◌, ◌/◌, ◌%◌, ◌≤◌, ◌<◌, ◌≡◌, ◌≢◌, refl, inl, inr, Bool-cases, ==_refl, ne→not-==, ◌==◌, not,
  ◌||◌, leb, true, false, Bool, zero, suc, [], ◌∷◌, ◌++◌, some, arith,
}
use quark_kernel.Base.Fault.{Ensures, ensures, Ensures-map}
use quark_kernel.Avl.{avl_get}
use quark_kernel.PriorityQueue.Order.{IsValid}
use quark_kernel.PriorityQueue.Insert.{Inserted, insert-Inserted}
use quark_kernel.Status.{enone, einvalidarg}
use quark_kernel.Kernel.State.{Kernel, Process, active, is_requesting, null, put, to_key}
use quark_kernel.Kernel.Monad.{set_context_return, Ensures-then, Ensures-lift}
use quark_kernel.Kernel.Scheduler.Laws.{entry}
use quark_kernel.Kernel.Ports.{kernel_get_port_owner}
use quark_kernel.Kernel.Messages.{
  returned, deliver, kernel_send_message, kernel_queue_message, send_to_process, send,
  receive_message,
}

-- A message that is delivered: the recipient's buffer, in the recipient's address space, holds the
-- message with the pid of the sender; the recipient has returned from its call and is ready.
pub record Delivered (k : Kernel) (p message : ℕ) (dest sender : Process) (r : ℕ × Kernel)
    : Type 0 where
  pub status : r.0 ≡ enone
  pub buffer :
      r.1.user dest.page_table dest.message_buffer
      ≡ record (k.user k.space message) { sender = sender.pid }
  pub woken :
      r.1.processes p
      ≡ some (record dest {
        message_buffer = null;
        state = active;
        ctx = set_context_return dest.ctx enone;
      })
  pub space : r.1.space ≡ sender.page_table
  pub queue : Inserted k.priority_queue (entry p dest.priority) (enone, r.1.priority_queue)

-- A message to a process that waits, with a buffer, is delivered: it is in the buffer, in the
-- address space of the recipient, with the pid of the sender, the recipient is ready with the
-- status ENONE, and the address space of the sender is loaded. The message is not at NULL, the ready
-- queue is valid and has room, and the sender is a live process.
pub send_message-Delivered :
    (k : Kernel) (recipient message p : ℕ) (dest sender : Process)
    → avl_get k.process_table (to_key recipient) ≡ some p
    → k.processes p ≡ some dest
    → is_requesting dest.state ≡ true
    → dest.message_buffer ≢ null
    → message ≢ null
    → k.processes k.active_process ≡ some sender
    → IsValid k.priority_queue
    → k.priority_queue.size < k.priority_queue.capacity
    → Ensures (Delivered k p message dest sender) (kernel_send_message recipient message k)
unfolding kernel_send_message deliver
send_message-Delivered k recipient message p dest sender found live waits buffer present runs valid
      room =
    rw
      (
        kernel_send_message,
        found,
        live,
        ne→not-== dest.message_buffer null buffer,
        waits,
        runs,
        ne→not-== message null present,
      )
      (Ensures-then {P = λ r. Ensures (Delivered k p message dest sender) (some (enone, r.1))}
        (Ensures-lift _ (insert-Inserted k.priority_queue p dest.priority valid room)
          λ (status, q') r. ensures (
            ensures (record {
              status = refl;
              buffer = rw (==_refl dest.page_table, ==_refl dest.message_buffer) refl;
              woken = rw (==_refl p) refl;
              space = refl;
              queue = record {
                status = refl;
                valid = r.valid;
                same = r.same;
                size = r.size;
                capacity = r.capacity;
              };
            })))
        λ u k' z. z)

-- A message that is queued, with the sender that its writer put there.
pub record Queued (k : Kernel) (p message : ℕ) (dest : Process) (r : ℕ × Kernel) : Type 0 where
  pub status : r.0 ≡ enone
  pub appended : r.1 ≡ record k {
    processes =
        put k.processes p (
          some (record dest { message_queue = dest.message_queue ++ k.user k.space message ∷ [] }));
  }

-- A message to a process that does not wait is appended to its queue, where memory is to be had and a
-- process runs, and nothing else changes. The message is not at NULL.
pub send_to_process-Queued :
    (k : Kernel) (recipient message p : ℕ) (dest sender : Process)
    → avl_get k.process_table (to_key recipient) ≡ some p
    → k.processes p ≡ some dest
    → is_requesting dest.state ≡ false
    → k.processes k.active_process ≡ some sender
    → message ≢ null
    → Ensures (Queued k p message dest) (send_to_process true true recipient message k)
unfolding send_to_process kernel_send_message kernel_queue_message
send_to_process-Queued k recipient message p dest sender found live waits runs present =
    rw (send_to_process, kernel_send_message, kernel_queue_message, found, live, waits)
      (elim (Bool-cases (dest.message_buffer == null)) [
        | inl e ↦
            rw (e, found, runs, live, ne→not-== message null present)
              (ensures (record { status = refl; appended = refl }))
        | inr e ↦
            rw (e, found, runs, live, ne→not-== message null present)
              (ensures (record { status = refl; appended = refl }))
      ])

-- A message that is sent to a process that does not wait, and that has no message queued, is the
-- one that it receives when it runs next in its own address space, with the sender that its
-- writer put there; then its structure is as before. The sender is a live process, neither the message
-- nor the buffer is at NULL, and memory is to be had for the queue.
pub send-receive :
    (k : Kernel) (recipient message p buffer flags : ℕ) (dest sender : Process)
    → avl_get k.process_table (to_key recipient) ≡ some p
    → k.processes p ≡ some dest
    → is_requesting dest.state ≡ false
    → dest.message_queue ≡ []
    → k.processes k.active_process ≡ some sender
    → message ≢ null
    → buffer ≢ null
    → Ensures
        (λ r.
          Ensures
            (λ s.
              (s.0 ≡ returned enone)
              × (s.1.user dest.page_table buffer ≡ k.user k.space message)
              × (s.1.processes p ≡ some dest))
            (receive_message buffer flags
              (record r.1 { active_process = p; space = dest.page_table })))
        (send_to_process true true recipient message k)
unfolding receive_message
send-receive k recipient message p buffer flags dest sender found live waits empty runs present
      place =
    Ensures-map
      (send_to_process-Queued k recipient message p dest sender found live waits runs present)
      λ r q.
        rw (q.appended, receive_message, ==_refl p, empty, ne→not-== buffer null place)
          (ensures (refl, rw (==_refl dest.page_table, ==_refl buffer) refl, rw (==_refl p) refl))

-- `send` to a port that has an owner does what `send` to its owner does, with the same IO_OP.
pub send-port :
    (copy node : Bool) (k : Kernel) (id message mode owner : ℕ)
    → mode < 2
    → owner ≢ 0
    → kernel_get_port_owner id k ≡ some (owner, k)
    → send copy node id message (mode + 2) k ≡ send copy node owner message mode k
unfolding send
send-port copy node k id message zero owner h present e = rw (e, ne→not-== owner 0 present) refl
send-port copy node k id message (suc zero) owner h present e =
    rw (e, ne→not-== owner 0 present) refl
send-port copy node k id message (suc (suc mode)) owner h present e = absurd (omega arith)

-- `send` refuses flags of 4 or more, which are those outside the two fields, a mailbox or an
-- unknown type of recipient, and then changes nothing.
pub send-flags :
    (copy node : Bool) (k : Kernel) (recipient message flags : ℕ)
    → 4 ≤ flags
    → send copy node recipient message flags k ≡ some (einvalidarg, k)
unfolding send
send-flags copy node k recipient message flags h =
    elim (Bool-cases (not (flags / 8 == 0) || leb 2 (flags / 2 % 4))) [
      | inl e ↦ rw e refl
      | inr e ↦ absurd (ground (arith, e, h))
    ]
