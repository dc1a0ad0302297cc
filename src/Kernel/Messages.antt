-- ===== src/Kernel/Messages.antt =====
-- Messages: src/kernel.c, from `kernel_send_message` to `receive_message`, and the system calls
-- `send` and `receive` of src/syscalls.c.
pub mod Laws
pub mod Waiting
use quark_kernel.Base.{
  ℕ, ◌-◌, ◌*◌, ◌/◌, ◌%◌, ◌&&◌, ◌||◌, not, List, [], ◌∷◌, ◌++◌, Option, none, some, Bool, leb, ◌==◌,
  if◌then◌else◌,
}
use quark_kernel.Avl.{avl_get}
use quark_kernel.Status.{enone, edoesntexist, ebusy, enomem, einvalidarg}
use quark_kernel.Kernel.State.{
  Kernel, Process, Message, active, requesting, is_requesting, null, to_key,
}
use quark_kernel.Kernel.Monad.{
  M, pure, fault, ◌>>=◌, ◌>>◌, read, modify, lift, process_at, set_process, if_found, enqueue,
  set_context_return, paging_load_address_space, read_message, write_message,
}
use quark_kernel.Kernel.Scheduler.{kernel_advance_scheduler}
use quark_kernel.Kernel.Ports.{kernel_get_port_owner}

-- The body of the second branch of `kernel_send_message`: the message goes to the buffer of a
-- process that waits for one, which becomes ready.
unfoldable pub deliver : ℕ → Process → ℕ → M ℕ
deliver p dest message = do
  k ← read
  sender ← process_at k.active_process
  kernel_buffer ← read_message message
  paging_load_address_space dest.page_table
  write_message dest.message_buffer (record kernel_buffer { sender = sender.pid })
  paging_load_address_space sender.page_table
  set_process p (record dest {
    message_buffer = null;
    state = active;
    ctx = set_context_return dest.ctx enone;
  })
  enqueue p dest.priority
  pure enone

unfoldable pub kernel_send_message : ℕ → ℕ → M ℕ
kernel_send_message recipient message = do
  k ← read
  let found : ℕ → M ℕ = λ p. do
    dest ← process_at p
    if not (dest.message_buffer == null) && is_requesting dest.state
        then deliver p dest message
        else pure ebusy
  if_found (avl_get k.process_table (to_key recipient)) found (pure edoesntexist)

-- `copy` says whether the `kmalloc` of the copy returns memory, and `node` whether that of the
-- queue's node does; the code ignores the status of `queue_insert`. The pid of the process that runs
-- is read for a line that is printed.
unfoldable pub kernel_queue_message : (copy node : Bool) → ℕ → ℕ → M ℕ
kernel_queue_message copy node recipient message = do
  k ← read
  let append : ℕ → Process → M ℕ = λ p dest. do
    queued_msg ← read_message message
    set_process p (record dest {
      message_queue = if node then dest.message_queue ++ queued_msg ∷ [] else dest.message_queue;
    })
    pure enone
  let found : ℕ → M ℕ = λ p. do
    sender ← process_at k.active_process
    dest ← process_at p
    if copy then append p dest else pure enomem
  if_found (avl_get k.process_table (to_key recipient)) found (pure edoesntexist)

-- `send`, once the recipient is known to be a process.
unfoldable pub send_to_process : (copy node : Bool) → ℕ → ℕ → M ℕ
send_to_process copy node recipient message = do
  status ← kernel_send_message recipient message
  if status == ebusy then kernel_queue_message copy node recipient message else pure status

-- `flags / 2 % 4` is the field of IO_RECIPIENT_TYPE: 0 for IO_PID, 1 for IO_PORT and 2 for
-- IO_MAILBOX; `flags / 8` are the bits outside IO_OP and IO_RECIPIENT_TYPE.
unfoldable pub send : (copy node : Bool) → (recipient message flags : ℕ) → M ℕ
send copy node recipient message flags =
    let dest_type = flags / 2 % 4 in
    let to_port : M ℕ = do
      owner ← kernel_get_port_owner recipient
      if owner == 0 then pure edoesntexist else send_to_process copy node owner message
    in if not (flags / 8 == 0) || leb 2 dest_type
      then pure einvalidarg
      else (if dest_type == 1 then to_port else send_to_process copy node recipient message)

-- What a system call that may block does: it returns a status, or it enters another process.
pub data Outcome : Type 0 where
  returned : ℕ → Outcome
  entered : ℕ → Outcome

-- A process that finds no message, and that does not ask for an asynchronous call, waits for one.
unfoldable pub wait_for_message : ℕ → Process → ℕ → M Outcome
wait_for_message p process buffer = do
  set_process p (record process { message_buffer = buffer; state = requesting })
  modify λ k. record k { active_process = null }
  next ← kernel_advance_scheduler
  pure (entered next)

-- The first message, if there is one, and the others go to the continuation.
abbrev next_message : List Message → (Message → List Message → M Outcome) → M Outcome → M Outcome
next_message [] f absent = absent
next_message (m ∷ ms) f absent = f m ms

-- `flags % 2` is the field of IO_OP: 1 for IO_ASYNC.
unfoldable pub receive_message : (buffer flags : ℕ) → M Outcome
receive_message buffer flags = do
  k ← read
  process ← process_at k.active_process
  let taken : Message → List Message → M Outcome = λ queued_msg rest. do
    set_process k.active_process (record process { message_queue = rest })
    write_message buffer queued_msg
    pure (returned enone)
  let empty : M Outcome =
      if flags % 2 == 1
      then pure (returned edoesntexist)
      else wait_for_message k.active_process process buffer
  next_message process.message_queue taken empty
