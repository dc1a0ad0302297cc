-- ===== src/Kernel/Interrupts.antt =====
-- The handlers of interrupts: src/kernel.c, from `kernel_register_interrupt_handler` to
-- `kernel_execute_interrupt_handler`.
pub mod Frame
pub mod Handled
mod Tests
use quark_kernel.Base.{
  ℕ, ◌+◌, ◌-◌, ◌^◌, Bool, true, false, Option, none, some, List, [], ◌∷◌, ◌==◌, if◌then◌else◌,
}
use quark_kernel.Base.State.{St, pure, fault, ◌>>=◌, ◌>>◌, read, modify, lift}
use quark_kernel.Avl.{Tree, avl_get, avl_insert, avl_remove}
use quark_kernel.Status.{enone, eexists, edoesntexist}
use quark_kernel.Strings.{Memory}
use quark_kernel.Kernel.State.{
  Kernel, Process, ProcessState, ProcessContext, active, requesting, sending, null, put, to_key,
}
use quark_kernel.Kernel.Monad
use quark_kernel.Kernel.Monad.{M, process_at, set_process, enqueue, paging_load_address_space}
use quark_kernel.Context.{
  Stack, stack_pointer, set_pointer, put_word, context_stack_push, context_call_func,
}

-- `struct signal_action_t`.
pub record SignalAction : Type 0 where
  pub pid : ℕ
  pub func_ptr : ℕ
  pub trampoline_ptr : ℕ
  pub userdata : ℕ

-- The kernel with the tree `interrupt_handlers`, the actions that are allocated, and the bytes of
-- each address space.
pub record Interrupts : Type 0 where
  pub kernel : Kernel
  pub interrupt_handlers : Tree ℕ
  pub actions : ℕ → Option SignalAction
  pub memories : ℕ → Memory

abbrev pub with_kernel : {A : Type 0} → Interrupts → Option (A × Kernel) → Option (A × Interrupts)
with_kernel s none = none
with_kernel s (some (a, k)) = some (a, record s { kernel = k })

-- A step of the kernel.
abbrev pub in_kernel : {A : Type 0} → M A → St Interrupts A
in_kernel m s = with_kernel s (m s.kernel)

-- A test of a pointer for NULL, after a search in a tree.
abbrev pub when_found :
    {A : Type 0} → Option ℕ → (ℕ → St Interrupts A) → St Interrupts A → St Interrupts A
when_found none f absent = absent
when_found (some p) f absent = f p

abbrev pub action_at : ℕ → St Interrupts SignalAction
action_at p s = lift (s.actions p) s

-- `action` is what the first `kmalloc` returns, `node` says whether that of the tree's node returns
-- memory, and `trampoline_ptr` is what the new action holds in this field, which the code does not
-- set.
unfoldable pub kernel_register_interrupt_handler :
    (action : ℕ) (node : Bool) (trampoline_ptr interrupt handler userdata : ℕ) → St Interrupts ℕ
kernel_register_interrupt_handler action node trampoline_ptr interrupt handler userdata = do
  s ← read
  let register : St Interrupts ℕ = do
    if action == null then fault else pure tt
    process ← in_kernel (process_at s.kernel.active_process)
    modify λ s. record s {
      actions = put s.actions action (
          some (record {
            pid = process.pid;
            func_ptr = handler;
            trampoline_ptr = trampoline_ptr;
            userdata = userdata;
          }));
    }
    table ← lift (avl_insert node s.interrupt_handlers (to_key interrupt) action)
    modify λ s. record s { interrupt_handlers = table }
    pure enone
  when_found (avl_get s.interrupt_handlers (to_key interrupt)) (λ p. pure eexists) register

abbrev pub remove_handler : ℕ → St Interrupts (Unit {0})
remove_handler interrupt = do
  s ← read
  table ← lift (avl_remove s.interrupt_handlers (to_key interrupt))
  modify λ s. record s { interrupt_handlers = table }

unfoldable pub kernel_remove_interrupt_handler : (interrupt : ℕ) → St Interrupts ℕ
kernel_remove_interrupt_handler interrupt = do
  s ← read
  let remove : ℕ → St Interrupts ℕ = λ p. do
    modify λ s. record s { actions = put s.actions p none }
    remove_handler interrupt
    pure enone
  when_found (avl_get s.interrupt_handlers (to_key interrupt)) remove (pure edoesntexist)

-- The words of a `struct process_context_t`, and a store of words.
abbrev pub context_words : ProcessContext → List ℕ
context_words ctx =
    ctx.gp_registers 0
    ∷ ctx.gp_registers 1
    ∷ ctx.gp_registers 2
    ∷ ctx.gp_registers 3
    ∷ ctx.gp_registers 4
    ∷ ctx.gp_registers 5
    ∷ ctx.gp_registers 6
    ∷ ctx.gp_registers 7
    ∷ ctx.ss
    ∷ ctx.cs
    ∷ ctx.eip
    ∷ ctx.flags
    ∷ []

abbrev pub put_words : Memory → ℕ → List ℕ → Memory
put_words m p [] = m
put_words m p (w ∷ ws) = put_words (put_word m p w) (p + 4) ws

-- `context_stack_push_struct` of the context itself, which is copied with the new stack pointer.
unfoldable pub push_context : Stack → Stack
push_context s =
    let ctx = set_pointer (stack_pointer s + 2 ^ 32 - 48) s.ctx in
    record { ctx = ctx; memory = put_words s.memory (ctx.gp_registers 7) (context_words ctx) }

abbrev pub state_number : ProcessState → ℕ
state_number active = 0
state_number requesting = 1
state_number sending = 2

abbrev pub is_active : ProcessState → Bool
is_active active = true
is_active requesting = false
is_active sending = false

-- The stack with the struct `signal_context_t`, which is one word, the context and the state.
unfoldable pub push_state : (interrupt : ℕ) → ProcessState → Stack → Stack
push_state interrupt state s =
    context_stack_push (state_number state) (push_context (context_stack_push interrupt s))

-- The call of the handler, with a pointer to that struct.
unfoldable pub push_call : (interrupt : ℕ) → ProcessState → SignalAction → Stack → Stack
push_call interrupt state action s =
    let siginfo = stack_pointer (context_stack_push interrupt s) in
    context_call_func action.func_ptr action.trampoline_ptr (action.userdata ∷ siginfo ∷ [])
      (push_state interrupt state s)

abbrev pub stack_of : Interrupts → Process → Stack
stack_of s process = record { ctx = process.ctx; memory = s.memories process.page_table }

-- `active` is set, and the process enqueued, where it was not active.
abbrev pub wake : ℕ → Process → M (Unit {0})
wake p process =
    if is_active process.state
    then Monad.pure tt
    else Monad.◌>>◌ (set_process p (record process { state = active })) (enqueue p process.priority)

unfoldable pub call_handler : (interrupt : ℕ) → SignalAction → ℕ → St Interrupts ℕ
call_handler interrupt action p = do
  process ← in_kernel (process_at p)
  in_kernel (paging_load_address_space process.page_table)
  s ← read
  let called = push_call interrupt process.state action (stack_of s process)
  modify λ s. record s { memories = put s.memories process.page_table called.memory }
  in_kernel (set_process p (record process { ctx = called.ctx }))
  in_kernel (wake p (record process { ctx = called.ctx }))
  s ← read
  running ← in_kernel (process_at s.kernel.active_process)
  in_kernel (paging_load_address_space running.page_table)
  pure enone

unfoldable pub kernel_execute_interrupt_handler : (interrupt : ℕ) → St Interrupts ℕ
kernel_execute_interrupt_handler interrupt = do
  s ← read
  let found : ℕ → St Interrupts ℕ = λ p. do
    action ← action_at p
    when_found (avl_get s.kernel.process_table (to_key action.pid)) (call_handler interrupt action)
        (remove_handler interrupt >> pure edoesntexist)
  when_found (avl_get s.interrupt_handlers (to_key interrupt)) found (pure edoesntexist)
