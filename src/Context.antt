-- ===== src/Context.antt =====
-- src/x86/context.c: the stack of a process, and the call of a function on it.
-- The memory is that of the bytes of the address space that is loaded; registers are 32-bit unsigned
-- integers, and register 7 is the stack pointer.
pub mod Words
pub mod Calls
mod Tests
use quark_kernel.Base.{ℕ, zero, suc, ◌+◌, ◌-◌, ◌*◌, ◌/◌, ◌%◌, ◌^◌, List, [], ◌∷◌}
use quark_kernel.Strings.{Memory, poke, memcpy}
use quark_kernel.Kernel.State.{ProcessContext, put}

pub record Stack : Type 0 where
  pub ctx : ProcessContext
  pub memory : Memory

abbrev pub stack_pointer : Stack → ℕ
stack_pointer s = s.ctx.gp_registers 7

abbrev pub set_pointer : ℕ → ProcessContext → ProcessContext
set_pointer p ctx = record ctx { gp_registers = put ctx.gp_registers 7 (p % 2 ^ 32) }

-- A word of four bytes, the lowest first.
abbrev pub put_word : Memory → ℕ → ℕ → Memory
put_word m p v =
    poke (poke (poke (poke m p (v % 256)) (p + 1) (v / 256 % 256)) (p + 2) (v / 65536 % 256))
      (p + 3) (v / 16777216 % 256)

abbrev pub get_word : Memory → ℕ → ℕ
get_word m p = m p + 256 * m (p + 1) + 65536 * m (p + 2) + 16777216 * m (p + 3)

unfoldable pub context_stack_push : ℕ → Stack → Stack
context_stack_push value s =
    let ctx = set_pointer (stack_pointer s + 2 ^ 32 - 4) s.ctx in
    record { ctx = ctx; memory = put_word s.memory (ctx.gp_registers 7) value }

unfoldable pub context_stack_push_struct : (source size : ℕ) → Stack → Stack
context_stack_push_struct source size s =
    let ctx = set_pointer (stack_pointer s + 2 ^ 32 - size) s.ctx in
    record { ctx = ctx; memory = memcpy s.memory (ctx.gp_registers 7) source size }

-- The word on the stack, which the code stores through `value`, and the stack behind it.
unfoldable pub context_stack_pop : Stack → ℕ × Stack
context_stack_pop s = (
  get_word s.memory (stack_pointer s),
  record s { ctx = set_pointer (stack_pointer s + 4) s.ctx },
)

unfoldable pub context_stack_pop_struct : (value size : ℕ) → Stack → Stack
context_stack_pop_struct value size s = record {
  ctx = set_pointer (stack_pointer s + size) s.ctx;
  memory = memcpy s.memory value (stack_pointer s) size;
}

unfoldable pub push_all : List ℕ → Stack → Stack
push_all [] s = s
push_all (a ∷ args) s = push_all args (context_stack_push a s)

unfoldable pub context_call_func : (func_ptr ret_ptr : ℕ) → List ℕ → Stack → Stack
context_call_func func_ptr ret_ptr args s =
    context_stack_push ret_ptr (push_all args (record s { ctx = record s.ctx { eip = func_ptr } }))

unfoldable pub context_cleanup_func : (argc : ℕ) → Stack → Stack
context_cleanup_func argc s = record s {
  ctx = set_pointer (stack_pointer s + 2 ^ 32 - 4 * argc) s.ctx;
}
