-- ===== src/Context/Tests.antt =====
-- The theorems on src/x86/context.c at a concrete stack.
use quark_kernel.Base.{◌≡◌, ◌-◌, ◌*◌, [], ◌∷◌, arith}
use quark_kernel.Context.{Stack, stack_pointer, context_call_func, context_cleanup_func}
use quark_kernel.Context.Calls.{return_from, call-cleanup}

-- The stack pointer is 4096.
abbrev stack : Stack
stack = record {
  ctx = record { gp_registers = λ i. 4096; ss = 35; cs = 27; eip = 0; flags = 0 };
  memory = λ p. 0;
}

call-cleanup_example :
    stack_pointer
      (context_cleanup_func 2 (return_from (context_call_func 500 600 (7 ∷ 8 ∷ []) stack)))
    ≡ 4096 - 8 * 2
call-cleanup_example =
    call-cleanup 500 600 (7 ∷ 8 ∷ []) stack (omega arith, (omega arith, tt)) (omega arith)
      (omega arith) (omega arith)
