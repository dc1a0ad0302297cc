-- ===== src/Kernel/Interrupts/Tests.antt =====
-- The theorem on the handlers of interrupts at a concrete state.
use quark_kernel.Context.Calls.{IsWord}
use quark_kernel.Base.{All, ◌≡◌, refl, arith, none, some, ◌==◌, if◌then◌else◌}
use quark_kernel.Base.Fault.{Ensures}
use quark_kernel.Avl.{leaf, node, avl_get}
use quark_kernel.Kernel.State.{Process, active, requesting, put, to_key}
use quark_kernel.Kernel.Tests.{process, sample, process_at_3, ready-IsValid}
use quark_kernel.Kernel.Interrupts.{
  SignalAction, Interrupts, context_words, kernel_execute_interrupt_handler,
}
use quark_kernel.Kernel.Interrupts.Handled.{Handled, execute-Handled}

-- Process 3, which waits, with its stack pointer at 4096.
abbrev waiting : Process
waiting = record (process 3 6 requesting 64) {
  ctx = record { gp_registers = λ i. 4096; ss = 35; cs = 27; eip = 0; flags = 0 };
}

abbrev handler : SignalAction
handler = record { pid = 3; func_ptr = 2000; trampoline_ptr = 3000; userdata = 9 }

-- The interrupt 32 has the handler of process 3.
abbrev registered : Interrupts
registered = record {
  kernel = record sample { processes = put sample.processes 300 (some waiting) };
  interrupt_handlers = node 1 2147483680 700 leaf leaf;
  actions = λ p. if p == 700 then some handler else none;
  memories = λ space p. 0;
}

found_32 : avl_get registered.interrupt_handlers (to_key 32) ≡ some 700
unfolding avl_get to_key
found_32 = refl

words : All IsWord (context_words waiting.ctx)
words =
    (omega arith, (omega arith, (omega arith, (omega arith, (omega arith, (omega arith, rest))))))
  where
    rest :
        IsWord 4096 × (IsWord 4096 × (IsWord 35 × (IsWord 27 × (IsWord 0 × (IsWord 0 × Unit {0})))))
    rest =
        (omega arith, (omega arith, (omega arith, (omega arith, (omega arith, (omega arith, tt))))))

execute-Handled_example :
    Ensures
      (Handled registered 32 handler 300 waiting (process 1 5 active 0))
      (kernel_execute_interrupt_handler 32 registered)
execute-Handled_example =
    execute-Handled registered 32 700 300 handler waiting (process 1 5 active 0) found_32 refl
      process_at_3 refl refl refl (omega arith) ready-IsValid (omega arith) (omega arith)
      (omega arith) (omega arith) words (omega arith) (omega arith)
