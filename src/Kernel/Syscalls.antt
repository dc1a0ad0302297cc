-- ===== src/Kernel/Syscalls.antt =====
-- The system call table: `set_syscall` and `do_syscall` of src/kernel.c, with the setters of
-- src/x86/context.c. An `int` argument is its pattern of 32 bits. The table has 256 entries; an
-- access past them is a fault.
pub mod Laws
mod Tests
use quark_kernel.Base.{
  ℕ, ◌^◌, Bool, true, false, not, ◌&&◌, ◌||◌, List, [], ◌∷◌, Option, none, some, ltb, leb, ◌==◌,
  if◌then◌else◌,
}
use quark_kernel.Avl.{avl_get}
use quark_kernel.Status.{enone, eoutofbounds, einvalidarg, edoesntexist, enullptr, enosyscall}
use quark_kernel.Kernel.State.{Kernel, Process, ProcessContext, Syscall, null, put, to_key}
use quark_kernel.Kernel.Monad.{
  M, pure, fault, read, modify, ◌>>=◌, ◌>>◌, if_found, process_at, set_process,
  paging_load_address_space,
}

abbrev pub max_syscall_id : ℕ
max_syscall_id = 256

abbrev pub is_negative : ℕ → Bool
is_negative n = leb (2 ^ 31) n

unfoldable pub syscall_at : ℕ → M Syscall
syscall_at id = if ltb id max_syscall_id then (λ k. some (k.syscall_table id, k)) else fault

abbrev pub set_syscall_at : ℕ → Syscall → M (Unit {0})
set_syscall_at id entry = modify λ k. record k { syscall_table = put k.syscall_table id entry }

abbrev pub is_null : Option ℕ → Bool
is_null none = true
is_null (some p) = false

unfoldable pub set_syscall : (id arg_count pid func_ptr : ℕ) → M ℕ
set_syscall id arg_count pid func_ptr =
    let define : M ℕ =
      set_syscall_at id
        (record { defined = true; arg_count = arg_count; process_id = pid; func_ptr = func_ptr })
      >> pure enone in
    if is_negative id || ltb max_syscall_id id then pure eoutofbounds else do
      entry ← syscall_at id
      k ← read
      if entry.defined
          then pure einvalidarg
          else if is_negative arg_count || ltb 3 arg_count
          then pure einvalidarg
          else if not (pid == 0) && is_null (avl_get k.process_table (to_key pid))
          then pure edoesntexist
          else if func_ptr == null
          then pure enullptr
          else define

abbrev pub set_context_pc : ℕ → ProcessContext → ProcessContext
set_context_pc pc ctx = record ctx { eip = pc; cs = 27 }

abbrev pub set_context_stack : ℕ → ProcessContext → ProcessContext
set_context_stack stack ctx = record ctx { gp_registers = put ctx.gp_registers 7 stack; ss = 35 }

abbrev pub set_context_flags : ℕ → ProcessContext → ProcessContext
set_context_flags flags ctx = record ctx { flags = flags }

-- The `switch` on the number of arguments: which of them the call gets. For another number the
-- code calls nothing and returns what `result` holds, which no one has set; here it faults.
abbrev pub pass_args : ℕ → ℕ → ℕ → ℕ → Option (List ℕ)
pass_args n a b c =
    if n == 0
    then some []
    else if n == 1
    then some (a ∷ [])
    else if n == 2
    then some (a ∷ b ∷ [])
    else if n == 3
    then some (a ∷ b ∷ c ∷ [])
    else none

abbrev pub with_args : Option (List ℕ) → (List ℕ → M ℕ) → M ℕ
with_args none f = fault
with_args (some args) f = f args

-- `call` is the call of a function pointer with its arguments.
module _ (call : ℕ → List ℕ → M ℕ) where
  -- From the setters of the context on; `switched` is `switched_address_space`.
  unfoldable pub run_syscall :
      (switched : Bool) → Syscall → (args : Option (List ℕ)) (pc stack flags : ℕ) → M ℕ
  run_syscall switched entry args pc stack flags = do
    k ← read
    process ← process_at k.active_process
    set_process k.active_process (record process {
      ctx = set_context_flags flags (set_context_stack stack (set_context_pc pc process.ctx));
    })
    result ← with_args args (call entry.func_ptr)
    k' ← read
    if switched
        then (do
          process' ← process_at k'.active_process
          paging_load_address_space process'.page_table)
        else pure tt
    pure result

  -- From the test of the entry's process on, once the entry is known to be defined.
  unfoldable pub dispatch : (id : ℕ) → Syscall → (args : Option (List ℕ)) (pc stack flags : ℕ) → M ℕ
  dispatch id entry args pc stack flags = do
    k ← read
    let enter : ℕ → M ℕ = λ p. do
      callee ← process_at p
      paging_load_address_space callee.page_table
      run_syscall true entry args pc stack flags
    let forget : M ℕ = set_syscall_at id (record entry { defined = false }) >> pure enosyscall
    if not (entry.process_id == 0) && not (is_negative entry.process_id)
        then if_found (avl_get k.process_table (to_key entry.process_id)) enter forget
        else run_syscall false entry args pc stack flags

  unfoldable pub do_syscall : (id arg1 arg2 arg3 pc stack flags : ℕ) → M ℕ
  do_syscall id arg1 arg2 arg3 pc stack flags =
      if ltb max_syscall_id id then pure enosyscall else do
        entry ← syscall_at id
        if not entry.defined
            then pure enosyscall
            else dispatch id entry (pass_args entry.arg_count arg1 arg2 arg3) pc stack flags
