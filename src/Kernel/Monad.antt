-- ===== src/Kernel/Monad.antt =====
-- Code over the kernel's state that may fault: `none` is an access through NULL or to a structure
-- that is not allocated, a fault in a tree or a queue, or a panic, which does not return.
use quark_kernel.Base.{ℕ, Option, none, some, ◌==◌, if◌then◌else◌}
use quark_kernel.Base.Fault.{Ensures, ensures, IfReturns, faults, returns}
use quark_kernel.PriorityQueue.{priorityqueue_insert}
use quark_kernel.Kernel.State.{Kernel, Process, Port, Message, ProcessContext, null, put}

abbrev pub M : Type 0 → Type 0
M A = Kernel → Option (A × Kernel)

abbrev pub pure : {A : Type 0} → A → M A
pure a k = some (a, k)

abbrev pub fault : {A : Type 0} → M A
fault k = none

-- What follows a step, which may have faulted.
abbrev pub continue : {A B : Type 0} → Option (A × Kernel) → (A → M B) → Option (B × Kernel)
continue none f = none
continue (some (a, k)) f = f a k

infixl 5 ◌>>=◌ ◌>>◌
abbrev pub ◌>>=◌ : {A B : Type 0} → M A → (A → M B) → M B
(m >>= f) k = continue (m k) f

abbrev pub ◌>>◌ : {B : Type 0} → M (Unit {0}) → M B → M B
m >> n = m >>= λ _. n

abbrev pub read : M Kernel
read k = some (k, k)

abbrev pub modify : (Kernel → Kernel) → M (Unit {0})
modify f k = some (tt, f k)

-- A result of another component.
abbrev pub lift : {A : Type 0} → Option A → M A
lift none k = none
lift (some a) k = some (a, k)

-- A test of a pointer for NULL, after a search in a tree.
abbrev pub if_found : {A : Type 0} → Option ℕ → (ℕ → M A) → M A → M A
if_found none f absent = absent
if_found (some p) f absent = f p

-- `*p` of a process, and the write of a process.
abbrev pub process_at : ℕ → M Process
process_at p k = lift (k.processes p) k

abbrev pub set_process : ℕ → Process → M (Unit {0})
set_process p x = modify λ k. record k { processes = put k.processes p (some x) }

abbrev pub port_at : ℕ → M Port
port_at p k = lift (k.ports p) k

-- src/x86/paging.c: the load of a top-level page table.
abbrev pub paging_load_address_space : ℕ → M (Unit {0})
paging_load_address_space table = modify λ k. record k { space = table }

-- The `memcpy` of a message from, and to, the loaded address space. The user's memory is there at
-- every address but NULL.
abbrev pub read_message : ℕ → M Message
read_message p = if p == null then fault else λ k. some (k.user k.space p, k)

abbrev pub write_message : ℕ → Message → M (Unit {0})
write_message p m =
    if p == null
    then fault
    else modify λ k. record k { user = put k.user k.space (put (k.user k.space) p m) }

-- The queue operations on `kernel.priority_queue`; the callers ignore the status of an insertion.
abbrev pub enqueue : ℕ → ℕ → M (Unit {0})
enqueue p priority = do
  k ← read
  (status, q) ← lift (priorityqueue_insert k.priority_queue p priority)
  modify λ k. record k { priority_queue = q }

-- src/x86/context.c: the return value of a system call.
abbrev pub set_context_return : ProcessContext → ℕ → ProcessContext
set_context_return ctx value = record ctx { gp_registers = put ctx.gp_registers 0 value }

-- What a sequence of steps that may fault ensures of the result and the state.
module _ {A B : Type 0} {P : A × Kernel → Type 0} {Q : B × Kernel → Type 0} where
  pub Ensures-then :
      {o : Option (A × Kernel)} {f : A → M B}
      → Ensures P o
      → ((a : A) (k : Kernel) → P (a, k) → Ensures Q (f a k))
      → Ensures Q (continue o f)
  Ensures-then (ensures p) c = c _ _ p

  pub IfReturns-then :
      {o : Option (A × Kernel)} {f : A → M B}
      → IfReturns P o
      → ((a : A) (k : Kernel) → P (a, k) → IfReturns Q (f a k))
      → IfReturns Q (continue o f)
  IfReturns-then faults c = faults
  IfReturns-then (returns p) c = c _ _ p

module _ {A B : Type 0} {P : A → Type 0} {Q : B × Kernel → Type 0} where
  -- A call of another component, and what follows it.
  pub Ensures-lift :
      (f : A → M B) {m : Option A} {k : Kernel}
      → Ensures P m
      → ((a : A) → P a → Ensures Q (f a k))
      → Ensures Q (continue (lift m k) f)
  Ensures-lift f (ensures p) c = c _ p

  pub IfReturns-lift :
      (f : A → M B) {m : Option A} {k : Kernel}
      → IfReturns P m
      → ((a : A) → P a → IfReturns Q (f a k))
      → IfReturns Q (continue (lift m k) f)
  IfReturns-lift f faults c = faults
  IfReturns-lift f (returns p) c = c _ p
