-- ===== src/Kernel/Tests.antt =====
-- The kernel's theorems at a concrete state.
use quark_kernel.Base.{
  ℕ, ◌+◌, ◌≡◌, ◌≢◌, refl, ap, inl, inr, Bool-cases, sym, subst, true, false, [], Option, none, some,
  arith, ◌==◌, if◌then◌else◌,
}
use quark_kernel.Base.Fault.{Ensures, IfReturns}
use quark_kernel.Avl.{leaf, node, avl_get}
use quark_kernel.PriorityQueue.{PriorityQueue}
use quark_kernel.PriorityQueue.Bag.{none-tally}
use quark_kernel.PriorityQueue.Order.{IsValid}
use quark_kernel.Kernel.State.{
  Kernel, Process, ProcessState, active, requesting, ProcessContext, Message, null, to_key,
}
use quark_kernel.Kernel.Ports.{kernel_remove_port, kernel_get_port_owner}
use quark_kernel.Kernel.Ports.Laws.{HasPorts, Closed, remove_port-Closed}
use quark_kernel.Kernel.Scheduler.{kernel_advance_scheduler, terminate_self}
use quark_kernel.Kernel.Scheduler.Laws.{is_process, is_stray, IsReady, Scheduled, advance-Scheduled}
use quark_kernel.Kernel.Scheduler.Exit.{Exited, terminate_self-Exited}
use quark_kernel.Kernel.Messages.{kernel_send_message, send_to_process, receive_message, returned}
use quark_kernel.Kernel.Messages.Laws.{Delivered, send_message-Delivered, send-receive}
use quark_kernel.Kernel.Messages.Waiting.{Waits, NoneLost, or_else, send-NoneLost}

abbrev blank : ProcessContext
blank = record { gp_registers = λ i. 0; ss = 0; cs = 0; eip = 0; flags = 0 }

abbrev hello : Message
hello = record { sender = 9; code = 7; args = [] }

abbrev pub process : (pid priority : ℕ) → ProcessState → ℕ → Process
process pid priority state buffer = record {
  pid = pid;
  priority = priority;
  page_table = 4096 + pid;
  state = state;
  sending_queue = [];
  message_queue = [];
  message_buffer = buffer;
  ctx = blank;
}

-- Process 1 runs, at 100; process 2 is ready, at 200; process 3, at 300, waits for a message.
abbrev processes : ℕ → Option Process
processes p =
    if p == 100
    then some (process 1 5 active 0)
    else if p == 200
    then some (process 2 4 active 0)
    else if p == 300
    then some (process 3 6 requesting 64)
    else none

abbrev ready : PriorityQueue
ready = record { heap = λ i. record { value = 200; priority = 4 }; size = 1; capacity = 8 }

-- Port 17 belongs to process 1.
abbrev pub sample : Kernel
sample = record {
  syscall_table = λ i. record { defined = false; arg_count = 0; process_id = 0; func_ptr = 0 };
  priority_queue = ready;
  port_table = node 1 2147483665 500 leaf leaf;
  process_table =
      node 2 2147483650 200 (node 1 2147483649 100 leaf leaf) (node 1 2147483651 300 leaf leaf);
  active_process = 100;
  next_pid = 4;
  processes = processes;
  ports = λ p. if p == 500 then some (record { id = 17; owner_pid = 1 }) else none;
  space = 4097;
  user = λ space p. hello;
}

process_at_1 : avl_get sample.process_table (to_key 1) ≡ some 100
unfolding avl_get to_key
process_at_1 = refl

process_at_2 : avl_get sample.process_table (to_key 2) ≡ some 200
unfolding avl_get to_key
process_at_2 = refl

pub process_at_3 : avl_get sample.process_table (to_key 3) ≡ some 300
unfolding avl_get to_key
process_at_3 = refl

port_17 : avl_get sample.port_table (to_key 17) ≡ some 500
unfolding avl_get to_key
port_17 = refl

owner_17 : kernel_get_port_owner 17 sample ≡ some (1, sample)
unfolding kernel_get_port_owner avl_get to_key
owner_17 = refl

pub ready-IsValid : IsValid ready
ready-IsValid = record { heap = λ c p q. omega arith; bounded = omega arith }

sample-IsReady : IsReady sample
unfolding is_process
sample-IsReady = record {
  valid = ready-IsValid;
  live = none-tally (is_stray sample.processes) ready.heap 1 (λ i h. refl);
}

only_key : (key p : ℕ) → avl_get sample.port_table key ≡ some p → (key ≡ 2147483665) × (p ≡ 500)
unfolding avl_get
only_key key p h = ground (arith, h)

port_500 : sample.ports 500 ≢ none
port_500 e = grind (arith, e)

sample-HasPorts : HasPorts sample
sample-HasPorts = record {
  ordered = (tt, tt);
  allocated = λ key p h. subst (λ q. sample.ports q ≢ none) (sym (only_key key p h).1) port_500;
  distinct = λ key key' p h h'. omega (arith, (only_key key p h).0, (only_key key' p h').0);
}

remove_port-Closed_example : Ensures (Closed sample 17) (kernel_remove_port 17 sample)
remove_port-Closed_example =
    remove_port-Closed sample 17 500 (record { id = 17; owner_pid = 1 }) (process 1 5 active 0)
      sample-HasPorts port_17 refl refl refl

advance-Scheduled_example :
    Ensures (Scheduled sample (process 1 5 active 0)) (kernel_advance_scheduler sample)
advance-Scheduled_example =
    advance-Scheduled sample (process 1 5 active 0) sample-IsReady (omega arith) refl (omega arith)

abbrev idle : Kernel
idle = record sample { active_process = null }

terminate_self-Exited_example : Ensures (Exited sample 1) (terminate_self sample)
terminate_self-Exited_example =
    terminate_self-Exited sample (process 1 5 active 0) (omega arith) refl process_at_1
      ((omega arith, (omega arith, tt)), ((omega arith, tt), (tt, tt))) (omega arith)
      (λ i le lt e. omega (arith, e)) refl

send_message-Delivered_example :
    Ensures
      (Delivered sample 300 8 (process 3 6 requesting 64) (process 1 5 active 0))
      (kernel_send_message 3 8 sample)
send_message-Delivered_example =
    send_message-Delivered sample 3 8 300 (process 3 6 requesting 64) (process 1 5 active 0)
      process_at_3 refl refl (omega arith) (omega arith) refl ready-IsValid (omega arith)

send-receive_example :
    Ensures
      (λ r.
        Ensures
          (λ s.
            (s.0 ≡ returned 0)
            × (s.1.user 4098 64 ≡ hello)
            × (s.1.processes 200 ≡ some (process 2 4 active 0)))
          (receive_message 64 0 (record r.1 { active_process = 200; space = 4098 })))
      (send_to_process true true 2 8 sample)
send-receive_example =
    send-receive sample 2 8 200 64 0 (process 2 4 active 0) (process 1 5 active 0) process_at_2 refl
      refl refl refl (omega arith) (omega arith)

idle_process : (pid priority : ℕ) → Waits (process pid priority active 0)
idle_process pid priority w = absurd (ground (arith, w))

sample-NoneLost : NoneLost sample
sample-NoneLost p x f = elim (Bool-cases (p == 100)) [
  | inl e ↦ subst Waits (ap (or_else x) (rw e at f)) (idle_process 1 5)
  | inr e ↦ elim (Bool-cases (p == 200)) [
    | inl e' ↦ subst Waits (ap (or_else x) (rw (e, e') at f)) (idle_process 2 4)
    | inr e' ↦ elim (Bool-cases (p == 300)) [
      | inl e'' ↦ subst Waits (ap (or_else x) (rw (e, e', e'') at f)) (λ w. (refl, omega arith))
      | inr e'' ↦ absurd (grind (arith, rw (e, e', e'') at f))
    ]
  ]
]

send-NoneLost_example : IfReturns (λ r. NoneLost r.1) (send_to_process true true 3 8 sample)
send-NoneLost_example = send-NoneLost sample true true 3 8 sample-NoneLost
