-- ===== src/Kernel/Messages/Waiting.antt =====
-- Processes that wait for a message, with a buffer and none queued: `send` and `receive_message`.
use quark_kernel.Base.{
  ℕ, ◌%◌, ◌≡◌, ◌≢◌, refl, sym, ap, ◌∙◌, subst, ◌⊎◌, inl, inr, Bool-cases, Option-cases, ◌==◌,
  ne→not-==, not, ◌&&◌, true, false, Bool, List, [], ◌∷◌, ◌++◌, Option, none, some, arith,
  if◌then◌else◌,
}
use quark_kernel.Base.Fault.{IfReturns, IfReturns-map, faults, returns}
use quark_kernel.Avl.{avl_get}
use quark_kernel.PriorityQueue.{priorityqueue_insert, priorityqueue_extract_min}
use quark_kernel.Status.{enone}
use quark_kernel.Kernel.State.{
  Kernel, Process, Message, active, requesting, is_requesting, null, put, to_key,
}
use quark_kernel.Kernel.Monad.{set_context_return, IfReturns-then, IfReturns-lift}
use quark_kernel.Kernel.Scheduler.{requeue_active, activate_next, kernel_advance_scheduler}
use quark_kernel.Kernel.Messages.{
  deliver, kernel_send_message, kernel_queue_message, send_to_process, wait_for_message,
  receive_message,
}

abbrev pub Waits : Process → Type 0
Waits x = is_requesting x.state ≡ true → (x.message_queue ≡ []) × (x.message_buffer ≢ null)

abbrev pub AllWait : (ℕ → Option Process) → Type 0
AllWait f = (p : ℕ) (x : Process) → f p ≡ some x → Waits x

abbrev pub NoneLost : Kernel → Type 0
NoneLost k = AllWait k.processes

abbrev any : {A : Type 0} (o : Option A) → IfReturns (λ a. Unit {0}) o
any none = faults
any (some a) = returns tt

abbrev pub or_else : Process → Option Process → Process
or_else y none = y
or_else y (some x) = x

put_inv :
    (f : ℕ → Option Process) (p q : ℕ) (y x : Process)
    → put f p (some y) q ≡ some x
    → (y ≡ x) ⊎ (f q ≡ some x)
put_inv f p q y x e = elim (Bool-cases (q == p)) [
  | inl z ↦ inl (ap (or_else y) (rw z at e))
  | inr z ↦ inr (rw z at e)
]

put-AllWait :
    (f : ℕ → Option Process) (p : ℕ) (y : Process)
    → AllWait f
    → Waits y
    → AllWait (put f p (some y))
put-AllWait f p y h w q x e = elim (put_inv f p q y x e) [
  | inl z ↦ subst Waits z w
  | inr z ↦ h q x z
]

-- The scheduler does not change the processes.
requeue-processes : (k : Kernel) → IfReturns (λ r. r.1.processes ≡ k.processes) (requeue_active k)
unfolding requeue_active
requeue-processes k = elim (Bool-cases (k.active_process == null)) [
  | inl e ↦ rw e (returns refl)
  | inr e ↦ rw e (elim (Option-cases (k.processes k.active_process)) [
    | inl f ↦ rw f faults
    | inr (x, f) ↦ rw f (
        IfReturns-lift _ (any (priorityqueue_insert k.priority_queue k.active_process x.priority))
          λ a u. returns refl)
  ])
]

activate-processes : (k : Kernel) → IfReturns (λ r. r.1.processes ≡ k.processes) (activate_next k)
unfolding activate_next
activate-processes k =
    IfReturns-lift _ (any (priorityqueue_extract_min k.priority_queue)) λ (next, q) v.
      elim (Bool-cases (next == null)) [
        | inl e ↦ rw e faults
        | inr e ↦ rw e (elim (Option-cases (k.processes next)) [
          | inl f ↦ rw f faults
          | inr (x, f) ↦ rw f (returns refl)
        ])
      ]

advance-processes :
    (k : Kernel) → IfReturns (λ r. r.1.processes ≡ k.processes) (kernel_advance_scheduler k)
unfolding kernel_advance_scheduler
advance-processes k =
    IfReturns-then {o = requeue_active k} (requeue-processes k)
      λ u k' e. IfReturns-map (activate-processes k') λ r e'. e' ∙ e

Messages-cases :
    (ms : List Message) → (ms ≡ []) ⊎ ((m : Message) × (rest : List Message) × (ms ≡ m ∷ rest))
Messages-cases [] = inl refl
Messages-cases (m ∷ rest) = inr (m, rest, refl)

-- Where a reception with a buffer returns, every process that waits has a buffer and no queued
-- message, if this was so before the call.
pub receive-NoneLost :
    (k : Kernel) (buffer flags : ℕ)
    → NoneLost k
    → buffer ≢ null
    → IfReturns (λ r. NoneLost r.1) (receive_message buffer flags k)
unfolding receive_message wait_for_message
receive-NoneLost k buffer flags h present =
    let p = k.active_process in
    elim (Option-cases (k.processes p)) [
      | inl f ↦ rw f faults
      | inr (x, f) ↦ rw f (elim (Messages-cases x.message_queue) [
        | inr (m, rest, g) ↦
            rw (g, ne→not-== buffer null present)
              (returns (
                put-AllWait k.processes p (record x { message_queue = rest }) h
                  λ w. absurd (cons_nil (sym g ∙ (h p x f w).0))))
        | inl g ↦ rw g (elim (Bool-cases (flags % 2 == 1)) [
          | inl e ↦ rw e (returns h)
          | inr e ↦ rw e (
              IfReturns-then (advance-processes _) λ n k' same. returns (
                subst AllWait (sym same) (
                  put-AllWait k.processes p
                    (record x { message_queue = []; message_buffer = buffer; state = requesting }) h
                    (λ w. (refl, present)))))
        ])
      ])
    ]
  where
    cons_nil : {m : Message} {rest : List Message} → (m ∷ rest) ≢ []
    cons_nil e = grind (arith, e)

deliver-NoneLost :
    (k : Kernel) (p message : ℕ) (dest : Process)
    → NoneLost k
    → IfReturns (λ r. (r.0 ≡ enone) × NoneLost r.1) (deliver p dest message k)
unfolding deliver
deliver-NoneLost k p message dest h = elim (Option-cases (k.processes k.active_process)) [
  | inl f ↦ rw f faults
  | inr (x, f) ↦ rw f (elim (Bool-cases (message == null)) [
    | inl e ↦ rw e faults
    | inr e ↦ rw e (elim (Bool-cases (dest.message_buffer == null)) [
      | inl e' ↦ rw e' faults
      | inr e' ↦ rw e' (
          IfReturns-then {P = λ r. NoneLost r.1}
            (IfReturns-lift _ (any (priorityqueue_insert k.priority_queue p dest.priority)) λ a u.
              returns (
                put-AllWait k.processes p
                  (record dest {
                    message_buffer = null;
                    state = active;
                    ctx = set_context_return dest.ctx enone;
                  })
                  h (λ w. absurd (ground (arith, w)))))
            λ u k' z. returns (refl, z))
    ])
  ])
]

-- Where a send to a process returns, every process that waits has a buffer and no queued message,
-- if this was so before the call: a message is never queued at a process that waits.
pub send-NoneLost :
    (k : Kernel) (copy node : Bool) (recipient message : ℕ)
    → NoneLost k
    → IfReturns (λ r. NoneLost r.1) (send_to_process copy node recipient message k)
unfolding send_to_process kernel_send_message kernel_queue_message
send-NoneLost k copy node recipient message h =
    elim (Option-cases (avl_get k.process_table (to_key recipient))) [
      | inl f ↦ rw f (returns h)
      | inr (p, f) ↦ elim (Option-cases (k.processes p)) [
        | inl g ↦ rw (f, g) faults
        | inr (y, g) ↦ elim (Bool-cases (not (y.message_buffer == null) && is_requesting y.state)) [
          | inl e ↦
              rw (f, g, e)
                (IfReturns-then (deliver-NoneLost k p message y h)
                  λ status k' z. rw z.0 (returns z.1))
          | inr e ↦ rw (f, g, e) (queued p y f g (waits_not p y g e) copy node)
        ]
      ]
    ]
  where
    waits_not :
        (p : ℕ) (y : Process)
        → k.processes p ≡ some y
        → (not (y.message_buffer == null) && is_requesting y.state) ≡ false
        → is_requesting y.state ≢ true
    waits_not p y g e w = (h p y g w).1 (ground (arith, e, w))

    queued :
        (p : ℕ) (y : Process)
        → avl_get k.process_table (to_key recipient) ≡ some p
        → k.processes p ≡ some y
        → is_requesting y.state ≢ true
        → (copy node : Bool)
        → IfReturns (λ r. NoneLost r.1) (kernel_queue_message copy node recipient message k)
    queued p y f g idle false node = elim (Option-cases (k.processes k.active_process)) [
      | inl r ↦ rw (f, r) faults
      | inr (x, r) ↦ rw (f, r, g) (returns h)
    ]
    queued p y f g idle true node = elim (Option-cases (k.processes k.active_process)) [
      | inl r ↦ rw (f, r) faults
      | inr (x, r) ↦
          rw (f, r, g)
            (elim (Bool-cases (message == null)) [
              | inl e ↦ rw e faults
              | inr e ↦ rw e (
                  returns (
                    put-AllWait k.processes p
                      (record y {
                        message_queue =
                            if node
                            then y.message_queue ++ k.user k.space message ∷ []
                            else y.message_queue;
                      })
                      h (λ w. absurd (idle w))))
            ])
    ]
