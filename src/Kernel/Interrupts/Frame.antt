-- ===== src/Kernel/Interrupts/Frame.antt =====
-- The stack on which a handler starts: what the kernel saves of the process, and the handler's arguments.
use quark_kernel.Base.{
  ℕ, ◌+◌, ◌-◌, ◌*◌, ◌%◌, ◌^◌, ◌≤◌, ◌<◌, ◌≡◌, ◌≢◌, refl, List, [], ◌∷◌, All, arith, ne→not-==, ap,
  sym, subst, ◌∙◌,
}
use quark_kernel.Kernel.State.{ProcessState, ProcessContext, active, requesting, sending, put}
use quark_kernel.Strings.{Memory}
use quark_kernel.Context.{
  Stack, stack_pointer, put_word, get_word, context_stack_push, push_all, context_call_func,
}
use quark_kernel.Context.Words.{
  get-put, put_word-above, put_word-below, get_word-within, get_word-same, push-pointer,
  push-memory,
}
use quark_kernel.Context.Calls.{count, Pushed, IsWord, Called, call-Called}
use quark_kernel.Kernel.Interrupts.{
  SignalAction, put_words, context_words, state_number, push_context, push_state, push_call,
}

-- The words, one above the other, from an address on.
abbrev pub Words : Memory → ℕ → List ℕ → Type 0
Words m p [] = Unit
Words m p (w ∷ ws) = (get_word m p ≡ w) × Words m (p + 4) ws

put_words-below : (ws : List ℕ) (m : Memory) (p q : ℕ) → q < p → put_words m p ws q ≡ m q
put_words-below [] m p q lt = refl
put_words-below (w ∷ ws) m p q lt =
    put_words-below ws (put_word m p w) (p + 4) q (omega (arith, lt)) ∙ put_word-below m p w q lt

put_words-above :
    (ws : List ℕ) (m : Memory) (p q : ℕ) → p + 4 * count ws ≤ q → put_words m p ws q ≡ m q
put_words-above [] m p q le = refl
put_words-above (w ∷ ws) m p q le =
    put_words-above ws (put_word m p w) (p + 4) q (omega (arith, le))
    ∙ put_word-above m p w q (omega (arith, le))

put_words-Words : (ws : List ℕ) (m : Memory) (p : ℕ) → All IsWord ws → Words (put_words m p ws) p ws
put_words-Words [] m p words = tt
put_words-Words (w ∷ ws) m p (word, words) = (
  get_word-within (put_word m p w) (put_words (put_word m p w) (p + 4) ws) p
        (λ q le lt. put_words-below ws (put_word m p w) (p + 4) q lt)
      ∙ get-put m p w word,
  put_words-Words ws (put_word m p w) (p + 4) words,
)

Words-same :
    (ws : List ℕ) (m m' : Memory) (p : ℕ)
    → ((q : ℕ) → p ≤ q → m' q ≡ m q)
    → Words m p ws
    → Words m' p ws
Words-same [] m m' p same w = tt
Words-same (w ∷ ws) m m' p same (e, rest) = (
  get_word-same m m' p same ∙ e,
  Words-same ws m m' (p + 4) (λ q le. same q (omega (arith, le))) rest,
)

-- The context with another stack pointer.
abbrev pub at_pointer : ℕ → ProcessContext → ProcessContext
at_pointer p ctx = record ctx { gp_registers = put ctx.gp_registers 7 p }

-- The process is at the start of the handler. Under its stack pointer lie the interrupt's number, its
-- context, with the stack pointer behind the copy, and its state; then the user data and the address of
-- the number, and the return address.
pub record Entered (interrupt : ℕ) (state : ProcessState) (action : SignalAction) (s t : Stack)
    : Type 0 where
  pub pc : t.ctx.eip ≡ action.func_ptr
  pub pointer : stack_pointer t ≡ stack_pointer s - 68
  pub registers : (i : ℕ) → i ≢ 7 → t.ctx.gp_registers i ≡ s.ctx.gp_registers i
  pub segments : (t.ctx.cs ≡ s.ctx.cs) × (t.ctx.ss ≡ s.ctx.ss) × (t.ctx.flags ≡ s.ctx.flags)
  pub number : get_word t.memory (stack_pointer s - 4) ≡ interrupt
  pub context :
      Words t.memory
        (stack_pointer s - 52)
        (context_words (at_pointer (stack_pointer s - 52) s.ctx))
  pub its_state : get_word t.memory (stack_pointer s - 56) ≡ state_number state
  pub arguments :
      Pushed t.memory
        (stack_pointer s - 56)
        (action.userdata ∷ (stack_pointer s - 4) ∷ action.trampoline_ptr ∷ [])
  pub above : (q : ℕ) → stack_pointer s ≤ q → t.memory q ≡ s.memory q

state_number-IsWord : (state : ProcessState) → IsWord (state_number state)
state_number-IsWord active = omega arith
state_number-IsWord requesting = omega arith
state_number-IsWord sending = omega arith

module _ (interrupt : ℕ) (state : ProcessState) (s : Stack) (room : 68 ≤ stack_pointer s)
    (valid : IsWord (stack_pointer s)) where
  context-pointer :
      (t : Stack)
      → 64 ≤ stack_pointer t
      → IsWord (stack_pointer t)
      → stack_pointer (push_context t) ≡ stack_pointer t - 48
  unfolding push_context
  context-pointer t room valid = lower (stack_pointer t) room valid
    where
      lower : (k : ℕ) → 64 ≤ k → k < 2 ^ 32 → (k + 2 ^ 32 - 48) % 2 ^ 32 ≡ k - 48
      lower k room valid = omega arith

  push_state-pointer : stack_pointer (push_state interrupt state s) ≡ stack_pointer s - 56
  unfolding push_state
  push_state-pointer =
      let a = push-pointer s (omega (arith, room)) valid interrupt in
      let t = context_stack_push interrupt s in
      let b = context-pointer t (omega (arith, a, room)) (omega (arith, a, valid)) in
      push-pointer (push_context t) (omega (arith, a, b, room)) (omega (arith, a, b, valid)) _
      ∙ omega (arith, a, b, room)

  push_call-Called :
      (action : SignalAction)
      → IsWord action.userdata
      → IsWord action.trampoline_ptr
      → Called action.func_ptr action.trampoline_ptr
          (action.userdata ∷ (stack_pointer s - 4) ∷ [])
          (push_state interrupt state s)
          (push_call interrupt state action s)
  unfolding push_call
  push_call-Called action word word' = rw (push-pointer s (omega (arith, room)) valid interrupt) (
      call-Called action.func_ptr action.trampoline_ptr
        (action.userdata ∷ (stack_pointer s - 4) ∷ []) (push_state interrupt state s)
        (word, (omega (arith, valid), tt)) word' (omega (arith, push_state-pointer, room))
        (omega (arith, push_state-pointer, valid)))

  saved : List ℕ
  saved = context_words (at_pointer (stack_pointer s - 52) s.ctx)

  saved-IsWord : All IsWord (context_words s.ctx) → All IsWord saved
  unfolding saved
  saved-IsWord (w0, (w1, (w2, (w3, (w4, (w5, (w6, (w7, words)))))))) =
      (w0, (w1, (w2, (w3, (w4, (w5, (w6, (omega (arith, valid), words))))))))

  -- The memory after each push.
  number-memory :
      (context_stack_push interrupt s).memory ≡ put_word s.memory (stack_pointer s - 4) interrupt
  number-memory = push-memory s (omega (arith, room)) valid interrupt

  context-memory :
      (push_context (context_stack_push interrupt s)).memory
      ≡ put_words (context_stack_push interrupt s).memory (stack_pointer s - 52) saved
  unfolding push_context context_stack_push saved
  context-memory =
      ap
        (λ p.
          put_words (context_stack_push interrupt s).memory p (context_words (at_pointer p s.ctx)))
        (lower (stack_pointer s) room valid)
    where
      lower :
          (k : ℕ)
          → 68 ≤ k
          → k < 2 ^ 32
          → ((k + 2 ^ 32 - 4) % 2 ^ 32 + 2 ^ 32 - 48) % 2 ^ 32 ≡ k - 52
      lower k room valid = omega arith

  state-memory :
      (push_state interrupt state s).memory
      ≡ put_word
          (push_context (context_stack_push interrupt s)).memory
          (stack_pointer s - 56)
          (state_number state)
  unfolding push_state
  state-memory =
      let a = push-pointer s (omega (arith, room)) valid interrupt in
      let t = context_stack_push interrupt s in
      let b = context-pointer t (omega (arith, a, room)) (omega (arith, a, valid)) in
      push-memory (push_context t) (omega (arith, a, b, room)) (omega (arith, a, b, valid))
        (state_number state)
      ∙ ap (λ p. put_word (push_context t).memory p (state_number state))
          (omega (arith, a, b, room))

  above_state :
      (q : ℕ)
      → stack_pointer s - 52 ≤ q
      → (push_state interrupt state s).memory q
        ≡ (push_context (context_stack_push interrupt s)).memory q
  above_state q le =
      ap (λ (m : Memory). m q) state-memory
      ∙ put_word-above (push_context (context_stack_push interrupt s)).memory (stack_pointer s - 56)
          (state_number state) q (omega (arith, le, room))

  above_context :
      (q : ℕ)
      → stack_pointer s - 4 ≤ q
      → (push_state interrupt state s).memory q ≡ (context_stack_push interrupt s).memory q
  unfolding saved
  above_context q le =
      above_state q (omega (arith, le))
      ∙ ap (λ (m : Memory). m q) context-memory
      ∙ put_words-above saved (context_stack_push interrupt s).memory (stack_pointer s - 52) q
          (in_saved (stack_pointer s) q room le)
    where
      in_saved : (k q : ℕ) → 68 ≤ k → k - 4 ≤ q → k - 52 + 4 * count saved ≤ q
      in_saved k q room le = omega (arith, room, le)

  call-registers :
      (action : SignalAction) (i : ℕ)
      → i ≢ 7
      → (push_call interrupt state action s).ctx.gp_registers i ≡ s.ctx.gp_registers i
  unfolding push_call push_state push_context context_call_func push_all context_stack_push
  call-registers action i ne = rw (ne→not-== i 7 ne) refl

  call-segments :
      (action : SignalAction)
      → ((push_call interrupt state action s).ctx.cs ≡ s.ctx.cs)
        × ((push_call interrupt state action s).ctx.ss ≡ s.ctx.ss)
        × ((push_call interrupt state action s).ctx.flags ≡ s.ctx.flags)
  unfolding push_call push_state push_context context_call_func push_all context_stack_push
  call-segments action = (refl, refl, refl)

  pub push_call-Entered :
      (action : SignalAction)
      → IsWord interrupt
      → All IsWord (context_words s.ctx)
      → IsWord action.userdata
      → IsWord action.trampoline_ptr
      → Entered interrupt state action s (push_call interrupt state action s)
  unfolding saved
  push_call-Entered action n ctx word word' =
      let k = stack_pointer s in
      let c = push_call-Called action word word' in
      let p = push_state-pointer in
      let t2 = push_state interrupt state s in
      let t3 = push_call interrupt state action s in
      let same : (q : ℕ) → k - 56 ≤ q → t3.memory q ≡ t2.memory q =
        λ q le. c.above q (omega (arith, p, le)) in
      record {
        pc = c.pc;
        pointer = c.pointer ∙ omega (arith, p, room);
        registers = call-registers action;
        segments = call-segments action;
        number =
            get_word-same (context_stack_push interrupt s).memory t3.memory (k - 4)
              (λ q le. same q (omega (arith, le)) ∙ above_context q le)
            ∙ ap (λ (m : Memory). get_word m (k - 4)) number-memory
            ∙ get-put s.memory (k - 4) interrupt n;
        context =
            Words-same saved (push_context (context_stack_push interrupt s)).memory t3.memory
              (k - 52) (λ q le. same q (omega (arith, le)) ∙ above_state q le)
              (subst (λ (m : Memory). Words m (k - 52) saved) (sym context-memory)
                (put_words-Words saved (context_stack_push interrupt s).memory (k - 52)
                  (saved-IsWord ctx)));
        its_state =
            get_word-same t2.memory t3.memory (k - 56) same
            ∙ ap (λ (m : Memory). get_word m (k - 56)) state-memory
            ∙ get-put (push_context (context_stack_push interrupt s)).memory (k - 56)
                (state_number state) (state_number-IsWord state);
        arguments =
            subst (λ x. Pushed t3.memory x (action.userdata ∷ (k - 4) ∷ action.trampoline_ptr ∷ []))
              p c.pushed;
        above = λ q le.
            same q (omega (arith, le))
            ∙ above_context q (omega (arith, le))
            ∙ ap (λ (m : Memory). m q) number-memory
            ∙ put_word-above s.memory (k - 4) interrupt q (omega (arith, le, room));
      }
