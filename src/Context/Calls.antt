-- ===== src/Context/Calls.antt =====
-- A call of a function on the stack of a process, and the return from it.
use quark_kernel.Base.{
  ℕ, suc, ◌+◌, ◌-◌, ◌*◌, ◌%◌, ◌^◌, ◌≤◌, ◌<◌, ◌≡◌, refl, List, [], ◌∷◌, ◌++◌, All, arith, ap, ◌∙◌,
  subst,
}
use quark_kernel.Strings.{Memory}
use quark_kernel.Context.{
  Stack, stack_pointer, get_word, context_stack_push, context_stack_pop, push_all,
  context_call_func, context_cleanup_func,
}
use quark_kernel.Context.Words.{get-put, put_word-above, get_word-same, push-pointer, push-memory}

abbrev pub count : List ℕ → ℕ
count [] = 0
count (a ∷ args) = suc (count args)

-- The words, one below the other, under an address.
abbrev pub Pushed : Memory → ℕ → List ℕ → Type 0
Pushed m top [] = Unit
Pushed m top (a ∷ args) = (get_word m (top - 4) ≡ a) × Pushed m (top - 4) args

abbrev pub IsWord : ℕ → Type 0
IsWord a = a < 2 ^ 32

-- All words are on the stack, and nothing above it has changed.
record AllPushed (args : List ℕ) (s t : Stack) : Type 0 where
  pointer : stack_pointer t ≡ stack_pointer s - 4 * count args
  pushed : Pushed t.memory (stack_pointer s) args
  above : (q : ℕ) → stack_pointer s ≤ q → t.memory q ≡ s.memory q
  eip : t.ctx.eip ≡ s.ctx.eip

push-eip : (v : ℕ) (s : Stack) → (context_stack_push v s).ctx.eip ≡ s.ctx.eip
unfolding context_stack_push
push-eip v s = refl

push_all-AllPushed :
    (args : List ℕ) (s : Stack)
    → All IsWord args
    → 4 * count args ≤ stack_pointer s
    → IsWord (stack_pointer s)
    → AllPushed args s (push_all args s)
unfolding push_all
push_all-AllPushed [] s words room valid = record {
  pointer = omega arith;
  pushed = tt;
  above = λ q le. refl;
  eip = refl;
}
push_all-AllPushed (a ∷ args) s (word, words) room valid =
    let some_room : 4 ≤ stack_pointer s = omega (arith, room) in
    let s' = context_stack_push a s in
    let p = push-pointer s some_room valid a in
    let m = push-memory s some_room valid a in
    let w = push_all-AllPushed args s' words (omega (arith, p, room)) (omega (arith, p, valid)) in
    record {
      pointer = w.pointer ∙ omega (arith, p, room);
      pushed = (
        get_word-same s'.memory (push_all args s').memory (stack_pointer s - 4)
              (λ q le. w.above q (omega (arith, p, le)))
            ∙ ap (λ (m : Memory). get_word m (stack_pointer s - 4)) m
            ∙ get-put s.memory (stack_pointer s - 4) a word,
        subst (λ x. Pushed (push_all args s').memory x args) p w.pushed,
      );
      above = λ q le.
          w.above q (omega (arith, p, le))
          ∙ ap (λ (m : Memory). m q) m
          ∙ put_word-above s.memory (stack_pointer s - 4) a q (omega (arith, some_room, le));
      eip = w.eip ∙ push-eip a s;
    }

push_all-last :
    (args : List ℕ) (v : ℕ) (s : Stack)
    → context_stack_push v (push_all args s) ≡ push_all (args ++ v ∷ []) s
unfolding push_all
push_all-last [] v s = refl
push_all-last (a ∷ args) v s = push_all-last args v (context_stack_push a s)

words-last : (args : List ℕ) (v : ℕ) → All IsWord args → IsWord v → All IsWord (args ++ v ∷ [])
words-last [] v words word = (word, tt)
words-last (a ∷ args) v (w, words) word = (w, words-last args v words word)

count-last : (args : List ℕ) (v : ℕ) → count (args ++ v ∷ []) ≡ count args + 1
count-last [] v = refl
count-last (a ∷ args) v = ap suc (count-last args v) ∙ omega arith

-- The process is at the start of the function, with the arguments on the stack in order and the
-- return address behind them.
pub record Called (func ret : ℕ) (args : List ℕ) (s t : Stack) : Type 0 where
  pub pc : t.ctx.eip ≡ func
  pub pointer : stack_pointer t ≡ stack_pointer s - 4 * (count args + 1)
  pub pushed : Pushed t.memory (stack_pointer s) (args ++ ret ∷ [])
  pub above : (q : ℕ) → stack_pointer s ≤ q → t.memory q ≡ s.memory q

-- On a stack with room for the arguments and the return address, all of which are words,
-- `context_call_func` pushes the arguments, the first one first, and then the return address,
-- changes nothing above them, and sets the program counter to the function.
pub call-Called :
    (func ret : ℕ) (args : List ℕ) (s : Stack)
    → All IsWord args
    → IsWord ret
    → 4 * (count args + 1) ≤ stack_pointer s
    → IsWord (stack_pointer s)
    → Called func ret args s (context_call_func func ret args s)
unfolding context_call_func
call-Called func ret args s words word room valid =
    let s' : Stack = record s { ctx = record s.ctx { eip = func } } in
    let n = count-last args ret in
    let w =
      push_all-AllPushed (args ++ ret ∷ []) s' (words-last args ret words word)
        (omega (arith, n, room)) valid in
    rw (push_all-last args ret s') (record {
      pc = w.eip;
      pointer = w.pointer ∙ omega (arith, n);
      pushed = w.pushed;
      above = w.above;
    })

-- The function's own return takes the return address from the stack.
abbrev pub return_from : Stack → Stack
return_from s = (context_stack_pop s).1

-- After a call with arguments and the function's own return, `context_cleanup_func` does not take
-- the arguments from the stack: the stack pointer ends lower than before the call, by twice their
-- size. The arguments, the return address and the stack pointer are words, and the stack has room.
pub call-cleanup :
    (func ret : ℕ) (args : List ℕ) (s : Stack)
    → All IsWord args
    → IsWord ret
    → 8 * count args + 4 ≤ stack_pointer s
    → IsWord (stack_pointer s)
    → stack_pointer
        (context_cleanup_func (count args) (return_from (context_call_func func ret args s)))
      ≡ stack_pointer s - 8 * count args
unfolding context_cleanup_func context_stack_pop
call-cleanup func ret args s words word room valid =
    let w = call-Called func ret args s words word (omega (arith, room)) valid in
    rw w.pointer (after (stack_pointer s) (count args) room valid)
  where
    after :
        (p n : ℕ)
        → 8 * n + 4 ≤ p
        → IsWord p
        → ((p - 4 * (n + 1) + 4) % 2 ^ 32 + 2 ^ 32 - 4 * n) % 2 ^ 32 ≡ p - 8 * n
    after p n room valid = omega (arith, room, valid)
