-- ===== src/Context/Words.antt =====
-- Words in the memory, and one of them on the stack.
use quark_kernel.Base.{
  ℕ, ◌+◌, ◌-◌, ◌*◌, ◌/◌, ◌%◌, ◌^◌, ◌≤◌, ◌<◌, ◌≡◌, ◌≢◌, refl, arith, ==_refl, ne→not-==, ap,
}
use quark_kernel.Strings.{Memory, poke}
use quark_kernel.Context.{
  Stack, stack_pointer, put_word, get_word, context_stack_push, context_stack_pop,
}

poke-same : (m : Memory) (p v : ℕ) → poke m p v p ≡ v
poke-same m p v = rw (==_refl p) refl

poke-other : (m : Memory) (p v q : ℕ) → q ≢ p → poke m p v q ≡ m q
poke-other m p v q ne = rw (ne→not-== q p ne) refl

bytes :
    (v : ℕ)
    → v < 2 ^ 32
    → v % 256 + 256 * (v / 256 % 256) + 65536 * (v / 65536 % 256) + 16777216 * (v / 16777216 % 256)
      ≡ v
bytes v lt = omega arith

-- The four bytes of a word.
put_word-bytes :
    (m : Memory) (p v : ℕ)
    → (put_word m p v p ≡ v % 256)
      × (put_word m p v (p + 1) ≡ v / 256 % 256)
      × (put_word m p v (p + 2) ≡ v / 65536 % 256)
      × (put_word m p v (p + 3) ≡ v / 16777216 % 256)
put_word-bytes m p v = (
  rw
      (
        ne→not-== p (p + 3) (omega arith),
        ne→not-== p (p + 2) (omega arith),
        ne→not-== p (p + 1) (omega arith),
        ==_refl p,
      )
      refl,
  rw
      (
        ne→not-== (p + 1) (p + 3) (omega arith),
        ne→not-== (p + 1) (p + 2) (omega arith),
        ==_refl (p + 1),
      )
      refl,
  rw (ne→not-== (p + 2) (p + 3) (omega arith), ==_refl (p + 2)) refl,
  rw (==_refl (p + 3)) refl,
)

pub get-put : (m : Memory) (p v : ℕ) → v < 2 ^ 32 → get_word (put_word m p v) p ≡ v
get-put m p v lt =
    let (e, e', e'', e''') = put_word-bytes m p v in rw (e, e', e'', e''') (bytes v lt)

pub put_word-above : (m : Memory) (p v q : ℕ) → p + 4 ≤ q → put_word m p v q ≡ m q
put_word-above m p v q le =
    rw
      (
        ne→not-== q (p + 3) (λ e. omega (arith, e, le)),
        ne→not-== q (p + 2) (λ e. omega (arith, e, le)),
        ne→not-== q (p + 1) (λ e. omega (arith, e, le)),
        ne→not-== q p (λ e. omega (arith, e, le)),
      )
      refl

pub put_word-below : (m : Memory) (p v q : ℕ) → q < p → put_word m p v q ≡ m q
put_word-below m p v q lt =
    rw
      (
        ne→not-== q (p + 3) (λ e. omega (arith, e, lt)),
        ne→not-== q (p + 2) (λ e. omega (arith, e, lt)),
        ne→not-== q (p + 1) (λ e. omega (arith, e, lt)),
        ne→not-== q p (λ e. omega (arith, e, lt)),
      )
      refl

-- A word depends on its four bytes.
pub get_word-within :
    (m m' : Memory) (p : ℕ)
    → ((q : ℕ) → p ≤ q → q < p + 4 → m' q ≡ m q)
    → get_word m' p ≡ get_word m p
get_word-within m m' p same =
    rw
      (
        same p (omega arith) (omega arith),
        same (p + 1) (omega arith) (omega arith),
        same (p + 2) (omega arith) (omega arith),
        same (p + 3) (omega arith) (omega arith),
      )
      refl

pub get_word-same :
    (m m' : Memory) (p : ℕ) → ((q : ℕ) → p ≤ q → m' q ≡ m q) → get_word m' p ≡ get_word m p
get_word-same m m' p same = get_word-within m m' p λ q le lt. same q le

module _ (s : Stack) (room : 4 ≤ stack_pointer s) (valid : stack_pointer s < 2 ^ 32) where
  lower : (k : ℕ) → 4 ≤ k → k < 2 ^ 32 → (k + 2 ^ 32 - 4) % 2 ^ 32 ≡ k - 4
  lower k le lt = omega arith

  pub push-pointer : (v : ℕ) → stack_pointer (context_stack_push v s) ≡ stack_pointer s - 4
  unfolding context_stack_push
  push-pointer v = lower (stack_pointer s) room valid

  pub push-memory :
      (v : ℕ) → (context_stack_push v s).memory ≡ put_word s.memory (stack_pointer s - 4) v
  unfolding context_stack_push
  push-memory v = ap (λ p. put_word s.memory p v) (lower (stack_pointer s) room valid)

  -- A word that is pushed on a stack with room for it is the one that is popped next, and the
  -- stack pointer is then as before.
  pub push-pop :
      (v : ℕ)
      → v < 2 ^ 32
      → ((context_stack_pop (context_stack_push v s)).0 ≡ v)
        × (stack_pointer (context_stack_pop (context_stack_push v s)).1 ≡ stack_pointer s)
  unfolding context_stack_pop context_stack_push
  push-pop v lt = (
    get-put s.memory ((stack_pointer s + 2 ^ 32 - 4) % 2 ^ 32) v lt,
    back (stack_pointer s) room valid,
  )
    where
      back : (k : ℕ) → 4 ≤ k → k < 2 ^ 32 → ((k + 2 ^ 32 - 4) % 2 ^ 32 + 4) % 2 ^ 32 ≡ k
      back k le lt = omega arith
