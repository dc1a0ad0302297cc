-- ===== src/Base/State.antt =====
-- Code over a state that may fault: `none` is a fault.
use mathlib.Core.Path.{◌≡◌, refl}
use mathlib.Core.Option.{Option, none, some}
use quark_kernel.Base.Fault.{Ensures, ensures, IfReturns, faults, returns}

abbrev pub St : Type 0 → Type 0 → Type 0
St S A = S → Option (A × S)

module _ {S : Type 0} where
  abbrev pub pure : {A : Type 0} → A → St S A
  pure a s = some (a, s)

  abbrev pub fault : {A : Type 0} → St S A
  fault s = none

  -- What follows a step, which may have faulted.
  abbrev pub continue : {A B : Type 0} → Option (A × S) → (A → St S B) → Option (B × S)
  continue none f = none
  continue (some (a, s)) f = f a s

  infixl 5 ◌>>=◌ ◌>>◌
  abbrev pub ◌>>=◌ : {A B : Type 0} → St S A → (A → St S B) → St S B
  (m >>= f) s = continue (m s) f

  abbrev pub ◌>>◌ : {A B : Type 0} → St S A → St S B → St S B
  m >> n = m >>= λ _. n

  abbrev pub read : St S S
  read s = some (s, s)

  abbrev pub modify : (S → S) → St S (Unit {0})
  modify f s = some (tt, f s)

  -- A result of another component.
  abbrev pub lift : {A : Type 0} → Option A → St S A
  lift none s = none
  lift (some a) s = some (a, s)

  -- What a sequence of steps ensures of the result and the state.
  module _ {A B : Type 0} {P : A × S → Type 0} {Q : B × S → Type 0} where
    pub Ensures-then :
        {o : Option (A × S)} {f : A → St S B}
        → Ensures P o
        → ((a : A) (s : S) → P (a, s) → Ensures Q (f a s))
        → Ensures Q (continue o f)
    Ensures-then (ensures p) c = c _ _ p

    pub IfReturns-then :
        {o : Option (A × S)} {f : A → St S B}
        → IfReturns P o
        → ((a : A) (s : S) → P (a, s) → IfReturns Q (f a s))
        → IfReturns Q (continue o f)
    IfReturns-then faults c = faults
    IfReturns-then (returns p) c = c _ _ p

  module _ {A B : Type 0} {P : A → Type 0} {Q : B × S → Type 0} where
    -- A call of another component, and what follows it.
    pub Ensures-lift :
        (f : A → St S B) {m : Option A} {s : S}
        → Ensures P m
        → ((a : A) → P a → Ensures Q (f a s))
        → Ensures Q (continue (lift m s) f)
    Ensures-lift f (ensures p) c = c _ p

    pub IfReturns-lift :
        (f : A → St S B) {m : Option A} {s : S}
        → IfReturns P m
        → ((a : A) → P a → IfReturns Q (f a s))
        → IfReturns Q (continue (lift m s) f)
    IfReturns-lift f faults c = faults
    IfReturns-lift f (returns p) c = c _ p

  module _ {A B : Type 0} where
    -- What follows a step may be replaced by what does the same.
    pub continue-same :
        {f g : A → St S B}
        → ((a : A) (s : S) → f a s ≡ g a s)
        → (o : Option (A × S)) → continue o f ≡ continue o g
    continue-same e none = refl
    continue-same e (some (a, s)) = e a s

    pub continue-fault :
        (o : Option (A × S)) (f : A → St S B)
        → ((a : A) (s : S) → f a s ≡ none)
        → continue o f ≡ none
    continue-fault none f e = refl
    continue-fault (some (a, s)) f e = e a s

  pub continue_assoc :
      {A B C : Type 0} (o : Option (A × S)) (f : A → St S B) (g : B → St S C)
      → continue (continue o f) g ≡ continue o (λ a s. continue (f a s) g)
  continue_assoc none f g = refl
  continue_assoc (some (a, s)) f g = refl
