-- ===== src/Base/Fault.antt =====
-- Code that may fault: `none` is a fault, such as an access through NULL or past an array.
use mathlib.Core.Path.{◌≡◌, refl}
use mathlib.Core.Bool.{Bool, true, false, ◌&&◌}
use mathlib.Core.Option.{Option, none, some}
use native.Mathlib.Omega.{arith}
use quark_kernel.Base.Tests.{if◌then◌else◌}

infixl 5 ◌>>=◌
abbrev pub ◌>>=◌ {ℓ κ} : {A : Type ℓ} {B : Type κ} → Option A → (A → Option B) → Option B
none >>= f = none
some a >>= f = f a

-- Short-circuit `a && b` where `b` may fault.
abbrev pub short_and : Bool → Option Bool → Option Bool
short_and a b = if a then b else some false

-- What the code returns, if it does not fault, satisfies `P`.
pub data IfReturns {ℓ κ} {A : Type ℓ} (P : A → Type κ) : Option A → Type (ℓ ⊔ κ) where
  faults : IfReturns P none
  returns : {a : A} → P a → IfReturns P (some a)

module _ {ℓ κ} {A : Type ℓ} {P : A → Type κ} where
  pub IfReturns-bind {μ ν} :
      {B : Type μ} {Q : B → Type ν} {m : Option A} {f : A → Option B}
      → IfReturns P m
      → ((a : A) → P a → IfReturns Q (f a))
      → IfReturns Q (m >>= f)
  IfReturns-bind faults k = faults
  IfReturns-bind (returns p) k = k _ p

  pub IfReturns-if :
      (b : Bool) {x y : Option A} → IfReturns P x → IfReturns P y → IfReturns P (if b then x else y)
  IfReturns-if true h k = h
  IfReturns-if false h k = k

  pub IfReturns-if_cases :
      (b : Bool) {x y : Option A}
      → (b ≡ true → IfReturns P x)
      → (b ≡ false → IfReturns P y)
      → IfReturns P (if b then x else y)
  IfReturns-if_cases true h k = h refl
  IfReturns-if_cases false h k = k refl

  pub IfReturns-map {μ} :
      {Q : A → Type μ} {m : Option A} → IfReturns P m → ((a : A) → P a → Q a) → IfReturns Q m
  IfReturns-map faults k = faults
  IfReturns-map (returns p) k = returns (k _ p)

  -- A test that may fault, and a branch on it.
  pub IfReturns-test :
      (test : Option Bool) {x y : Option A}
      → IfReturns P x
      → IfReturns P y
      → IfReturns P (test >>= λ b. if b then x else y)
  IfReturns-test none h k = faults
  IfReturns-test (some b) h k = IfReturns-if b h k

-- The code runs without a fault, to a result that satisfies `P`.
pub data Ensures {ℓ κ} {A : Type ℓ} (P : A → Type κ) : Option A → Type (ℓ ⊔ κ) where
  ensures : {a : A} → P a → Ensures P (some a)

abbrev pub Runs {ℓ} : {A : Type ℓ} → Option A → Type ℓ
Runs = Ensures (λ _. Unit {0})

module _ {ℓ κ} {A : Type ℓ} {P : A → Type κ} where
  pub Ensures-bind {μ ν} :
      {B : Type μ} {Q : B → Type ν} {m : Option A} {f : A → Option B}
      → Ensures P m
      → ((a : A) → P a → Ensures Q (f a))
      → Ensures Q (m >>= f)
  Ensures-bind (ensures p) k = k _ p

  pub Ensures-if :
      (b : Bool) {x y : Option A}
      → (b ≡ true → Ensures P x)
      → (b ≡ false → Ensures P y)
      → Ensures P (if b then x else y)
  Ensures-if true h k = h refl
  Ensures-if false h k = k refl

  pub Ensures-map {μ} :
      {Q : A → Type μ} {m : Option A} → Ensures P m → ((a : A) → P a → Q a) → Ensures Q m
  Ensures-map (ensures p) k = ensures (k _ p)

  pub Ensures-inv : {m : Option A} → Ensures P m → (a : A) × (m ≡ some a) × P a
  Ensures-inv (ensures p) = (_, refl, p)

  -- What the code returns satisfies `P`, and it returns.
  pub Ensures-Runs : {m : Option A} → IfReturns P m → Runs m → Ensures P m
  Ensures-Runs (returns p) r = ensures p
  Ensures-Runs faults r = elim r [ ]

  -- A branch on a short-circuit test.
  pub Ensures-and :
      (a b : Bool) {x y : Option A}
      → (a ≡ true → b ≡ true → Ensures P x)
      → ((a && b) ≡ false → Ensures P y)
      → Ensures P (short_and a (some b) >>= λ c. if c then x else y)
  Ensures-and true true h k = h refl refl
  Ensures-and true false h k = k refl
  Ensures-and false b h k = k refl

  pub Ensures-skip :
      (a : Bool) (test : Option Bool) (x : Option A) {y : Option A}
      → a ≡ false
      → Ensures P y
      → Ensures P (short_and a test >>= λ c. if c then x else y)
  Ensures-skip true test x h k = absurd (ground arith)
  Ensures-skip false test x h k = k
