-- ===== src/Printing/Characters.antt =====
-- The characters that are digits, and the number that a string of them stands for.
use quark_kernel.Base.{
  ℕ, zero, suc, ◌+◌, ◌-◌, ◌*◌, ◌≤◌, ◌<◌, ◌≡◌, ◌⊎◌, inl, inr, refl, Bool-cases, ltb, if◌then◌else◌,
  arith, lt→ltb, le→not-ltb, ap, ◌∙◌,
}
use quark_kernel.Printing.{digit}

-- The value of a digit's character, and of a string of `k` digits from the index `q` on.
abbrev pub digit_value : ℕ → ℕ
digit_value c = if ltb c 58 then c - 48 else c - 87

-- The characters 0 to 9 and a to f are digits, as far as their value is below the base.
abbrev pub IsDigit : (base c : ℕ) → Type 0
IsDigit base c = (((48 ≤ c) × (c < 58)) ⊎ ((97 ≤ c) × (c < 103))) × (digit_value c < base)

unfoldable pub value : (base : ℕ) → (ℕ → ℕ) → (q k : ℕ) → ℕ
value base buffer q zero = 0
value base buffer q (suc k) = value base buffer q k * base + digit_value (buffer (q + k))

pub digit-value : (d : ℕ) → digit_value (digit d) ≡ d
digit-value d = elim (Bool-cases (ltb d 10)) [
  | inl z ↦ rw (z, lt→ltb (48 + d) 58 (ground (arith, z))) (omega arith)
  | inr z ↦ rw (z, le→not-ltb (87 + d) 58 (omega arith)) (omega arith)
]

pub digit-IsDigit : (base d : ℕ) → base ≤ 16 → d < base → IsDigit base (digit d)
digit-IsDigit base d le lt = (character, rw (digit-value d) lt)
  where
    character : ((48 ≤ digit d) × (digit d < 58)) ⊎ ((97 ≤ digit d) × (digit d < 103))
    character = elim (Bool-cases (ltb d 10)) [
      | inl z ↦ rw z (inl (omega arith, ground (arith, z)))
      | inr z ↦ rw z (inr (ground (arith, z), omega (arith, le, lt)))
    ]

pub value-append :
    (base : ℕ) (buffer : ℕ → ℕ) (q k m d : ℕ)
    → value base buffer q k ≡ m
    → buffer (q + k) ≡ digit d
    → value base buffer q (suc k) ≡ m * base + d
unfolding value
value-append base buffer q k m d e e' = rw (e, e') (ap (λ x. m * base + x) (digit-value d))

pub value-none : (base : ℕ) (buffer : ℕ → ℕ) (q : ℕ) → value base buffer q 0 ≡ 0
unfolding value
value-none base buffer q = refl

pub value-zero : (base : ℕ) (buffer : ℕ → ℕ) (q : ℕ) → buffer q ≡ 48 → value base buffer q 1 ≡ 0
unfolding value
value-zero base buffer q e =
    let here : buffer (q + 0) ≡ 48 = ap buffer (omega arith) ∙ e in rw here (omega arith)
