-- ===== src/Logarithm.antt =====
-- src/math.c: the logarithms, as the compiler GCC makes them on a machine of 32-bit longs. The
-- functions `__builtin_clz` and `__builtin_clzl` of the compiler are parameters.
mod Tests
use quark_kernel.Base.{
  ℕ, zero, suc, ◌+◌, ◌-◌, ◌*◌, ◌^◌, ◌≤◌, ◌<◌, ◌≡◌, refl, Bool-cases, inl, inr, arith, if◌then◌else◌,
  leb, ap, sym, ◌∙◌, subst,
}
use native.Mathlib.Nat.{two-pow-succ}

unfoldable pub ilog2 : (builtin_clz : ℕ → ℕ) → ℕ → ℕ
ilog2 builtin_clz x = if leb x 1 then 0 else 32 - builtin_clz (x - 1)

unfoldable pub llog2 : (builtin_clzl : ℕ → ℕ) → ℕ → ℕ
llog2 builtin_clzl x = if leb x 1 then 0 else 32 - builtin_clzl (x - 1)

-- The count of leading zero bits of an integer of 32 bits that is not 0: its highest bit is 2 to
-- the power of 31 minus the count.
abbrev pub CountsLeadingZeros : (ℕ → ℕ) → Type 0
CountsLeadingZeros clz =
    (x : ℕ) → 0 < x → x < 2 ^ 32 → (clz x < 32) × (2 ^ (31 - clz x) ≤ x) × (x < 2 ^ (32 - clz x))

next_power : (c : ℕ) → c < 32 → 2 ^ (32 - c) ≡ 2 ^ (31 - c) + 2 ^ (31 - c)
next_power c lt =
    let e : 32 - c ≡ suc (31 - c) = omega (arith, lt) in ap (λ k. 2 ^ k) e ∙ two-pow-succ (31 - c)

module _ (clz : ℕ → ℕ) (law : CountsLeadingZeros clz) where
  rounds_up :
      (x : ℕ) → 1 < x → x < 2 ^ 32 → (x ≤ 2 ^ (32 - clz (x - 1))) × (2 ^ (32 - clz (x - 1)) < 2 * x)
  rounds_up x lt small =
      let (few, low, high) = law (x - 1) (omega (arith, lt)) (omega (arith, small)) in
      let twice = next_power (clz (x - 1)) few in (omega (arith, high), omega (arith, twice, low))

  -- For a number from 1 on, of 32 bits, and with functions that count leading zeros, 2 to the
  -- power of `ilog2` is the least power of 2 that is not below the number, and `llog2` gives the
  -- same.
  pub ilog2-ceiling :
      (x : ℕ)
      → 0 < x
      → x < 2 ^ 32
      → (x ≤ 2 ^ ilog2 clz x) × (2 ^ ilog2 clz x < 2 * x) × (llog2 clz x ≡ ilog2 clz x)
  unfolding ilog2 llog2
  ilog2-ceiling x lt small = elim (Bool-cases (leb x 1)) [
    | inl z ↦ let one : x ≤ 1 = ground (arith, z) in rw z (one, omega (arith, lt), refl)
    | inr z ↦ let (up, down) = rounds_up x (ground (arith, z)) small in rw z (up, down, refl)
  ]
