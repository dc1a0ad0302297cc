-- ===== src/Logarithm/Tests.antt =====
-- The theorem on src/math.c, with a function that counts leading zeros.
use quark_kernel.Base.{
  ℕ, zero, suc, ◌+◌, ◌-◌, ◌/◌, ◌^◌, ◌≤◌, ◌<◌, ◌≡◌, refl, arith, Bool-cases, inl, inr, ==_iff,
  ne→not-==, not-==→ne, ◌==◌, if◌then◌else◌,
}
use native.Mathlib.Nat.{two-pow-succ}
use quark_kernel.Logarithm.{ilog2, CountsLeadingZeros}

-- The number of bits of a number below 2 to the power of the fuel.
bits : (fuel : ℕ) → ℕ → ℕ
bits zero x = 0
bits (suc fuel) x = if x == 0 then 0 else bits fuel (x / 2) + 1

-- The bits of a number that is not 0.
record IsLength (fuel x k : ℕ) : Type 0 where
  few : k < fuel
  low : 2 ^ k ≤ x
  high : x < 2 ^ suc k

bits_zero : (fuel : ℕ) → bits fuel 0 ≡ 0
unfolding bits
bits_zero zero = refl
bits_zero (suc fuel) = refl

bits-IsLength :
    (fuel x : ℕ) → 0 < x → x < 2 ^ fuel → (k : ℕ) × (bits fuel x ≡ suc k) × IsLength fuel x k
unfolding bits
bits-IsLength zero x lt small = absurd (omega arith)
bits-IsLength (suc fuel) x lt small =
    let double = two-pow-succ fuel in
    elim (Bool-cases (x / 2 == 0)) [
      | inl z ↦
          let half : x / 2 ≡ 0 = (==_iff (x / 2) 0).0 z in
          let one : x ≡ 1 = omega (arith, half, lt) in
          (
            0,
            rw (one, bits_zero fuel) refl,
            record { few = omega arith; low = lt; high = omega (arith, one) },
          )
      | inr z ↦
          let ne = not-==→ne (x / 2) 0 z in
          let (k, e, l) =
            bits-IsLength fuel (x / 2) (omega (arith, ne)) (omega (arith, small, double)) in
          let twice = two-pow-succ k in
          let twice' = two-pow-succ (suc k) in
          (
            suc k,
            rw (ne→not-== x 0 (λ z. omega (arith, z, lt)), e) (omega arith),
            record {
              few = omega (arith, l.few);
              low = omega (arith, l.low, twice);
              high = omega (arith, l.high, twice');
            },
          )
    ]

clz : ℕ → ℕ
unfolding bits
clz x = 32 - bits 32 x

clz-law : CountsLeadingZeros clz
unfolding clz
clz-law x lt small =
    let (k, e, l) = bits-IsLength 32 x lt small in
    let same : 32 - bits 32 x ≡ 31 - k = omega (arith, e) in
    let back : 31 - (31 - k) ≡ k = omega (arith, l.few) in
    let back' : 32 - (31 - k) ≡ suc k = omega (arith, l.few) in
    (omega (arith, e), rw (same, back) l.low, rw (same, back') l.high)

eight : ilog2 clz 5 ≡ 3
unfolding ilog2 clz bits
eight = refl
