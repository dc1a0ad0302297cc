-- ===== src/Printing/Digits.antt =====
-- `itoa`: the number that its digits stand for, and the bounds of the array.
use quark_kernel.Base.{
  ℕ, zero, suc, ◌+◌, ◌*◌, ◌/◌, ◌%◌, ◌^◌, ◌≤◌, ◌<◌, ◌≡◌, ◌≢◌, ◌⊎◌, inl, inr, refl, true, false,
  Bool-cases, Option, none, some, ◌==◌, ltb, not, ◌||◌, arith, ==_refl, ==_iff, ne→not-==,
  not-==→ne, lt→ltb, le→not-ltb, sym, ap, ◌∙◌,
}
use native.Mathlib.Nat.{two-pow-succ, div-add-mod', div-lt_iff_lt-mul, mul-le-mul_left}
use quark_kernel.Base.Fault.{Ensures, ensures, Ensures-map}
use quark_kernel.Printing.Characters.{
  IsDigit, value, value-append, value-none, value-zero, digit-IsDigit,
}
use quark_kernel.Printing.{digit, set_at, digits_from, returned, itoa}

-- The digits of `n` end before `p`, with zeros in front up to the width.
pub record Digits (base n p width count : ℕ) (buffer : ℕ → ℕ) (r : ℕ × (ℕ → ℕ)) : Type 0 where
  pub length : ℕ
  pub ends : r.0 + length ≡ p
  pub enough : width ≤ count + length
  pub some_digit : 0 < length
  pub number : value base r.1 r.0 length ≡ n
  pub digits : (i : ℕ) → i < length → IsDigit base (r.1 (r.0 + i))
  pub kept : (i : ℕ) → p ≤ i → r.1 i ≡ buffer i
  pub shortest : (count + length ≤ width) ⊎ ((length ≡ 1) ⊎ (r.1 r.0 ≢ 48))

half : (n base m : ℕ) → 2 ≤ base → n < m + m → n / base < m
half n base m le lt =
    let wide = mul-le-mul_left m le in
    (div-lt_iff_lt-mul (omega (arith, le))).1 (omega (arith, lt, wide))

set_at-same : (buffer : ℕ → ℕ) (s c : ℕ) → set_at buffer s c s ≡ c
set_at-same buffer s c = rw (==_refl s) refl

set_at-above : (buffer : ℕ → ℕ) (s c i : ℕ) → suc s ≤ i → set_at buffer s c i ≡ buffer i
set_at-above buffer s c i le = rw (ne→not-== i s (λ z. omega (arith, z, le))) refl

go_on : (a b q : ℕ) → (ltb a b || not (q == 0)) ≡ true → (a < b) ⊎ (q ≢ 0)
go_on a b q e = elim (Bool-cases (ltb a b)) [
  | inl z ↦ inl (ground (arith, z))
  | inr z ↦ inr (λ zero. ground (arith, e, z, zero))
]

stop : (a b q : ℕ) → (ltb a b || not (q == 0)) ≡ false → (b ≤ a) × (q ≡ 0)
stop a b q e = elim (Bool-cases (ltb a b)) [
  | inl z ↦ absurd (ground (arith, e, z))
  | inr z ↦ (ground (arith, z), ground (arith, e, z))
]

module _ (base width : ℕ) (le : 2 ≤ base) (le' : base ≤ 16) where
  below : (n : ℕ) → n % base < base
  below n = omega (arith, le)

  -- The last digit, alone.
  last-Digits :
      (s n count : ℕ) (buffer : ℕ → ℕ)
      → width ≤ count + 1
      → n / base ≡ 0
      → Digits base n (suc s) width count buffer (s, set_at buffer s (digit (n % base)))
  last-Digits s n count buffer enough z = record {
    length = 1;
    ends = omega arith;
    enough = enough;
    some_digit = omega arith;
    number =
        value-append base (set_at buffer s (digit (n % base))) s 0 0 (n % base)
          (value-none base (set_at buffer s (digit (n % base))) s) (here 0 (omega arith))
        ∙ ap (λ q. q * base + n % base) (sym z)
        ∙ div-add-mod' n base;
    digits = λ i lt. rw (here i lt) (digit-IsDigit base (n % base) le' (below n));
    kept = set_at-above buffer s (digit (n % base));
    shortest = inr (inl refl);
  }
    where
      here : (i : ℕ) → i < 1 → set_at buffer s (digit (n % base)) (s + i) ≡ digit (n % base)
      here i lt =
          ap (set_at buffer s (digit (n % base))) (omega (arith, lt))
          ∙ set_at-same buffer s (digit (n % base))

  -- The last digit, behind the others.
  next-Digits :
      (s n count : ℕ) (buffer : ℕ → ℕ) (r : ℕ × (ℕ → ℕ))
      → (count + 1 < width) ⊎ (n / base ≢ 0)
      → Digits base (n / base) s width (count + 1) (set_at buffer s (digit (n % base))) r
      → Digits base n (suc s) width count buffer r
  next-Digits s n count buffer r more d = record {
    length = suc d.length;
    ends = omega (arith, d.ends);
    enough = omega (arith, d.enough);
    some_digit = omega arith;
    number =
        value-append base r.1 r.0 d.length (n / base) (n % base) d.number last
        ∙ div-add-mod' n base;
    digits = λ i lt. elim (Bool-cases (i == d.length)) [
      | inl z ↦
          let same = (==_iff i d.length).0 z in
          rw (same, last) (digit-IsDigit base (n % base) le' (below n))
      | inr z ↦ d.digits i (omega (arith, lt, not-==→ne i d.length z))
    ];
    kept = λ i above.
        d.kept i (omega (arith, above)) ∙ set_at-above buffer s (digit (n % base)) i above;
    shortest = elim d.shortest [
      | inl few ↦ inl (omega (arith, few))
      | inr (inl one) ↦ elim more [
        | inl lt ↦ inl (omega (arith, lt, one))
        | inr ne ↦
            inr
              (inr λ z. ne (sym d.number ∙ ap (value base r.1 r.0) one ∙ value-zero base r.1 r.0 z))
      ]
      | inr (inr first) ↦ inr (inr first)
    ];
  }
    where
      last : r.1 (r.0 + d.length) ≡ digit (n % base)
      last = ap r.1 d.ends ∙ d.kept s (omega arith) ∙ set_at-same buffer s (digit (n % base))

  digits_from-Digits :
      (p n count : ℕ) (buffer : ℕ → ℕ)
      → 0 < p
      → n < 2 ^ p
      → width ≤ count + p
      → Ensures (Digits base n p width count buffer) (digits_from p n base width count buffer)
  unfolding digits_from
  digits_from-Digits zero n count buffer room small enough = absurd (omega arith)
  digits_from-Digits (suc s) n count buffer room small enough =
      let smaller = half n base (2 ^ s) le (rw (two-pow-succ s) at small) in
      let go = digits_from-Digits s (n / base) (count + 1) (set_at buffer s (digit (n % base))) in
      elim (Bool-cases (ltb (count + 1) width || not (n / base == 0))) [
        | inl z ↦ rw z (
            Ensures-map
              (go (left s (n / base) count smaller enough (go_on (count + 1) width (n / base) z))
                smaller (omega (arith, enough)))
              λ r. next-Digits s n count buffer r (go_on (count + 1) width (n / base) z))
        | inr z ↦
            let (last, none_left) = stop (count + 1) width (n / base) z in
            rw z (ensures (last-Digits s n count buffer last none_left))
      ]
    where
      left : (s q count : ℕ) → q < 2 ^ s → width ≤ count + suc s → count + 1 < width ⊎ q ≢ 0 → 0 < s
      left zero q count small enough (inl lt) = absurd (omega (arith, lt, enough))
      left zero q count small enough (inr ne) = absurd (ne (omega (arith, small)))
      left (suc s) q count small enough more = omega arith

-- A string in the array: the digits of a number, which end before the last place, where the byte
-- that ends the string is.
pub data Printed (base n width : ℕ) : Option (ℕ × (ℕ → ℕ)) → Type 0 where
  printed :
      (s length : ℕ) (buffer : ℕ → ℕ)
      → s + length ≡ 64
      → buffer 64 ≡ 0
      → width ≤ length
      → value base buffer s length ≡ n
      → ((i : ℕ) → i < length → IsDigit base (buffer (s + i)))
      → (length ≤ width) ⊎ ((length ≡ 1) ⊎ (buffer s ≢ 48))
      → Printed base n width (some (s, buffer))

-- In a base from 2 to 16 and with a width of at most 64, `itoa` of a 32-bit number stays inside its
-- array, and returns a string of at least as many characters as the width, each of them a digit of
-- the base among 0 to 9 and a to f, that stands for the number; it starts with no 0 unless the width
-- asks for it, or it is the only digit.
pub itoa-Printed :
    (buffer : ℕ → ℕ) (n base width : ℕ)
    → 2 ≤ base
    → base ≤ 16
    → width ≤ 64
    → n < 2 ^ 32
    → Ensures (Printed base n width) (itoa buffer n base width)
unfolding itoa
itoa-Printed buffer n base width le le' narrow small =
    rw (le→not-ltb base 2 le, le→not-ltb 16 base le')
      (wrap _ (
        digits_from-Digits base width le le' 64 n 0 (set_at buffer 64 0) (omega arith)
          (omega (arith, small)) (omega (arith, narrow))))
  where
    wrap :
        (o : Option (ℕ × (ℕ → ℕ)))
        → Ensures (Digits base n 64 width 0 (set_at buffer 64 0)) o
        → Ensures (Printed base n width) (returned o)
    wrap none x = elim x [ ]
    wrap (some (s, written)) (ensures d) = ensures (
        printed s d.length written d.ends (d.kept 64 (omega arith)) (omega (arith, d.enough))
          d.number d.digits
          (elim d.shortest [ inl few ↦ inl (omega (arith, few)) | inr x ↦ inr x ]))

overrun :
    (p n base width count : ℕ) (buffer : ℕ → ℕ)
    → count + p < width
    → digits_from p n base width count buffer ≡ none
unfolding digits_from
overrun zero n base width count buffer lt = refl
overrun (suc s) n base width count buffer lt = rw (lt→ltb (count + 1) width (omega (arith, lt))) (
    overrun s (n / base) base width (count + 1) (set_at buffer s (digit (n % base)))
      (omega (arith, lt)))

-- With a width of more than 64, `itoa` in a base from 2 to 16 writes before its array, a fault.
pub itoa-overrun :
    (buffer : ℕ → ℕ) (n base width : ℕ)
    → 2 ≤ base
    → base ≤ 16
    → 64 < width
    → itoa buffer n base width ≡ none
unfolding itoa
itoa-overrun buffer n base width le le' wide =
    rw
      (
        le→not-ltb base 2 le,
        le→not-ltb 16 base le',
        overrun 64 n base width 0 (set_at buffer 64 0) wide,
      )
      refl
