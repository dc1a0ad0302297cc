-- ===== src/Strings/Scan.antt =====
-- What `memcmp` and `strlen` return.
use quark_kernel.Base.{
  ℕ, zero, suc, ◌+◌, ◌^◌, ◌≤◌, ◌<◌, ◌≡◌, ◌≢◌, refl, inl, inr, Bool-cases, ==_iff, not-==→ne,
  ne→not-==, ltb, ltb→lt, lt→ltb, false, ◌==◌, some, arith,
}
use quark_kernel.Base.Int.{ℤ, pos, negsuc}
use quark_kernel.Strings.{Memory, compare_from, memcmp, strlen_from, strlen}

module _ (m : Memory) (a b : ℕ) where
  -- The bytes from `i` to `k` agree.
  abbrev pub Agree : ℕ → ℕ → Type 0
  Agree i k = (j : ℕ) → i ≤ j → j < k → m (a + j) ≡ m (b + j)

  -- What the first byte that differs, if there is one, says of two regions of `num` bytes.
  pub data Compared (num : ℕ) : ℤ → Type 0 where
    equal : Agree 0 num → Compared num (pos 0)
    less : (k : ℕ) → k < num → Agree 0 k → m (a + k) < m (b + k) → Compared num (negsuc 0)
    more : (k : ℕ) → k < num → Agree 0 k → m (b + k) < m (a + k) → Compared num (pos 1)

  compare_from-Compared :
      (n i num : ℕ) → i + n ≡ num → Agree 0 i → Compared num (compare_from n m a b i)
  unfolding compare_from
  compare_from-Compared zero i num e h = equal (λ j le lt. h j le (omega (arith, lt, e)))
  compare_from-Compared (suc n) i num e h = elim (Bool-cases (ltb (m (a + i)) (m (b + i)))) [
    | inl p ↦ rw p (less i (omega arith) h (ltb→lt (m (a + i)) (m (b + i)) p))
    | inr p ↦ rw p (elim (Bool-cases (ltb (m (b + i)) (m (a + i)))) [
      | inl q ↦ rw q (more i (omega arith) h (ltb→lt (m (b + i)) (m (a + i)) q))
      | inr q ↦ rw q (compare_from-Compared n (i + 1) num (omega arith) (extended p q))
    ])
  ]
    where
      extended :
          ltb (m (a + i)) (m (b + i)) ≡ false
          → ltb (m (b + i)) (m (a + i)) ≡ false
          → Agree 0 (i + 1)
      extended p q j le lt = elim (Bool-cases (j == i)) [
        | inl z ↦ rw ((==_iff j i).0 z) (ground (arith, p, q))
        | inr z ↦ h j le (omega (arith, lt, not-==→ne j i z))
      ]

  -- `memcmp` returns 0 for regions that agree, and otherwise -1 or 1, as the first byte of the
  -- left region that differs is the lower or the higher one.
  pub memcmp-Compared : (num : ℕ) → Compared num (memcmp m a b num)
  unfolding memcmp
  memcmp-Compared num =
      compare_from-Compared num 0 num (omega arith) (λ j le lt. absurd (omega arith))

-- A string of `n` bytes, none of them 0, before the byte 0 that ends it.
pub record IsString (m : Memory) (str n : ℕ) : Type 0 where
  pub bytes : (j : ℕ) → j < n → m (str + j) ≢ 0
  pub end : m (str + n) ≡ 0

strlen_from-IsString :
    (fuel : ℕ) (m : Memory) (str n i : ℕ)
    → IsString m str n
    → i ≤ n
    → n < i + fuel
    → n < 2 ^ 31
    → strlen_from fuel m str i ≡ some n
unfolding strlen_from
strlen_from-IsString zero m str n i s le lt fits = absurd (omega arith)
strlen_from-IsString (suc fuel) m str n i s le lt fits = elim (Bool-cases (i == n)) [
  | inl e ↦ let same : i ≡ n = (==_iff i n).0 e in rw (same, (==_iff (m (str + n)) 0).1 s.end) refl
  | inr e ↦
      let before : i < n = omega (arith, not-==→ne i n e) in
      rw
        (
          ne→not-== (m (str + i)) 0 (s.bytes i before),
          lt→ltb (i + 1) (2 ^ 31) (omega (arith, before, fits)),
        )
        (strlen_from-IsString fuel m str n (i + 1) s (omega arith) (omega arith) fits)
]

-- `strlen` returns the length of a string of less than 2^31 bytes; the fuel is more than the length.
pub strlen-IsString :
    (fuel : ℕ) (m : Memory) (str n : ℕ)
    → IsString m str n
    → n < fuel
    → n < 2 ^ 31
    → strlen fuel m str ≡ some n
unfolding strlen
strlen-IsString fuel m str n s lt fits =
    strlen_from-IsString fuel m str n 0 s (omega arith) (omega arith) fits
