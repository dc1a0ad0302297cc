-- ===== src/Strings/StringCopy.antt =====
-- What `strcpy` writes.
use quark_kernel.Base.{
  ℕ, zero, suc, ◌+◌, ◌^◌, ◌≤◌, ◌<◌, ◌≡◌, ◌≢◌, ◌⊎◌, inl, inr, ◌||◌, refl, ◌∙◌, sym, ==_iff,
  ne→not-==, ltb, leb, ◌==◌, true, false, some, arith,
}
use quark_kernel.Base.Fault.{Ensures, ensures}
use quark_kernel.Strings.{Memory, poke, copy_up, strcpy_from, strcpy}
use quark_kernel.Strings.Copy.{
  Copied, IsClear, apart, poke-other, copy_up-inside, copy_up-outside, copy_down-inside,
  copy_down-outside,
}
use quark_kernel.Strings.Scan.{IsString, strlen-IsString}

poke-read : (m : Memory) (p q : ℕ) → poke m p (m q) q ≡ m q
poke-read m p q = ground arith

-- The forward loop copies the bytes up to the one that ends the string, and ends there.
strcpy_from-copy_up :
    (fuel r : ℕ) (m : Memory) (dest src i n : ℕ)
    → r < fuel
    → i + r ≡ n
    → IsClear dest src (n + 1)
    → ((j : ℕ) → i ≤ j → j < n → m (src + j) ≢ 0)
    → m (src + n) ≡ 0
    → strcpy_from fuel m dest src i ≡ some (copy_up (suc r) m dest src i)
unfolding strcpy_from copy_up
strcpy_from-copy_up zero r m dest src i n f e c bytes end = absurd (omega arith)
strcpy_from-copy_up (suc fuel) zero m dest src i n f e c bytes end =
    let here : i ≡ n = omega arith in
    let ends : (m (src + i) == 0) ≡ true = (==_iff (m (src + i)) 0).1 (rw here end) in
    rw (poke-read m (dest + i) (src + i), ends) refl
strcpy_from-copy_up (suc fuel) (suc r) m dest src i n f e c bytes end =
    let m' : Memory = poke m (dest + i) (m (src + i)) in
    let goes : (m (src + i) == 0) ≡ false =
      ne→not-== (m (src + i)) 0 (bytes i (omega arith) (omega arith)) in
    let later : (j : ℕ) → i < j → j < n + 1 → m' (src + j) ≡ m (src + j) = λ j lt le.
      poke-other m (dest + i) (m (src + i)) (src + j) (apart dest src (n + 1) i j c lt le) in
    rw (poke-read m (dest + i) (src + i), goes)
      (strcpy_from-copy_up fuel r m' dest src (i + 1) n (omega arith) (omega arith) c
        (λ j le lt z.
          bytes j (omega (arith, le)) lt
            (sym (later j (omega (arith, le)) (omega (arith, lt))) ∙ z))
        (later n (omega arith) (omega arith) ∙ end))

clear_test :
    (dest src n : ℕ) → (dest ≤ src) ⊎ (src + n < dest) → (leb dest src || ltb (src + n) dest) ≡ true
clear_test dest src n (inl c) = ground arith
clear_test dest src n (inr c) = ground arith

overlap_test :
    (dest src n : ℕ) → src < dest → dest ≤ src + n → (leb dest src || ltb (src + n) dest) ≡ false
overlap_test dest src n lt le = ground arith

-- `strcpy` copies a string with the byte that ends it, and changes no other bytes, unless the
-- destination starts inside the string, behind its first byte. The string has less than 2^31 bytes, and
-- the fuel is more than the length.
pub strcpy-Copied :
    (fuel : ℕ) (m : Memory) (dest src n : ℕ)
    → IsString m src n
    → n < fuel
    → n < 2 ^ 31
    → (dest ≤ src) ⊎ (src + n < dest)
    → Ensures (λ m'. Copied m m' dest src 0 (n + 1)) (strcpy fuel m dest src)
unfolding strcpy
strcpy-Copied fuel m dest src n s f fits c =
    rw (strlen-IsString fuel m src n s f fits, clear_test dest src n c)
      (rw
        (strcpy_from-copy_up fuel n m dest src 0 n f (omega arith) clear (λ j le lt. s.bytes j lt)
          s.end)
        (ensures (record {
          inside = λ j le lt.
              copy_up-inside (suc n) m dest src (n + 1) 0 j clear (omega arith) le
                (omega (arith, lt));
          outside = λ p h.
              copy_up-outside (suc n) m dest src 0 p
                (elim h [ inl q ↦ inl q | inr q ↦ inr (omega (arith, q)) ]);
        })))
  where
    clear : IsClear dest src (n + 1)
    clear = elim c [ inl q ↦ inl q | inr q ↦ inr (omega (arith, q)) ]

-- Where the destination starts inside the string, behind its first byte, `strcpy` copies all of
-- it but the first byte, which keeps its value, and changes no other bytes. The string has
-- less than 2^31 bytes, and the fuel is more than the length.
pub strcpy-overlap :
    (fuel : ℕ) (m : Memory) (dest src n : ℕ)
    → IsString m src n
    → n < fuel
    → n < 2 ^ 31
    → src < dest
    → dest ≤ src + n
    → Ensures (λ m'. Copied m m' dest src 1 (n + 1)) (strcpy fuel m dest src)
unfolding strcpy
strcpy-overlap fuel m dest src n s f fits lt le =
    rw (strlen-IsString fuel m src n s f fits, overlap_test dest src n lt le)
      (ensures (record {
        inside = λ j p q. copy_down-inside n m dest src j (omega arith) p (omega (arith, q));
        outside = λ p h.
            copy_down-outside n m dest src p
              (elim h [ inl q ↦ inl (omega (arith, q)) | inr q ↦ inr (omega (arith, q)) ]);
      }))
