-- ===== src/Strings/Copy.antt =====
-- What `memcpy`, `memmove` and `memset` write.
use quark_kernel.Base.{
  ℕ, zero, suc, ◌+◌, ◌-◌, ◌%◌, ◌^◌, ◌≤◌, ◌<◌, ◌≡◌, ◌≢◌, ◌⊎◌, inl, inr, Bool-cases, ◌||◌, refl, ◌∙◌,
  ◌&&◌, ==_iff, not-==→ne, ne→not-==, lt→ltb, false, ltb, leb, ◌==◌, arith, if◌then◌else◌,
}
use quark_kernel.Strings.{Memory, poke, copy_up, memcpy, copy_down, memmove, fill_from, memset}

-- The `num` bytes at `dest` are those that were at `src`, from the index `low` on, and all other
-- bytes are as before.
pub record Copied (m m' : Memory) (dest src low num : ℕ) : Type 0 where
  pub inside : (j : ℕ) → low ≤ j → j < num → m' (dest + j) ≡ m (src + j)
  pub outside : (p : ℕ) → (p < dest + low) ⊎ (dest + num ≤ p) → m' p ≡ m p

-- The destination lies below the source, or behind it.
abbrev pub IsClear : ℕ → ℕ → ℕ → Type 0
IsClear dest src num = (dest ≤ src) ⊎ (src + num ≤ dest)

poke-same : (m : Memory) (p v : ℕ) → poke m p v p ≡ v
poke-same m p v = ground arith

pub poke-other : (m : Memory) (p v q : ℕ) → q ≢ p → poke m p v q ≡ m q
poke-other m p v q ne = ground (arith, ne)

pub copy_up-outside :
    (n : ℕ) (m : Memory) (dest src i p : ℕ)
    → (p < dest + i) ⊎ (dest + i + n ≤ p)
    → copy_up n m dest src i p ≡ m p
unfolding copy_up
copy_up-outside zero m dest src i p h = refl
copy_up-outside (suc n) m dest src i p h =
    copy_up-outside n (poke m (dest + i) (m (src + i))) dest src (i + 1) p
      (elim h [ inl q ↦ inl (omega (arith, q)) | inr q ↦ inr (omega (arith, q)) ])
    ∙ poke-other m (dest + i) (m (src + i)) p
        (elim h [ inl q ↦ (λ e. omega (arith, q, e)) | inr q ↦ (λ e. omega (arith, q, e)) ])

-- A byte still to be read is not the one that a round writes.
pub apart : (dest src num i j : ℕ) → IsClear dest src num → i < j → j < num → src + j ≢ dest + i
apart dest src num i j (inl c) lt k e = omega (arith, c, lt, e)
apart dest src num i j (inr c) lt k e = omega (arith, c, lt, k, e)

pub copy_up-inside :
    (n : ℕ) (m : Memory) (dest src num i j : ℕ)
    → IsClear dest src num
    → i + n ≤ num
    → i ≤ j
    → j < i + n
    → copy_up n m dest src i (dest + j) ≡ m (src + j)
unfolding copy_up
copy_up-inside zero m dest src num i j c b le lt = absurd (omega arith)
copy_up-inside (suc n) m dest src num i j c b le lt = elim (Bool-cases (i == j)) [
  | inl e ↦
      let same : i ≡ j = (==_iff i j).0 e in
      copy_up-outside n (poke m (dest + i) (m (src + i))) dest src (i + 1) (dest + j)
        (inl (omega (arith, same)))
      ∙ rw same (poke-same m (dest + j) (m (src + j)))
  | inr e ↦
      let later : i < j = omega (arith, not-==→ne i j e) in
      copy_up-inside n (poke m (dest + i) (m (src + i))) dest src num (i + 1) j c (omega arith)
        (omega arith) (omega arith)
      ∙ poke-other m (dest + i) (m (src + i)) (src + j)
          (apart dest src num i j c later (omega arith))
]

memcpy-copy_up : (m : Memory) (dest src num : ℕ) → memcpy m dest src num ≡ copy_up num m dest src 0
unfolding memcpy copy_up
memcpy-copy_up m dest src zero = refl
memcpy-copy_up m dest src (suc n) = rw (lt→ltb 0 (suc n) (omega arith)) refl

-- On regions where the destination does not start inside the source, `memcpy` copies all bytes,
-- and changes no others.
pub memcpy-Copied :
    (m : Memory) (dest src num : ℕ)
    → IsClear dest src num
    → Copied m (memcpy m dest src num) dest src 0 num
memcpy-Copied m dest src num c = record {
  inside = λ j le lt.
      rw (memcpy-copy_up m dest src num)
        (copy_up-inside num m dest src num 0 j c (omega arith) le (omega (arith, lt)));
  outside = λ p h. rw (memcpy-copy_up m dest src num) (
      copy_up-outside num m dest src 0 p
        (elim h [ inl q ↦ inl q | inr q ↦ inr (omega (arith, q)) ]));
}

pub copy_down-outside :
    (i : ℕ) (m : Memory) (dest src p : ℕ)
    → (p ≤ dest) ⊎ (dest + i < p)
    → copy_down i m dest src p ≡ m p
unfolding copy_down
copy_down-outside zero m dest src p h = refl
copy_down-outside (suc i) m dest src p h =
    copy_down-outside i (poke m (dest + suc i) (m (src + suc i))) dest src p
      (elim h [ inl q ↦ inl q | inr q ↦ inr (omega (arith, q)) ])
    ∙ poke-other m (dest + suc i) (m (src + suc i)) p
        (elim h [ inl q ↦ (λ e. omega (arith, q, e)) | inr q ↦ (λ e. omega (arith, q, e)) ])

pub copy_down-inside :
    (i : ℕ) (m : Memory) (dest src j : ℕ)
    → src ≤ dest
    → 0 < j
    → j ≤ i
    → copy_down i m dest src (dest + j) ≡ m (src + j)
unfolding copy_down
copy_down-inside zero m dest src j c pos le = absurd (omega arith)
copy_down-inside (suc i) m dest src j c pos le = elim (Bool-cases (j == suc i)) [
  | inl e ↦
      let same : j ≡ suc i = (==_iff j (suc i)).0 e in
      copy_down-outside i (poke m (dest + suc i) (m (src + suc i))) dest src (dest + j)
        (inr (omega (arith, same)))
      ∙ rw same (poke-same m (dest + suc i) (m (src + suc i)))
  | inr e ↦
      let earlier : j ≤ i = omega (arith, not-==→ne j (suc i) e) in
      copy_down-inside i (poke m (dest + suc i) (m (src + suc i))) dest src j c pos earlier
      ∙ poke-other m (dest + suc i) (m (src + suc i)) (src + j) (λ z. omega (arith, z, earlier))
]

fits_mod : (a : ℕ) → a < 2 ^ 32 → a % 2 ^ 32 ≡ a
fits_mod a h = omega arith

at_source :
    (dest src num : ℕ)
    → IsClear dest src num
    → 0 < num
    → (ltb dest src || leb (src + num) dest) ≡ false
    → dest ≡ src
at_source dest src num (inl c) pos e = ground arith
at_source dest src num (inr c) pos e = absurd (ground arith)

inside_source :
    (dest src num : ℕ)
    → src < dest
    → dest < src + num
    → (ltb dest src || leb (src + num) dest) ≡ false
inside_source dest src num c lt = ground arith

-- `memmove` copies all bytes, and changes no others, unless the destination starts inside the
-- source, behind its first byte. The source ends below the end of the addresses.
pub memmove-Copied :
    (m : Memory) (dest src num : ℕ)
    → IsClear dest src num
    → src + num < 2 ^ 32
    → Copied m (memmove m dest src num) dest src 0 num
unfolding memmove
memmove-Copied m dest src zero c fits = record {
  inside = λ j le lt. absurd (omega arith);
  outside = λ p h. refl;
}
memmove-Copied m dest src (suc n) c fits =
    rw (lt→ltb 0 (suc n) (omega arith), fits_mod (src + suc n) fits)
      (elim (Bool-cases (ltb dest src || leb (src + suc n) dest)) [
        | inl e ↦ rw e (memcpy-Copied m dest src (suc n) c)
        | inr e ↦
            let same : dest ≡ src = at_source dest src (suc n) c (omega arith) e in
            rw (e, (==_iff dest src).1 same)
              (record { inside = λ j le lt. rw same refl; outside = λ p h. refl })
      ])

-- Where the destination starts inside the source, behind its first byte, `memmove` copies all
-- bytes but the first one, which keeps its value, and changes no others. The source ends below
-- the end of the addresses.
pub memmove-overlap :
    (m : Memory) (dest src num : ℕ)
    → src < dest
    → dest < src + num
    → src + num < 2 ^ 32
    → Copied m (memmove m dest src num) dest src 1 num
unfolding memmove
memmove-overlap m dest src zero c lt fits = absurd (omega arith)
memmove-overlap m dest src (suc n) c lt fits =
    rw
      (
        lt→ltb 0 (suc n) (omega arith),
        fits_mod (src + suc n) fits,
        inside_source dest src (suc n) c lt,
        ne→not-== dest src (λ z. omega (arith, z, c)),
      )
      (record {
        inside =
            λ j le lt'. copy_down-inside (suc n - 1) m dest src j (omega arith) le (omega arith);
        outside = λ p h.
            copy_down-outside (suc n - 1) m dest src p
              (elim h [ inl q ↦ inl (omega (arith, q)) | inr q ↦ inr (omega (arith, q)) ]);
      })

fill_from-at :
    (n : ℕ) (m : Memory) (dest v i p : ℕ)
    → fill_from n m dest v i p ≡ (if leb (dest + i) p && ltb p (dest + i + n) then v else m p)
unfolding fill_from
fill_from-at zero m dest v i p = ground arith
fill_from-at (suc n) m dest v i p =
    fill_from-at n (poke m (dest + i) v) dest v (i + 1) p ∙ ground arith

-- `memset` gives each of the `num` bytes the value, cut to a byte, and changes no others.
pub memset-fills :
    (m : Memory) (dest value num p : ℕ)
    → memset m dest value num p ≡ (if leb dest p && ltb p (dest + num) then value % 2 ^ 8 else m p)
unfolding memset
memset-fills m dest value num p = fill_from-at num m dest (value % 2 ^ 8) 0 p ∙ ground arith
