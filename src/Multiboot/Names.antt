-- ===== src/Multiboot/Names.antt =====
-- Strings and words in memories that agree on a part.
use quark_kernel.Base.{
  ℕ, zero, suc, ◌+◌, ◌^◌, ◌≤◌, ◌<◌, ◌≡◌, ◌≢◌, ◌⊎◌, inl, inr, ◌∙◌, sym, ap, subst, List, [], ◌∷◌,
  length, arith,
}
use quark_kernel.Base.Fault.{Ensures, Ensures-map}
use quark_kernel.Strings.{Memory, strcpy}
use quark_kernel.Strings.Scan.{IsString}
use quark_kernel.Strings.StringCopy.{strcpy-Copied}
use quark_kernel.Context.{get_word, put_word}
use quark_kernel.Context.Words.{put_word-above, put_word-below, get_word-within}
use quark_kernel.Multiboot.Tags.{Spells}

-- The memory is changed only in the `n` bytes at `p`.
abbrev pub OnlyAt : Memory → Memory → (p n : ℕ) → Type 0
OnlyAt m m' p n = (q : ℕ) → (q < p) ⊎ (p + n ≤ q) → m' q ≡ m q

-- The `n` bytes at `p` are as before.
abbrev pub SameAt : Memory → Memory → (p n : ℕ) → Type 0
SameAt m m' p n = (q : ℕ) → p ≤ q → q < p + n → m' q ≡ m q

pub word-same : (m m' : Memory) (p : ℕ) → SameAt m m' p 4 → get_word m' p ≡ get_word m p
word-same m m' p same = get_word-within m m' p same

pub Spells-same :
    (m m' : Memory) (p : ℕ) (cs : List ℕ)
    → SameAt m m' p (length cs + 1)
    → Spells m p cs
    → Spells m' p cs
Spells-same m m' p [] same s = same p (omega arith) (omega arith) ∙ s
Spells-same m m' p (c ∷ cs) same s = (
  same p (omega arith) (omega arith) ∙ s.0,
  s.1,
  Spells-same m m' (p + 1) cs (λ q le lt. same q (omega (arith, le)) (omega (arith, lt))) s.2,
)

-- The bytes of a string from its first one and the others.
not-zero :
    (m : Memory) (p c : ℕ) (cs : List ℕ)
    → m p ≡ c
    → c ≢ 0
    → ((j : ℕ) → j < length cs → m (p + 1 + j) ≢ 0)
    → (j : ℕ) → j < length (c ∷ cs)
    → m (p + j) ≢ 0
not-zero m p c cs e ne rest zero lt z = ne (sym e ∙ subst (λ q. m q ≡ 0) (omega arith) z)
not-zero m p c cs e ne rest (suc j) lt z =
    rest j (omega (arith, lt)) (subst (λ q. m q ≡ 0) (omega arith) z)

pub Spells-IsString : (m : Memory) (p : ℕ) (cs : List ℕ) → Spells m p cs → IsString m p (length cs)
Spells-IsString m p [] s = record {
  bytes = λ j lt. absurd (omega arith);
  end = subst (λ q. m q ≡ 0) (omega arith) s;
}
Spells-IsString m p (c ∷ cs) s =
    let rest = Spells-IsString m (p + 1) cs s.2 in
    record {
      bytes = λ j lt. not-zero m p c cs s.0 s.1 rest.bytes j lt;
      end = subst (λ q. m q ≡ 0) (omega arith) rest.end;
    }

-- A copy spells the same.
Spells-copy :
    (m m' : Memory) (dest src : ℕ) (cs : List ℕ)
    → ((j : ℕ) → j < length cs + 1 → m' (dest + j) ≡ m (src + j))
    → Spells m src cs
    → Spells m' dest cs
Spells-copy m m' dest src [] copied s =
    subst (λ q. m' q ≡ 0) (omega arith)
      (copied 0 (omega arith) ∙ subst (λ q. m q ≡ 0) (omega arith) s)
Spells-copy m m' dest src (c ∷ cs) copied s = (
  subst (λ q. m' q ≡ c) (omega arith)
      (copied 0 (omega arith) ∙ subst (λ q. m q ≡ c) (omega arith) s.0),
  s.1,
  Spells-copy m m' (dest + 1) (src + 1) cs
      (λ j lt.
        subst (λ q. m' q ≡ m (src + 1 + j)) (omega arith)
          (copied (suc j) (omega (arith, lt)) ∙ ap m (omega arith)))
      s.2,
)

-- `strcpy` of a string to a place behind it.
pub strcpy-Spells :
    (fuel : ℕ) (m : Memory) (dest src : ℕ) (cs : List ℕ)
    → Spells m src cs
    → length cs < fuel
    → length cs < 2 ^ 31
    → src + length cs < dest
    → Ensures (λ m'. OnlyAt m m' dest (length cs + 1) × Spells m' dest cs) (strcpy fuel m dest src)
strcpy-Spells fuel m dest src cs s f fits lt =
    Ensures-map
      (strcpy-Copied fuel m dest src (length cs) (Spells-IsString m src cs s) f fits (inr lt))
      λ m' c. (
        λ q h. c.outside q (elim h [ inl l ↦ inl (omega (arith, l)) | inr l ↦ inr l ]),
        Spells-copy m m' dest src cs (λ j l. c.inside j (omega arith) l) s,
      )

-- A word that is written changes its four bytes only.
pub put_word-OnlyAt : (m : Memory) (p v : ℕ) → OnlyAt m (put_word m p v) p 4
put_word-OnlyAt m p v q (inl lt) = put_word-below m p v q lt
put_word-OnlyAt m p v q (inr le) = put_word-above m p v q le
