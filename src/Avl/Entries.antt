-- ===== src/Avl/Entries.antt =====
-- The abstract view of a tree: its entries from left to right, an association list with keys in
-- ascending order, and the operations on such a list.
use quark_kernel.Base.{
  Bool-cases, inl, inr, ltb→lt, ℕ, ◌<◌, ◌≡◌, refl, false, Option, none, some, List, [], ◌∷◌, ◌++◌,
  arith, ltb, if◌then◌else◌, All, All-imp, All-append, All-append_inv,
}
use quark_kernel.Avl.{Tree, leaf, node}

module _ {ℓ} {V : Type ℓ} where
  abbrev pub entries : Tree V → List (ℕ × V)
  entries leaf = []
  entries (node h k v l r) = entries l ++ (k, v) ∷ entries r

  -- Every key lies below `b`, or above it.
  abbrev pub Below : ℕ → List (ℕ × V) → Type 0
  Below b xs = All (λ e. e.0 < b) xs

  abbrev pub Above : ℕ → List (ℕ × V) → Type 0
  Above b xs = All (λ e. b < e.0) xs

  abbrev pub IsAscending : List (ℕ × V) → Type 0
  IsAscending [] = Unit
  IsAscending (e ∷ xs) = Above e.0 xs × IsAscending xs

  abbrev pub IsOrdered : Tree V → Type 0
  IsOrdered t = IsAscending (entries t)

  -- The value at a key.
  abbrev pub find : ℕ → List (ℕ × V) → Option V
  find key [] = none
  find key (e ∷ xs) = if ltb key e.0 then none else if ltb e.0 key then find key xs else some e.1

  -- Adds an entry in its place; an entry that is there stays.
  abbrev pub add : ℕ → V → List (ℕ × V) → List (ℕ × V)
  add key value [] = (key, value) ∷ []
  add key value (e ∷ xs) =
      if ltb key e.0
      then (key, value) ∷ e ∷ xs
      else if ltb e.0 key
      then e ∷ add key value xs
      else e ∷ xs

  abbrev pub erase : ℕ → List (ℕ × V) → List (ℕ × V)
  erase key [] = []
  erase key (e ∷ xs) = if ltb key e.0 then e ∷ xs else if ltb e.0 key then e ∷ erase key xs else xs

  pub IsAscending-append :
      (xs : List (ℕ × V)) (k : ℕ) (v : V) (ys : List (ℕ × V))
      → IsAscending (xs ++ (k, v) ∷ ys)
      → IsAscending xs × Below k xs × Above k ys × IsAscending ys
  IsAscending-append [] k v ys h = (tt, tt, h.0, h.1)
  IsAscending-append (x ∷ xs) k v ys h =
      let rest = IsAscending-append xs k v ys h.1 in
      let parts = All-append_inv (λ e. x.0 < e.0) xs ((k, v) ∷ ys) h.0 in
      ((parts.0, rest.0), (parts.1.0, rest.1), rest.2, rest.3)

  pub append-IsAscending :
      (xs : List (ℕ × V)) (k : ℕ) (v : V) (ys : List (ℕ × V))
      → IsAscending xs
      → Below k xs
      → Above k ys
      → IsAscending ys
      → IsAscending (xs ++ (k, v) ∷ ys)
  append-IsAscending [] k v ys h below above h' = (above, h')
  append-IsAscending (x ∷ xs) k v ys h below above h' = (
    All-append (λ e. x.0 < e.0) xs ((k, v) ∷ ys) h.0
        (below.0, All-imp (λ e p. omega arith) ys above),
    append-IsAscending xs k v ys h.1 below.1 above h',
  )

  -- A search in a joined list goes to the side that the middle key shows.
  module _ (key k : ℕ) (v : V) (ys : List (ℕ × V)) where
    pub find-append_lt : (xs : List (ℕ × V)) → key < k → find key (xs ++ (k, v) ∷ ys) ≡ find key xs
    find-append_lt [] h = ground arith
    find-append_lt (x ∷ xs) h = ground (arith, find-append_lt xs)

    pub find-append_ge :
        (xs : List (ℕ × V))
        → Below k xs
        → (ltb key k ≡ false)
        → find key (xs ++ (k, v) ∷ ys) ≡ find key ((k, v) ∷ ys)
    find-append_ge [] b h = refl
    find-append_ge (x ∷ xs) b h = ground (arith, find-append_ge xs b.1)

    pub erase-append_lt :
        (xs : List (ℕ × V)) → key < k → erase key (xs ++ (k, v) ∷ ys) ≡ erase key xs ++ (k, v) ∷ ys
    erase-append_lt [] h = ground arith
    erase-append_lt (x ∷ xs) h = ground (arith, erase-append_lt xs)

    pub erase-append_ge :
        (xs : List (ℕ × V))
        → Below k xs
        → (ltb key k ≡ false)
        → erase key (xs ++ (k, v) ∷ ys) ≡ xs ++ erase key ((k, v) ∷ ys)
    erase-append_ge [] b h = refl
    erase-append_ge (x ∷ xs) b h = ground (arith, erase-append_ge xs b.1)

    pub add-append_lt :
        (w : V) (xs : List (ℕ × V))
        → key < k
        → add key w (xs ++ (k, v) ∷ ys) ≡ add key w xs ++ (k, v) ∷ ys
    add-append_lt w [] h = ground arith
    add-append_lt w (x ∷ xs) h = ground (arith, add-append_lt w xs)

    pub add-append_ge :
        (w : V) (xs : List (ℕ × V))
        → Below k xs
        → (ltb key k ≡ false)
        → add key w (xs ++ (k, v) ∷ ys) ≡ xs ++ add key w ((k, v) ∷ ys)
    add-append_ge w [] b h = refl
    add-append_ge w (x ∷ xs) b h = ground (arith, add-append_ge w xs b.1)

  -- Adding keeps the bounds and the order of the keys.
  All-add {κ} :
      (P : ℕ × V → Type κ) (key : ℕ) (w : V) (xs : List (ℕ × V))
      → P (key, w)
      → All P xs
      → All P (add key w xs)
  All-add P key w [] p h = (p, tt)
  All-add P key w (x ∷ xs) p h = elim (Bool-cases (ltb key x.0)) [
    | inl e ↦ rw e (p, (h.0, h.1))
    | inr e ↦ rw e (elim (Bool-cases (ltb x.0 key)) [
      | inl e' ↦ rw e' (h.0, All-add P key w xs p h.1)
      | inr e' ↦ rw e' h
    ])
  ]

  pub add-IsAscending :
      (key : ℕ) (w : V) (xs : List (ℕ × V)) → IsAscending xs → IsAscending (add key w xs)
  add-IsAscending key w [] h = (tt, tt)
  add-IsAscending key w (x ∷ xs) h = elim (Bool-cases (ltb key x.0)) [
    | inl e ↦
        let below = ltb→lt key x.0 e in
        rw e ((below, All-imp (λ y p. omega arith) xs h.0), (h.0, h.1))
    | inr e ↦ rw e (elim (Bool-cases (ltb x.0 key)) [
      | inl e' ↦
          rw e' (
            All-add (λ y. x.0 < y.0) key w xs (ltb→lt x.0 key e') h.0,
            add-IsAscending key w xs h.1,
          )
      | inr e' ↦ rw e' h
    ])
  ]
