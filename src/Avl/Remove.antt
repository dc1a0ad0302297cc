-- ===== src/Avl/Remove.antt =====
-- `avl_remove` against the removal of an entry from the list.
use quark_kernel.Base.{
  ℕ, ◌<◌, ◌≡◌, refl, sym, ap, ◌∙◌, inl, inr, Option, List, [], ◌∷◌, ◌++◌, ltb, ltb→lt, Bool-cases,
  All, append-nil, ltb_irrefl,
}
use quark_kernel.Base.Fault.{
  ◌>>=◌, Ensures, ensures, Ensures-bind, Ensures-if, Ensures-map, Ensures-Runs,
}
use quark_kernel.Avl.{Tree, leaf, node, remove_balance, leftmost, avl_unlink, avl_remove}
use quark_kernel.Avl.Entries.{
  entries, IsOrdered, IsAscending, erase, IsAscending-append, erase-append_lt, erase-append_ge,
}
use quark_kernel.Avl.Safety.{remove_balance-Runs}
use quark_kernel.Avl.Rebalance.{remove_balance-Keeps}

module _ {ℓ} {V : Type ℓ} where
  remove_balance_total : (t : Tree V) → Ensures (λ t'. entries t' ≡ entries t) (remove_balance t)
  remove_balance_total t = Ensures-Runs (remove_balance-Keeps t) (remove_balance-Runs t)

  -- A result of a step, then rebalanced.
  balanced :
      {m : Option (Tree V)} (f : Tree V → Tree V) {xs : List (ℕ × V)} (ys : List (ℕ × V))
      → Ensures (λ t. entries t ≡ xs) m
      → ((t : Tree V) → entries t ≡ xs → entries (f t) ≡ ys)
      → Ensures (λ t. entries t ≡ ys) (m >>= λ t. remove_balance (f t))
  balanced f ys h k =
      Ensures-bind h λ t e. Ensures-map (remove_balance_total (f t)) λ t' e'. e' ∙ k t e

  -- The leftmost entry is the first one.
  leftmost-entries :
      (h k : ℕ) (v : V) (l r : Tree V)
      → (ys : List (ℕ × V)) × (entries (node h k v l r) ≡ leftmost k v l ∷ ys)
  unfolding leftmost
  leftmost-entries h k v leaf r = (entries r, refl)
  leftmost-entries h k v (node lh lk lv ll lr) r =
      let (ys, e) = leftmost-entries lh lk lv ll lr in
      (ys ++ (k, v) ∷ entries r, ap (λ xs. xs ++ (k, v) ∷ entries r) e)

  -- Erasing keeps the order, and the bounds of the keys.
  All-erase {κ} :
      (P : ℕ × V → Type κ) (key : ℕ) (xs : List (ℕ × V)) → All P xs → All P (erase key xs)
  All-erase P key [] h = tt
  All-erase P key (x ∷ xs) h = elim (Bool-cases (ltb key x.0)) [
    | inl p ↦ rw p h
    | inr p ↦ rw p (elim (Bool-cases (ltb x.0 key)) [
      | inl q ↦ rw q (h.0, All-erase P key xs h.1)
      | inr q ↦ rw q h.1
    ])
  ]

  pub erase-IsAscending :
      (key : ℕ) (xs : List (ℕ × V)) → IsAscending xs → IsAscending (erase key xs)
  erase-IsAscending key [] h = tt
  erase-IsAscending key (x ∷ xs) h = elim (Bool-cases (ltb key x.0)) [
    | inl p ↦ rw p h
    | inr p ↦ rw p (elim (Bool-cases (ltb x.0 key)) [
      | inl q ↦ rw q (All-erase (λ e. x.0 < e.0) key xs h.0, erase-IsAscending key xs h.1)
      | inr q ↦ rw q h.1
    ])
  ]

  erase_head : (key : ℕ) (w : V) (ys : List (ℕ × V)) → erase key ((key, w) ∷ ys) ≡ ys
  erase_head key w ys = rw ltb_irrefl

  -- The entry found at the root goes, and its neighbours stay.
  unlink-entries :
      (h k : ℕ) (v : V) (l r : Tree V) (remove_right : ℕ → Option (Tree V))
      → ((key : ℕ) → Ensures (λ t. entries t ≡ erase key (entries r)) (remove_right key))
      → Ensures (λ t. entries t ≡ entries l ++ entries r) (avl_unlink h k v l r remove_right)
  unfolding avl_unlink
  unlink-entries h k v leaf r remove_right ih = remove_balance_total r
  unlink-entries h k v (node lh lk lv ll lr) leaf remove_right ih =
      rw append-nil (remove_balance_total (node lh lk lv ll lr))
  unlink-entries h k v (node lh lk lv ll lr) (node rh rk rv rl rr) remove_right ih =
      let l = node lh lk lv ll lr in
      let (ys, e) = leftmost-entries rh rk rv rl rr in
      let (min_key, min_value) = leftmost rk rv rl in
      balanced (λ r'. node h min_key min_value l r') _ (ih min_key)
        λ t e'.
          ap (λ xs. entries l ++ (min_key, min_value) ∷ xs)
            (e' ∙ ap (erase min_key) e ∙ erase_head min_key min_value ys)
          ∙ ap (λ xs. entries l ++ xs) (sym e)

  -- On an ordered tree `avl_remove` does not fault, and the new tree has exactly the entries of
  -- the old one but the one with the key, in the same order.
  pub remove-erase :
      (t : Tree V) (key : ℕ)
      → IsOrdered t
      → Ensures (λ t'. entries t' ≡ erase key (entries t)) (avl_remove t key)
  unfolding avl_remove
  remove-erase leaf key o = ensures refl
  remove-erase (node h k v l r) key o =
      let (ol, below, above, or) = IsAscending-append (entries l) k v (entries r) o in
      let right = erase-append_ge key k v (entries r) (entries l) below in
      Ensures-if (ltb key k)
        (λ p.
          balanced (λ l'. node h k v l' r) _ (remove-erase l key ol)
            λ t e.
              ap (λ xs. xs ++ (k, v) ∷ entries r) e
              ∙ sym (erase-append_lt key k v (entries r) (entries l) (ltb→lt key k p)))
        (λ p.
          Ensures-if (ltb k key)
            (λ q.
              balanced (λ r'. node h k v l r') _ (remove-erase r key or)
                λ t e. rw (right p, p, q) (ap (λ xs. entries l ++ (k, v) ∷ xs) e))
            (λ q. rw (right p, p, q) (unlink-entries h k v l r _ λ key'. remove-erase r key' or)))
