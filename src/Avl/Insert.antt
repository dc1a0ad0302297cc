-- ===== src/Avl/Insert.antt =====
-- `avl_insert` against the addition of an entry to the list.
use quark_kernel.Base.{
  ℕ, ◌≡◌, refl, sym, ap, ◌∙◌, Bool, true, false, Option, List, [], ◌∷◌, ◌++◌, ltb, ltb→lt,
}
use quark_kernel.Base.Fault.{
  ◌>>=◌, faults, returns, IfReturns-bind, IfReturns-map, IfReturns-if_cases,
}
use quark_kernel.Avl.{Tree, leaf, node, avl_new, insert_balance, avl_insert}
use quark_kernel.Avl.Entries.{
  entries, IsOrdered, add, IsAscending-append, add-append_lt, add-append_ge,
}
use quark_kernel.Avl.Rebalance.{Keeps, insert_balance-Keeps}

module _ {ℓ} {V : Type ℓ} where
  new-Keeps :
      (allocated : Bool) (key : ℕ) (value : V)
      → Keeps ((key, value) ∷ []) (avl_new allocated key value)
  unfolding avl_new
  new-Keeps true key value = returns refl
  new-Keeps false key value = faults

  rebalanced :
      (key : ℕ) {m : Option (Tree V)} (f : Tree V → Tree V) {xs : List (ℕ × V)} (ys : List (ℕ × V))
      → Keeps xs m
      → ((t : Tree V) → entries t ≡ xs → entries (f t) ≡ ys)
      → Keeps ys (m >>= λ t. insert_balance key (f t))
  rebalanced key f ys h k =
      IfReturns-bind h λ t e. IfReturns-map (insert_balance-Keeps key (f t)) λ t' e'. e' ∙ k t e

  -- On an ordered tree, whatever the recorded heights are: where `avl_insert` returns, the new
  -- tree has the entries of the old one, and the new entry in its place if the key is new.
  pub insert-add_partial :
      (allocated : Bool) (t : Tree V) (key : ℕ) (value : V)
      → IsOrdered t
      → Keeps (add key value (entries t)) (avl_insert allocated t key value)
  unfolding avl_insert
  insert-add_partial allocated leaf key value o = new-Keeps allocated key value
  insert-add_partial allocated (node h k v l r) key value o =
      let (ol, below, above, or) = IsAscending-append (entries l) k v (entries r) o in
      let right = add-append_ge key k v (entries r) value (entries l) below in
      IfReturns-if_cases (ltb key k)
        (λ p.
          rebalanced key (λ l'. node h k v l' r) _ (insert-add_partial allocated l key value ol)
            λ t e.
              ap (λ xs. xs ++ (k, v) ∷ entries r) e
              ∙ sym (add-append_lt key k v (entries r) value (entries l) (ltb→lt key k p)))
        (λ p.
          IfReturns-if_cases (ltb k key)
            (λ q.
              rebalanced key (λ r'. node h k v l r') _ (insert-add_partial allocated r key value or)
                λ t e. rw (right p, p, q) (ap (λ xs. entries l ++ (k, v) ∷ xs) e))
            (λ q. returns (rw (right p, p, q))))
