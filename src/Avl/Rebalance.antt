-- ===== src/Avl/Rebalance.antt =====
-- Rotations and rebalancing, and the entries from left to right.
use quark_kernel.Base.{ℕ, ◌≡◌, refl, ap, Option, List, ◌∷◌, ◌++◌, append_assoc}
use quark_kernel.Base.Fault.{
  ◌>>=◌, IfReturns, faults, returns, IfReturns-bind, IfReturns-if, IfReturns-test,
}
use quark_kernel.Avl.{
  Tree, leaf, node, avl_update_height, avl_right_rotate, avl_left_rotate, on_left, on_right,
  insert_balance, remove_balance,
}
use quark_kernel.Avl.Entries.{entries}

module _ {ℓ} {V : Type ℓ} where
  -- What the code returns, if it does not fault, has these entries.
  abbrev pub Keeps : List (ℕ × V) → Option (Tree V) → Type ℓ
  Keeps xs = IfReturns (λ t. entries t ≡ xs)

  right_rotate-Keeps : (t : Tree V) → Keeps (entries t) (avl_right_rotate t)
  unfolding avl_right_rotate
  right_rotate-Keeps leaf = faults
  right_rotate-Keeps (node h k v leaf r) = faults
  right_rotate-Keeps (node h k v (node xh xk xv xl z) r) = returns (simp append_assoc)

  left_rotate-Keeps : (t : Tree V) → Keeps (entries t) (avl_left_rotate t)
  unfolding avl_left_rotate
  left_rotate-Keeps leaf = faults
  left_rotate-Keeps (node h k v l leaf) = faults
  left_rotate-Keeps (node h k v l (node yh yk yv z yr)) = returns (simp append_assoc)

  module _ (f : Tree V → Option (Tree V)) (keeps : (t : Tree V) → Keeps (entries t) (f t)) where
    on_left-Keeps : (t : Tree V) → Keeps (entries t) (on_left f t)
    on_left-Keeps leaf = faults
    on_left-Keeps (node h k v l r) =
        IfReturns-bind (keeps l) λ l' e. returns (ap (λ xs. xs ++ (k, v) ∷ entries r) e)

    on_right-Keeps : (t : Tree V) → Keeps (entries t) (on_right f t)
    on_right-Keeps leaf = faults
    on_right-Keeps (node h k v l r) =
        IfReturns-bind (keeps r) λ r' e. returns (ap (λ xs. entries l ++ (k, v) ∷ xs) e)

    -- Two steps that keep the entries, one after the other.
    then-Keeps : (xs : List (ℕ × V)) (m : Option (Tree V)) → Keeps xs m → Keeps xs (m >>= f)
    then-Keeps xs m h = IfReturns-bind h λ t e. rw (← e) (keeps t)

  double_right-Keeps :
      (t : Tree V) → Keeps (entries t) (on_left avl_left_rotate t >>= avl_right_rotate)
  double_right-Keeps t =
      then-Keeps avl_right_rotate right_rotate-Keeps _ _ (on_left-Keeps _ left_rotate-Keeps t)

  double_left-Keeps :
      (t : Tree V) → Keeps (entries t) (on_right avl_right_rotate t >>= avl_left_rotate)
  double_left-Keeps t =
      then-Keeps avl_left_rotate left_rotate-Keeps _ _ (on_right-Keeps _ right_rotate-Keeps t)

  pub remove_balance-Keeps : (t : Tree V) → Keeps (entries t) (remove_balance t)
  unfolding remove_balance
  remove_balance-Keeps leaf = returns refl
  remove_balance-Keeps (node h k v l r) =
      let t = avl_update_height (node h k v l r) in
      IfReturns-if _ (right_rotate-Keeps t) (
        IfReturns-if _ (double_right-Keeps t) (
          IfReturns-if _ (left_rotate-Keeps t)
            (IfReturns-if _ (double_left-Keeps t) (returns refl))))

  pub insert_balance-Keeps : (key : ℕ) (t : Tree V) → Keeps (entries t) (insert_balance key t)
  unfolding insert_balance
  insert_balance-Keeps key leaf = faults
  insert_balance-Keeps key (node h k v l r) =
      let t = avl_update_height (node h k v l r) in
      IfReturns-test _ (right_rotate-Keeps t) (
        IfReturns-test _ (left_rotate-Keeps t) (
          IfReturns-test _ (double_right-Keeps t)
            (IfReturns-test _ (double_left-Keeps t) (returns refl))))
