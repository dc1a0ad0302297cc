-- ===== src/Avl/Safety.antt =====
-- Where a rotation finds the nodes that it follows, it does not fault.
use quark_kernel.Base.{◌+◌, ltb, if◌then◌else◌, ℕ, ◌<◌, ◌≡◌, ◌&&◌, Bool, true, arith}
use quark_kernel.Base.Int.{pos, negsuc, sub_ℕ, ltb_ℤ, leb_ℤ}
use quark_kernel.Base.Fault.{◌>>=◌, Runs, ensures, Ensures-if}
use quark_kernel.Avl.{
  Tree, leaf, node, avl_height, avl_balance, avl_right_rotate, avl_left_rotate, on_left, on_right,
  remove_balance,
}

module _ {ℓ} {V : Type ℓ} (h k : ℕ) (v : V) where
  pub right_rotate-Runs :
      (l r : Tree V) → 0 < avl_height l → Runs (avl_right_rotate (node h k v l r))
  unfolding avl_right_rotate
  right_rotate-Runs leaf r p = absurd (omega arith)
  right_rotate-Runs (node lh lk lv ll lr) r p = ensures tt

  pub left_rotate-Runs : (l r : Tree V) → 0 < avl_height r → Runs (avl_left_rotate (node h k v l r))
  unfolding avl_left_rotate
  left_rotate-Runs l leaf p = absurd (omega arith)
  left_rotate-Runs l (node rh rk rv rl rr) p = ensures tt

  pub double_right-Runs :
      (l r : Tree V)
      → ltb_ℤ (avl_balance l) (pos 0) ≡ true
      → Runs (on_left avl_left_rotate (node h k v l r) >>= avl_right_rotate)
  unfolding avl_right_rotate avl_left_rotate
  double_right-Runs leaf r p = absurd (ground arith)
  double_right-Runs (node lh lk lv ll leaf) r p = absurd (ground arith)
  double_right-Runs (node lh lk lv ll (node xh xk xv xl xr)) r p = ensures tt

  pub double_left-Runs :
      (l r : Tree V)
      → ltb_ℤ (pos 0) (avl_balance r) ≡ true
      → Runs (on_right avl_right_rotate (node h k v l r) >>= avl_left_rotate)
  unfolding avl_right_rotate avl_left_rotate
  double_left-Runs l leaf p = absurd (ground arith)
  double_left-Runs l (node rh rk rv leaf rr) p = absurd (ground arith)
  double_left-Runs l (node rh rk rv (node xh xk xv xl xr) rr) p = ensures tt

-- What the tests on the balance say.
pub left_heavy : (a b : ℕ) (q : Bool) → (ltb_ℤ (pos 1) (sub_ℕ a b) && q) ≡ true → 0 < a
left_heavy a b q e = ground arith

pub right_heavy : (a b : ℕ) (q : Bool) → (ltb_ℤ (sub_ℕ a b) (negsuc 0) && q) ≡ true → 0 < b
right_heavy a b q e = ground arith

and_right : (p q : Bool) → (p && q) ≡ true → q ≡ true
and_right p q e = ground arith

-- A subtree that is more than one level higher than its sibling is a node, and so is the higher
-- of its subtrees: rebalancing after a removal reads no NULL.
pub remove_balance-Runs {ℓ} : {V : Type ℓ} (t : Tree V) → Runs (remove_balance t)
unfolding remove_balance
remove_balance-Runs leaf = ensures tt
remove_balance-Runs (node h k v l r) =
    let a = avl_height l in
    let b = avl_height r in
    let balance = sub_ℕ a b in
    let left = ltb_ℤ (pos 1) balance in
    let right = ltb_ℤ balance (negsuc 0) in
    let t = 1 + (if ltb b a then a else b) in
    let inner = avl_balance l in
    let outer = avl_balance r in
    Ensures-if (left && leb_ℤ (pos 0) inner) (λ e. right_rotate-Runs t k v l r (left_heavy a b _ e))
      (λ _.
        Ensures-if (left && ltb_ℤ inner (pos 0))
          (λ e. double_right-Runs t k v l r (and_right left _ e))
          (λ _.
            Ensures-if (right && leb_ℤ outer (pos 0))
              (λ e. left_rotate-Runs t k v l r (right_heavy a b _ e))
              (λ _.
                Ensures-if (right && ltb_ℤ (pos 0) outer)
                  (λ e. double_left-Runs t k v l r (and_right right _ e)) (λ _. ensures tt))))
