-- ===== src/Avl.antt =====
-- src/avltree.c, include/avltree.h: a height-balanced search tree from `int` keys to pointers.
-- A tree is owned by one pointer, and a node is linked from one place only, so a function that
-- rewrites a tree in place is a function from the tree to the new tree. `none` is a fault: the
-- code reads or writes through NULL.
-- A key is an `int`, held as its offset from INT_MIN, which keeps the order.
pub mod Entries
pub mod Safety
pub mod Rebalance
pub mod Search
pub mod Remove
pub mod Insert
pub mod Height
pub mod Ascending
pub mod Faults
pub mod Map
mod Tests
use quark_kernel.Base.{ℕ, ◌+◌, ◌&&◌, Bool, true, false, Option, none, some, ltb, if◌then◌else◌}
use quark_kernel.Base.Int.{ℤ, pos, negsuc, sub_ℕ, ltb_ℤ, leb_ℤ}
use quark_kernel.Base.Fault.{◌>>=◌, short_and}

-- `struct avltree_t *`: NULL, or a node with its height, key, value and subtrees.
pub data Tree {ℓ} (V : Type ℓ) : Type ℓ where
  leaf : Tree V
  node : (height key : ℕ) (value : V) (left right : Tree V) → Tree V

module _ {ℓ} {V : Type ℓ} where
  -- `allocated` says whether `kmalloc` returned memory; the code writes to its result unchecked.
  unfoldable pub avl_new : (allocated : Bool) → ℕ → V → Option (Tree V)
  avl_new true key value = some (node 1 key value leaf leaf)
  avl_new false key value = none

  abbrev pub avl_height : Tree V → ℕ
  avl_height leaf = 0
  avl_height (node h k v l r) = h

  abbrev pub avl_balance : Tree V → ℤ
  avl_balance leaf = pos 0
  avl_balance (node h k v l r) = sub_ℕ (avl_height l) (avl_height r)

  abbrev pub avl_update_height : Tree V → Tree V
  avl_update_height leaf = leaf
  avl_update_height (node h k v l r) =
      node (1 + (if ltb (avl_height r) (avl_height l) then avl_height l else avl_height r)) k v l r

  -- The new root's height is computed before the height of the old root below it.
  unfoldable pub avl_right_rotate : Tree V → Option (Tree V)
  avl_right_rotate leaf = none
  avl_right_rotate (node h k v leaf r) = none
  avl_right_rotate (node h k v (node xh xk xv xl z) r) =
      elim (avl_update_height (node xh xk xv xl (node h k v z r))) [
        | leaf ↦ none
        | node xh' xk' xv' xl' y ↦ some (node xh' xk' xv' xl' (avl_update_height y))
      ]

  -- Here the old root comes first.
  unfoldable pub avl_left_rotate : Tree V → Option (Tree V)
  avl_left_rotate leaf = none
  avl_left_rotate (node h k v l leaf) = none
  avl_left_rotate (node h k v l (node yh yk yv z yr)) =
      some (avl_update_height (node yh yk yv (avl_update_height (node h k v l z)) yr))

  -- `tree->left->key` and `tree->right->key`
  abbrev pub key_of : Tree V → Option ℕ
  key_of leaf = none
  key_of (node h k v l r) = some k

  -- `tree->left = f(tree->left)` and `tree->right = f(tree->right)`
  abbrev pub on_left : (Tree V → Option (Tree V)) → Tree V → Option (Tree V)
  on_left f leaf = none
  on_left f (node h k v l r) = f l >>= λ l'. some (node h k v l' r)

  abbrev pub on_right : (Tree V → Option (Tree V)) → Tree V → Option (Tree V)
  on_right f leaf = none
  on_right f (node h k v l r) = f r >>= λ r'. some (node h k v l r')

  -- The part of `avl_insert` behind the recursive call.
  unfoldable pub insert_balance : ℕ → Tree V → Option (Tree V)
  unfolding avl_right_rotate avl_left_rotate
  insert_balance key leaf = none
  insert_balance key (node h k v l r) =
      let tree = avl_update_height (node h k v l r) in
      let balance = avl_balance tree in
      do
        left_left ← short_and (ltb_ℤ (pos 1) balance) (key_of l >>= λ k'. some (ltb key k'))
        if left_left then avl_right_rotate tree else do
          right_right ← short_and (ltb_ℤ balance (negsuc 0)) (key_of r >>= λ k'. some (ltb k' key))
          if right_right then avl_left_rotate tree else do
            left_right ← short_and (ltb_ℤ (pos 1) balance) (key_of l >>= λ k'. some (ltb k' key))
            if left_right then (on_left avl_left_rotate tree >>= avl_right_rotate) else do
              right_left ←
                  short_and (ltb_ℤ balance (negsuc 0)) (key_of r >>= λ k'. some (ltb key k'))
              if right_left then (on_right avl_right_rotate tree >>= avl_left_rotate) else some tree

  unfoldable pub avl_insert : (allocated : Bool) → Tree V → ℕ → V → Option (Tree V)
  unfolding avl_new insert_balance
  avl_insert allocated leaf key value = avl_new allocated key value
  avl_insert allocated (node h k v l r) key value =
      let go_left =
        avl_insert allocated l key value >>= λ l'. insert_balance key (node h k v l' r) in
      let go_right =
        avl_insert allocated r key value >>= λ r'. insert_balance key (node h k v l r') in
      if ltb key k then go_left else if ltb k key then go_right else some (node h k v l r)

  -- The part of `avl_remove` behind the removal.
  unfoldable pub remove_balance : Tree V → Option (Tree V)
  unfolding avl_right_rotate avl_left_rotate
  remove_balance leaf = some leaf
  remove_balance (node h k v l r) =
      let tree = avl_update_height (node h k v l r) in
      let balance = avl_balance tree in
      if ltb_ℤ (pos 1) balance && leb_ℤ (pos 0) (avl_balance l)
      then avl_right_rotate tree
      else if ltb_ℤ (pos 1) balance && ltb_ℤ (avl_balance l) (pos 0)
      then on_left avl_left_rotate tree >>= avl_right_rotate
      else if ltb_ℤ balance (negsuc 0) && leb_ℤ (avl_balance r) (pos 0)
      then avl_left_rotate tree
      else if ltb_ℤ balance (negsuc 0) && ltb_ℤ (pos 0) (avl_balance r)
      then on_right avl_right_rotate tree >>= avl_left_rotate
      else some tree

  -- The loop that walks to the leftmost node below a node with these fields.
  unfoldable pub leftmost : ℕ → V → Tree V → ℕ × V
  leftmost k v leaf = (k, v)
  leftmost k v (node lh lk lv ll lr) = leftmost lk lv ll

  -- The node with the key is found: `tree->left == NULL || tree->right == NULL`, where its only
  -- subtree takes its place, and otherwise the leftmost entry of the right subtree moves up.
  -- `remove_right` is the recursive call on the right subtree.
  unfoldable pub avl_unlink :
      ℕ → ℕ → V → Tree V → Tree V → (remove_right : ℕ → Option (Tree V)) → Option (Tree V)
  unfolding remove_balance leftmost
  avl_unlink h k v leaf r remove_right = remove_balance r
  avl_unlink h k v (node lh lk lv ll lr) leaf remove_right = remove_balance (node lh lk lv ll lr)
  avl_unlink h k v (node lh lk lv ll lr) (node rh rk rv rl rr) remove_right =
      let (min_key, min_value) = leftmost rk rv rl in
      remove_right min_key >>= λ r'.
      remove_balance (node h min_key min_value (node lh lk lv ll lr) r')

  unfoldable pub avl_remove : Tree V → ℕ → Option (Tree V)
  unfolding avl_unlink
  avl_remove leaf key = some leaf
  avl_remove (node h k v l r) key =
      let go_left = avl_remove l key >>= λ l'. remove_balance (node h k v l' r) in
      let go_right = avl_remove r key >>= λ r'. remove_balance (node h k v l r') in
      if ltb key k
      then go_left
      else if ltb k key
      then go_right
      else avl_unlink h k v l r (λ key'. avl_remove r key')

  unfoldable pub avl_get : Tree V → ℕ → Option V
  avl_get leaf key = none
  avl_get (node h k v l r) key =
      let left = avl_get l key in
      let right = avl_get r key in if ltb key k then left else if ltb k key then right else some v
