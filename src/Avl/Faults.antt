-- ===== src/Avl/Faults.antt =====
-- Where src/avltree.c goes wrong: the height that a right rotation records, and an insertion with
-- no memory left.
use quark_kernel.Base.{
  ℕ, ◌+◌, ◌≤◌, ◌≡◌, refl, ◌∙◌, sym, false, none, arith, ltb, ltb→lt, if◌then◌else◌, Bool-cases, inl,
  inr, Option, some,
}
use quark_kernel.Base.Fault.{◌>>=◌, Ensures, ensures}
use quark_kernel.Avl.{Tree, leaf, node, avl_new, avl_height, avl_right_rotate, avl_insert}
use quark_kernel.Avl.Entries.{
  entries, IsOrdered, find, IsAscending-append, find-append_lt, find-append_ge,
}
use quark_kernel.Avl.Height.{IsBalanced, max_height}

-- The heights that a right rotation records, of the new root and of the old one.
stale :
    (h a r xl z : ℕ)
    → h ≡ a + 1
    → a ≡ r + 2
    → a ≡ 1 + (if ltb z xl then xl else z)
    → z ≤ xl
    → (1 + (if ltb h xl then xl else h) ≡ h + 1)
      × (1
            + (if ltb (1 + (if ltb r z then z else r)) xl
                then xl
                else 1 + (if ltb r z then z else r))
          ≤ h)
stale h a r xl z e1 e2 e3 e4 = ground arith

module _ {ℓ} {V : Type ℓ} where
  -- The height that the subtrees of the root ask for.
  abbrev pub right_height : Tree V → ℕ
  right_height leaf = 0
  right_height (node h k v l r) = 1 + max_height l r

  -- A right rotation of a node with right heights, whose left subtree is two levels higher than
  -- the right one, runs, but records a root height of one more than the old root's, while the
  -- new subtrees ask for no more than the old root's height.
  pub right_rotate-overstates :
      (h k : ℕ) (v : V) (xh xk : ℕ) (xv : V) (xl z r : Tree V)
      → h ≡ xh + 1
      → xh ≡ avl_height r + 2
      → IsBalanced (node xh xk xv xl z)
      → avl_height z ≤ avl_height xl
      → Ensures
          (λ t. (avl_height t ≡ h + 1) × (right_height t ≤ h))
          (avl_right_rotate (node h k v (node xh xk xv xl z) r))
  unfolding avl_right_rotate
  right_rotate-overstates h k v xh xk xv xl z r e e' b s =
      ensures (stale h xh (avl_height r) (avl_height xl) (avl_height z) e e' b.0 s)

  faulted : {m : Option (Tree V)} (f : Tree V → Option (Tree V)) → m ≡ none → (m >>= f) ≡ none
  faulted f e = rw (e, ◌>>=◌)

  -- If `kmalloc` fails, the insertion of a key that the ordered tree does not hold writes
  -- through NULL.
  pub insert-no_memory :
      (t : Tree V) (key : ℕ) (value : V)
      → IsOrdered t
      → find key (entries t) ≡ none
      → avl_insert false t key value ≡ none
  unfolding avl_insert avl_new
  insert-no_memory leaf key value o e = refl
  insert-no_memory (node h k v l r) key value o e =
      let (ol, below, above, or) = IsAscending-append (entries l) k v (entries r) o in
      elim (Bool-cases (ltb key k)) [
        | inl p ↦ rw p (
            faulted _ (
              insert-no_memory l key value ol
                (sym (find-append_lt key k v (entries r) (entries l) (ltb→lt key k p)) ∙ e)))
        | inr p ↦
            let at = sym (find-append_ge key k v (entries r) (entries l) below p) ∙ e in
            elim (Bool-cases (ltb k key)) [
              | inl q ↦ rw (p, q) (faulted _ (insert-no_memory r key value or (rw (p, q) at at)))
              | inr q ↦ absurd (hit (rw (p, q) at at))
            ]
      ]
    where
      hit : {w : V} → some w ≡ none → ⊥
      hit h = cc
