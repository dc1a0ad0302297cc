-- ===== src/Avl/Ascending.antt =====
-- Keys that only ever grow, as the process ids of src/kernel.c do: the rotations are left
-- rotations.
use native.Mathlib.Nat.{le_refl}
use quark_kernel.Base.{
  ltb_asymm, ltb-false, All-append_inv, ltb→lt, ℕ, ◌+◌, ◌≤◌, ◌<◌, ◌≡◌, refl, ◌⊎◌, inl, ◌&&◌, true,
  false, ◌∷◌, arith, ltb, if◌then◌else◌,
}
use quark_kernel.Base.Int.{pos, negsuc, sub_ℕ, ltb_ℤ}
use quark_kernel.Base.Fault.{
  Ensures, ensures, Ensures-if, Ensures-bind, Ensures-map, Ensures-and, Ensures-skip,
}
use quark_kernel.Avl.{
  Tree, leaf, node, avl_new, avl_height, avl_left_rotate, insert_balance, avl_insert,
}
use quark_kernel.Avl.Entries.{entries, Below}
use quark_kernel.Avl.Height.{IsBalanced, max_height, no_left_heavy}

-- Around a rotation to the left: the left subtree has height `a`, the right one had `b` and has
-- `c`, its subtrees have `p` and `q`, and the whole had `h`.
record Shape (a b c p q h : ℕ) : Type 0 where
  inner : p ≡ a
  outer : q ≡ a + 1
  grown : c ≡ a + 2
  before : b ≡ a + 1
  whole : h ≡ a + 2

shape :
    (a b c p q h : ℕ)
    → h ≡ 1 + (if ltb b a then a else b)
    → b ≤ a + 1
    → c ≤ b + 1
    → ltb_ℤ (sub_ℕ a c) (negsuc 0) ≡ true
    → c ≡ 1 + (if ltb q p then p else q)
    → q ≤ p + 1
    → (c ≤ b) ⊎ (p < q) ⊎ (c ≡ 1)
    → Shape a b c p q h
shape a b c p q h e1 e2 e3 e4 e5 e6 e7 = ground arith

-- The heights that the rotation records.
turned :
    (a p q h : ℕ)
    → p ≡ a
    → q ≡ a + 1
    → h ≡ a + 2
    → (1 + (if ltb p a then a else p) ≡ a + 1)
      × (1 + (if ltb q (1 + (if ltb p a then a else p)) then 1 + (if ltb p a then a else p) else q)
          ≡ h)
turned a p q h e1 e2 e3 = ground arith

-- The height of a node whose right subtree went from `b` to `c` and is not too high.
level :
    (a b c h : ℕ)
    → h ≡ 1 + (if ltb b a then a else b)
    → b ≤ a + 1
    → b ≤ c
    → c ≤ b + 1
    → (h ≤ 1 + (if ltb c a then a else c))
      × (1 + (if ltb c a then a else c) ≤ h + 1)
      × ((1 + (if ltb c a then a else c) ≤ h) ⊎ (a < c) ⊎ (1 + (if ltb c a then a else c) ≡ 1))
level a b c h e1 e2 e3 e4 = ground arith

-- A subtree that is two levels higher is no new leaf, so the greater key is in its right subtree.
wrong_side :
    (key rk a c : ℕ)
    → ltb_ℤ (sub_ℕ a c) (negsuc 0) ≡ true
    → ltb key rk ≡ true
    → (rk < key) ⊎ (c ≡ 1)
    → ⊥
wrong_side key rk a c e1 e2 e3 = ground arith

low_side :
    (key rk a c : ℕ)
    → (ltb_ℤ (sub_ℕ a c) (negsuc 0) && ltb rk key) ≡ false
    → (ltb_ℤ (sub_ℕ a c) (negsuc 0) && ltb key rk) ≡ false
    → (rk < key) ⊎ (c ≡ 1)
    → c ≤ a + 1
low_side key rk a c e1 e2 e3 = ground arith

module _ {ℓ} {V : Type ℓ} where
  -- Every key on the rightmost path lies below `b`.
  abbrev pub RightBelow : ℕ → Tree V → Type 0
  RightBelow b leaf = Unit
  RightBelow b (node h k v l r) = (k < b) × RightBelow b r

  -- What an insertion at the right end makes of a tree of height `b`: it is balanced, at most one
  -- level higher, and where it is higher the new level is on the right.
  abbrev Extended : ℕ → ℕ → Tree V → Type 0
  Extended key b leaf = ⊥
  Extended key b (node h k v l r) =
      IsBalanced (node h k v l r)
      × (b ≤ h)
      × (h ≤ b + 1)
      × ((h ≤ b) ⊎ (avl_height l < avl_height r) ⊎ (h ≡ 1))
      × ((k < key) ⊎ (h ≡ 1))

  module _ (key h k : ℕ) (v : V) (l : Tree V) (rh rk : ℕ) (rv : V) (rl rr : Tree V) where
    rotated :
        {b : ℕ}
        → IsBalanced l
        → IsBalanced (node rh rk rv rl rr)
        → Shape (avl_height l) b rh (avl_height rl) (avl_height rr) h
        → rk < key
        → (n : ℕ) → Ensures (Extended key h) (avl_left_rotate (node n k v l (node rh rk rv rl rr)))
    unfolding avl_left_rotate
    rotated bl br s q n =
        let a = avl_height l in
        let (x, y) = turned a (avl_height rl) (avl_height rr) h s.inner s.outer s.whole in
        ensures (
          (
            refl,
            rw (x, s.outer) (omega arith),
            rw (x, s.outer) (omega arith),
            (refl, rw s.inner (omega arith), rw s.inner (omega arith), bl, br.3),
            br.4,
          ),
          rw y (le_refl h),
          rw y (omega arith),
          inl (rw y (le_refl h)),
          inl q,
        )

  module _ (key h k : ℕ) (v : V) (l r : Tree V) (b : IsBalanced (node h k v l r))
      (p : k < key) where
    extended :
        (r' : Tree V)
        → Extended key (avl_height r) r'
        → Ensures (Extended key h) (insert_balance key (node h k v l r'))
    unfolding insert_balance
    extended leaf e = absurd e
    extended (node rh rk rv rl rr) e =
        let a = avl_height l in
        let left = ltb_ℤ (pos 1) (sub_ℕ a rh) in
        let right = ltb_ℤ (sub_ℕ a rh) (negsuc 0) in
        let balanced = no_left_heavy a rh (omega arith) in
        let n = 1 + max_height l (node rh rk rv rl rr) in
        Ensures-skip left _ _ balanced (
          Ensures-and right (ltb rk key)
            (λ e1 e2.
              rotated key h k v l rh rk rv rl rr b.3 e.0
                (shape a (avl_height r) rh (avl_height rl) (avl_height rr) h b.0 b.2 e.2 e1 e.0.0
                  e.0.2 e.3)
                (ltb→lt rk key e2) n)
            (λ n1. Ensures-skip left _ _ balanced (
              Ensures-and right (ltb key rk) (λ e3 e4. absurd (wrong_side key rk a rh e3 e4 e.4))
                (λ n2.
                  let (low, high, shape) = level a (avl_height r) rh h b.0 b.2 e.1 e.2 in
                  ensures (
                    (refl, omega arith, low_side key rk a rh n1 n2 e.4, b.3, e.0),
                    low,
                    high,
                    shape,
                    inl p,
                  )))))

  -- Where the new key is greater than every key, `avl_insert` keeps the heights right: the tree
  -- stays balanced and gets at most one level higher.
  insert-Extended :
      (t : Tree V) (key : ℕ) (value : V)
      → IsBalanced t
      → RightBelow key t
      → Ensures (Extended key (avl_height t)) (avl_insert true t key value)
  unfolding avl_insert avl_new
  insert-Extended leaf key value b p = ensures (ground arith)
  insert-Extended (node h k v l r) key value b p =
      Ensures-if (ltb key k) (λ e. absurd (ltb_asymm key k e p.0))
        (λ _.
          Ensures-if (ltb k key)
            (λ _. Ensures-bind (insert-Extended r key value b.4 p.1) (extended key h k v l r b p.0))
            (λ e. absurd (ltb-false key k p.0 e)))

  RightBelow-Below : (b : ℕ) (t : Tree V) → Below b (entries t) → RightBelow b t
  RightBelow-Below b leaf h = tt
  RightBelow-Below b (node n k v l r) h =
      let parts = All-append_inv (λ e. e.0 < b) (entries l) ((k, v) ∷ entries r) h in
      (parts.1.0, RightBelow-Below b r parts.1.1)

  Extended-IsBalanced :
      (key b : ℕ) (t : Tree V) → Extended key b t → IsBalanced t × (avl_height t ≤ b + 1)
  Extended-IsBalanced key b leaf e = absurd e
  Extended-IsBalanced key b (node h k v l r) e = (e.0, e.2)

  -- A key above every key of a balanced tree goes in without a fault: the new tree is balanced
  -- again, with right heights, and at most one level higher.
  pub insert-IsBalanced :
      (t : Tree V) (key : ℕ) (value : V)
      → IsBalanced t
      → Below key (entries t)
      → Ensures
          (λ t'. IsBalanced t' × (avl_height t' ≤ avl_height t + 1))
          (avl_insert true t key value)
  insert-IsBalanced t key value b h =
      Ensures-map (insert-Extended t key value b (RightBelow-Below key t h))
        λ t' e. Extended-IsBalanced key (avl_height t) t' e
