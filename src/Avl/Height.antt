-- ===== src/Avl/Height.antt =====
-- `avl_insert` on a tree with right heights, and the nodes that its rotations follow.
use quark_kernel.Base.{
  ℕ, ◌+◌, ◌≤◌, ◌≡◌, refl, ◌≢◌, true, false, Option, none, List, [], ◌∷◌, arith, ltb, if◌then◌else◌,
}
use quark_kernel.Base.Int.{pos, negsuc, sub_ℕ, ltb_ℤ}
use quark_kernel.Base.Fault.{
  ◌>>=◌, returns, faults, Ensures, ensures, Ensures-if, Ensures-bind, Ensures-map, Ensures-Runs,
  Ensures-and, Ensures-skip,
}
use quark_kernel.Avl.{
  Tree, leaf, node, avl_new, avl_height, avl_right_rotate, avl_left_rotate, on_left, on_right,
  insert_balance, avl_insert,
}
use quark_kernel.Avl.Entries.{
  entries, IsOrdered, find, add, add-IsAscending, IsAscending-append, find-append_ge,
}
use quark_kernel.Avl.Rebalance.{Keeps}
use quark_kernel.Avl.Insert.{insert-add_partial}

no_right_heavy : (a b : ℕ) → b ≤ a + 1 → ltb_ℤ (sub_ℕ a b) (negsuc 0) ≡ false
no_right_heavy a b h = ground arith

pub no_left_heavy : (a b : ℕ) → a ≤ b + 1 → ltb_ℤ (pos 1) (sub_ℕ a b) ≡ false
no_left_heavy a b h = ground arith

-- The height of a node whose subtrees have heights `a` and `b`, when one of them grows to `c`.
higher_left :
    (h a b c : ℕ) → h ≡ 1 + (if ltb b a then a else b) → a ≤ c → h ≤ 1 + (if ltb b c then c else b)
higher_left h a b c e p = ground arith

higher_right :
    (h a b c : ℕ) → h ≡ 1 + (if ltb b a then a else b) → b ≤ c → h ≤ 1 + (if ltb c a then a else c)
higher_right h a b c e p = ground arith

higher_low : (h a b : ℕ) → h ≡ 1 + (if ltb b a then a else b) → b ≤ a + 1 → h ≤ 2 + a
higher_low h a b e p = ground arith

module _ {ℓ} {V : Type ℓ} where
  abbrev pub max_height : Tree V → Tree V → ℕ
  max_height l r = if ltb (avl_height r) (avl_height l) then avl_height l else avl_height r

  -- The AVL invariant: the recorded heights are right, and siblings differ by one level at most.
  abbrev pub IsBalanced : Tree V → Type 0
  IsBalanced leaf = Unit
  IsBalanced (node h k v l r) =
      (h ≡ 1 + max_height l r)
      × (avl_height l ≤ avl_height r + 1)
      × (avl_height r ≤ avl_height l + 1)
      × IsBalanced l
      × IsBalanced r

  -- The subtree on the side of `key` is there, if `key` is not at the root.
  abbrev Leads : ℕ → Tree V → Type 0
  Leads key leaf = ⊥
  Leads key (node h k v leaf leaf) = key ≡ k
  Leads key (node h k v leaf (node rh rk rv rl rr)) = k ≤ key
  Leads key (node h k v (node lh lk lv ll lr) leaf) = key ≤ k
  Leads key (node h k v (node lh lk lv ll lr) (node rh rk rv rl rr)) = Unit

  find-add_self : (key : ℕ) (value : V) (xs : List (ℕ × V)) → find key (add key value xs) ≢ none
  find-add_self key value [] = ground arith
  find-add_self key value (e ∷ xs) = ground (arith, find-add_self key value xs)

  Leads-find : (key : ℕ) (t : Tree V) → IsOrdered t → find key (entries t) ≢ none → Leads key t
  Leads-find key leaf o h = h refl
  Leads-find key (node h k v leaf leaf) o p = ground arith
  Leads-find key (node h k v leaf (node rh rk rv rl rr)) o p = ground arith
  Leads-find key (node h k v (node lh lk lv ll lr) leaf) o p =
      let (ol, below, above, or) = IsAscending-append (entries (node lh lk lv ll lr)) k v [] o in
      ground (arith, find-append_ge key k v [] (entries (node lh lk lv ll lr)) below)
  Leads-find key (node h k v (node lh lk lv ll lr) (node rh rk rv rl rr)) o p = tt

  -- The rotations on the left record at least the height of the old root.
  module _ (n k : ℕ) (v : V) (lh lk : ℕ) (lv : V) where
    right_rotate-height :
        (ll lr r : Tree V)
        → Ensures (λ t. n ≤ avl_height t) (avl_right_rotate (node n k v (node lh lk lv ll lr) r))
    unfolding avl_right_rotate
    right_rotate-height ll lr r = ensures (ground arith)

    double_right-height :
        (key : ℕ) (ll lr r : Tree V)
        → Leads key (node lh lk lv ll lr)
        → ltb lk key ≡ true
        → Ensures
            (λ t. n ≤ avl_height t)
            (on_left avl_left_rotate (node n k v (node lh lk lv ll lr) r) >>= avl_right_rotate)
    unfolding avl_right_rotate avl_left_rotate
    double_right-height key leaf leaf r q e = absurd (ground arith)
    double_right-height key (node xh xk xv xl xr) leaf r q e = absurd (ground arith)
    double_right-height key ll (node yh yk yv yl yr) r q e = ensures (ground arith)

  -- Those on the right record at least two more than the height of the left subtree.
  module _ (n k : ℕ) (v : V) (l : Tree V) (rh rk : ℕ) (rv : V) where
    left_rotate-height :
        (rl rr : Tree V)
        → Ensures
            (λ t. 2 + avl_height l ≤ avl_height t)
            (avl_left_rotate (node n k v l (node rh rk rv rl rr)))
    unfolding avl_left_rotate
    left_rotate-height rl rr = ensures (ground arith)

    double_left-height :
        (key : ℕ) (rl rr : Tree V)
        → Leads key (node rh rk rv rl rr)
        → ltb key rk ≡ true
        → Ensures
            (λ t. 2 + avl_height l ≤ avl_height t)
            (on_right avl_right_rotate (node n k v l (node rh rk rv rl rr)) >>= avl_left_rotate)
    unfolding avl_right_rotate avl_left_rotate
    double_left-height key leaf leaf q e = absurd (ground arith)
    double_left-height key leaf (node xh xk xv xl xr) q e = absurd (ground arith)
    double_left-height key (node yh yk yv yl yr) rr q e = ensures (ground arith)

  module _ (key h k : ℕ) (v : V) where
    -- After an insertion on the left, which may have made the left subtree higher.
    grown_left :
        (l r : Tree V)
        → Leads key l
        → avl_height r ≤ avl_height l + 1
        → Ensures (λ t. 1 + max_height l r ≤ avl_height t) (insert_balance key (node h k v l r))
    unfolding insert_balance
    grown_left leaf r q s = absurd q
    grown_left (node lh lk lv ll lr) r q s =
        let left = ltb_ℤ (pos 1) (sub_ℕ lh (avl_height r)) in
        let right = ltb_ℤ (sub_ℕ lh (avl_height r)) (negsuc 0) in
        let n = 1 + max_height (node lh lk lv ll lr) r in
        let balanced = no_right_heavy lh (avl_height r) s in
        Ensures-and left (ltb key lk) (λ _ _. right_rotate-height n k v lh lk lv ll lr r)
          (λ _. Ensures-skip right _ _ balanced (
            Ensures-and left (ltb lk key)
              (λ _ e. double_right-height n k v lh lk lv key ll lr r q e)
              (λ _. Ensures-skip right _ _ balanced (ensures (omega arith)))))

    grown_right :
        (l r : Tree V)
        → Leads key r
        → avl_height l ≤ avl_height r + 1
        → (m : ℕ) → m ≤ 2 + avl_height l
        → m ≤ 1 + max_height l r
        → Ensures (λ t. m ≤ avl_height t) (insert_balance key (node h k v l r))
    unfolding insert_balance
    grown_right l leaf q s m low high = absurd q
    grown_right l (node rh rk rv rl rr) q s m low high =
        let left = ltb_ℤ (pos 1) (sub_ℕ (avl_height l) rh) in
        let right = ltb_ℤ (sub_ℕ (avl_height l) rh) (negsuc 0) in
        let n = 1 + max_height l (node rh rk rv rl rr) in
        let balanced = no_left_heavy (avl_height l) rh s in
        Ensures-skip left _ _ balanced (
          Ensures-and right (ltb rk key)
            (λ _ _. Ensures-map (left_rotate-height n k v l rh rk rv rl rr) λ t e. omega arith)
            (λ _. Ensures-skip left _ _ balanced (
              Ensures-and right (ltb key rk)
                (λ _ e.
                  Ensures-map (double_left-height n k v l rh rk rv key rl rr q e)
                    λ t e'. omega arith)
                (λ _. ensures high))))

  -- The new subtree holds the key, so the search path goes on in it.
  abbrev Grown : ℕ → Tree V → Tree V → Type 0
  Grown key t t' = (avl_height t ≤ avl_height t') × Leads key t'

  with_path :
      {m : Option (Tree V)} (key : ℕ) (value : V) (t : Tree V)
      → IsOrdered t
      → Keeps (add key value (entries t)) m
      → Ensures (λ t'. avl_height t ≤ avl_height t') m
      → Ensures (Grown key t) m
  with_path key value t o faults h = elim h [ ]
  with_path key value t o (returns {a = t'} e) (ensures p) = ensures (
    p,
    Leads-find key t' (rw e (add-IsAscending key value (entries t) o))
        (rw e (find-add_self key value (entries t))),
  )

  -- With right heights the code runs, and the tree does not get lower.
  insert-Grown :
      (t : Tree V) (key : ℕ) (value : V)
      → IsBalanced t
      → IsOrdered t
      → Ensures (λ t'. avl_height t ≤ avl_height t') (avl_insert true t key value)
  unfolding avl_insert avl_new
  insert-Grown leaf key value b o = ensures (omega arith)
  insert-Grown (node h k v l r) key value (hh, bl, br, ul, ur) o =
      let (ol, below, above, or) = IsAscending-append (entries l) k v (entries r) o in
      Ensures-if (ltb key k)
        (λ p.
          Ensures-bind
            (with_path key value l ol (insert-add_partial true l key value ol)
              (insert-Grown l key value ul ol))
            λ l' g. Ensures-map (grown_left key h k v l' r g.1 (omega arith)) λ t e.
              omega (arith, higher_left h (avl_height l) (avl_height r) (avl_height l') hh g.0))
        (λ p.
          Ensures-if (ltb k key)
            (λ q.
              Ensures-bind
                (with_path key value r or (insert-add_partial true r key value or)
                  (insert-Grown r key value ur or))
                λ r' g.
                  Ensures-map
                    (grown_right key h k v l r' g.1 (omega arith) h
                      (higher_low h (avl_height l) (avl_height r) hh br)
                      (higher_right h (avl_height l) (avl_height r) (avl_height r') hh g.0))
                    λ t e. e)
            (λ q. ensures (omega arith)))

  pub insert-add :
      (t : Tree V) (key : ℕ) (value : V)
      → IsBalanced t
      → IsOrdered t
      → Ensures (λ t'. entries t' ≡ add key value (entries t)) (avl_insert true t key value)
  insert-add t key value b o =
      Ensures-Runs (insert-add_partial true t key value o)
        (Ensures-map (insert-Grown t key value b o) λ t' h. tt)
