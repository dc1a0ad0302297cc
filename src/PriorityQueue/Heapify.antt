-- ===== src/PriorityQueue/Heapify.antt =====
-- `heapify`, which may read one cell behind the entries.
use quark_kernel.Base.{
  ◌⊎◌, ==_iff, not-==→ne, and-leb, leb→le, not-leb→lt, Bool-cases, inl, inr, ℕ, zero, suc, ◌+◌, ◌*◌,
  ◌≤◌, ◌<◌, ◌≡◌, refl, ◌∙◌, ◌≢◌, ◌&&◌, Bool, false, arith, leb, ◌==◌,
}
use quark_kernel.Base.Fault.{◌>>=◌, Ensures, ensures, Ensures-if, Ensures-and, Ensures-map}
use quark_kernel.PriorityQueue.{Node, PriorityQueue, update, exchange, heapify}
use quark_kernel.PriorityQueue.Bag.{tally, tally-exchange, tally-exchange_stale}
use quark_kernel.PriorityQueue.Order.{parent, key, IsHeap, Restored, load-ok, exchange-ok}

-- What holds while the entry at `i` sinks: the order below other parents, and from the parent of
-- `i` to the children of `i`; and the cell behind the entries still holds the sinking entry,
-- which was moved from there.
pub record DownInv (heap : ℕ → Node) (n i : ℕ) : Type 0 where
  pub edges : (c : ℕ) → 0 < c → c < n → parent c ≢ i → key heap (parent c) ≤ key heap c
  pub bridged : (c : ℕ) → 0 < c → c < n → parent c ≡ i → 0 < i → key heap (parent i) ≤ key heap c
  pub stale : heap n ≡ heap i

abbrev swapped : (ℕ → Node) → ℕ → ℕ → ℕ → Node
swapped heap i j = update (update heap i (heap j)) j (heap i)

-- One exchange with a child that is no larger than the entry and than the other child.
module _ (heap : ℕ → Node) (n i c : ℕ) (inv : DownInv heap n i) (inside : c < n) (up : parent c ≡ i)
    (pos : 0 < c) (below : key heap c ≤ key heap i)
    (least : (d : ℕ) → 0 < d → d < n → parent d ≡ i → key heap c ≤ key heap d) where
  step_edges :
      (d : ℕ)
      → 0 < d
      → d < n
      → parent d ≢ c
      → key (swapped heap i c) (parent d) ≤ key (swapped heap i c) d
  step_edges d p r ne =
      ground (arith, inv.edges d, inv.bridged i, inv.bridged c, inv.edges c, least d)

  step_bridged :
      (d : ℕ)
      → 0 < d
      → d < n
      → parent d ≡ c
      → 0 < c
      → key (swapped heap i c) (parent c) ≤ key (swapped heap i c) d
  step_bridged d p r e q = ground (arith, inv.edges d)

  step_DownInv : DownInv (swapped heap i c) n c
  step_DownInv = record {
    edges = step_edges;
    bridged = step_bridged;
    stale = ground (arith, inv.stale);
  }

-- The three ends of a round: there is no child, no child is smaller, or the right child is the
-- cell behind the entries.
module _ (heap : ℕ → Node) (n i : ℕ) (inv : DownInv heap n i) where
  no_child : n ≤ i * 2 + 1 → IsHeap heap n
  no_child h c p q = inv.edges c p q (omega arith)

  module _ (inside : i * 2 + 1 < n)
      (not_left : (leb (key heap (i * 2 + 1)) (key heap i)
          && leb (key heap (i * 2 + 1)) (key heap (i * 2 + 2)))
        ≡ false) where
    in_order :
        (leb (key heap (i * 2 + 2)) (key heap i)
            && leb (key heap (i * 2 + 2)) (key heap (i * 2 + 1)))
          ≡ false
        → IsHeap heap n
    in_order not_right c p q = elim (Bool-cases (parent c == i)) [
      | inl e ↦ elim (Bool-cases (c == i * 2 + 1)) [
        | inl e' ↦ ground (arith, inv.stale)
        | inr e' ↦ let r : c ≡ i * 2 + 2 = ground arith in ground (arith, inv.stale)
      ]
      | inr e ↦ inv.edges c p q (ground arith)
    ]

    behind : i * 2 + 2 ≡ n → DownInv (swapped heap i n) n n
    behind e = record {
      edges = λ c p q ne. ground (arith, inv.edges c, inv.stale);
      bridged = λ c p q e' p'. absurd (omega arith);
      stale = refl;
    }

-- What the recursive call restores, read from before the exchange.
sunk :
    (q q' : PriorityQueue) (i j : ℕ)
    → ((p : Node → Bool) → tally p (swapped q.heap i j) q.size ≡ tally p q.heap q.size)
    → Restored (record q { heap = swapped q.heap i j }) q'
    → Restored q q'
sunk q q' i j same r = record {
  heap = r.heap;
  same = λ p. r.same p ∙ same p;
  size = r.size;
  capacity = r.capacity;
}

-- A child that is no larger than its sibling is a least child.
child_least :
    (heap : ℕ → Node) (n i : ℕ) {c d : ℕ}
    → ((c ≡ i * 2 + 1) × (d ≡ i * 2 + 2)) ⊎ ((c ≡ i * 2 + 2) × (d ≡ i * 2 + 1))
    → key heap c ≤ key heap d
    → (e : ℕ) → 0 < e
    → e < n
    → parent e ≡ i
    → key heap c ≤ key heap e
child_least heap n i {c} {d} pair le e p r up = elim (Bool-cases (e == c)) [
  | inl same ↦ ground arith
  | inr other ↦ let at : e ≡ d = ground arith in rw at le
]

-- The statement of `heapify_restores`, at one fuel.
abbrev RestoresAt : ℕ → Type 0
RestoresAt fuel =
    (q : PriorityQueue) (i : ℕ)
    → q.size < q.capacity
    → q.size < i + fuel
    → i ≤ q.size
    → DownInv q.heap q.size i
    → Ensures (Restored q) (heapify fuel q i)

-- One exchange and the recursive call.
module _ (fuel : ℕ) (ih : RestoresAt fuel) (q : PriorityQueue) (i c : ℕ)
    (room : q.size < q.capacity) (f : q.size < i + suc fuel) (inv : DownInv q.heap q.size i)
    (lower : i < c) where
  inner_round :
      c < q.size
      → parent c ≡ i
      → key q.heap c ≤ key q.heap i
      → ((d : ℕ) → 0 < d → d < q.size → parent d ≡ i → key q.heap c ≤ key q.heap d)
      → Ensures (Restored q) (exchange q i c >>= λ q'. heapify fuel q' c)
  inner_round inside up below least = rw (exchange-ok q i c (omega arith) (omega arith)) (
      Ensures-map
        (ih (record q { heap = swapped q.heap i c }) c room (omega arith) (omega arith)
          (step_DownInv q.heap q.size i c inv inside up (omega arith) below least))
        λ q' r.
          sunk q q' i c (λ p. tally-exchange p q.heap i c q.size (omega arith) inside (omega arith))
            r)

  outer_round :
      c ≡ q.size
      → DownInv (swapped q.heap i q.size) q.size q.size
      → Ensures (Restored q) (exchange q i c >>= λ q'. heapify fuel q' c)
  outer_round end next =
      rw (exchange-ok q i c (omega arith) (omega arith), end)
        (Ensures-map
          (ih (record q { heap = swapped q.heap i q.size }) q.size room (omega arith) (omega arith)
            next)
          λ q' r.
            sunk q q' i q.size
              (λ p.
                tally-exchange_stale p q.heap i q.size q.size (omega arith) (omega arith) inv.stale)
              r)

-- `heapify` at `i` runs inside the array, within its fuel, and makes a heap of the same entries,
-- where one cell behind the entries is allocated and all but the entry at `i` are in order.
pub heapify_restores : (fuel : ℕ) → RestoresAt fuel
unfolding heapify
heapify_restores zero q i room f le inv = absurd (omega arith)
heapify_restores (suc fuel) q i room f le inv =
    let left = i * 2 + 1 in
    let right = i * 2 + 2 in
    let heap = q.heap in
    Ensures-if (leb q.size left)
      (λ e. ensures (record {
        heap = no_child heap q.size i inv (leb→le _ _ e);
        same = λ p. refl;
        size = refl;
        capacity = refl;
      }))
      (λ e.
        let inside : left < q.size = not-leb→lt _ _ e in
        rw (load-ok q left (omega arith), load-ok q i (omega arith), load-ok q right (omega arith))
          (Ensures-and (leb (key heap left) (key heap i)) (leb (key heap left) (key heap right))
            (λ e1 e2.
              inner_round fuel (heapify_restores fuel) q i left room f inv (omega arith) inside
                (omega arith) (leb→le _ _ e1)
                (child_least heap q.size i (inl (refl, refl)) (leb→le _ _ e2)))
            (λ n1.
              Ensures-if (leb (key heap right) (key heap i) && leb (key heap right) (key heap left))
                (λ e2.
                  let (below, least) = and-leb (key heap right) (key heap i) (key heap left) e2 in
                  elim (Bool-cases (right == q.size)) [
                    | inl at ↦
                        let end : right ≡ q.size = (==_iff right q.size).0 at in
                        outer_round fuel (heapify_restores fuel) q i right room f inv (omega arith)
                          end (behind heap q.size i inv inside n1 end)
                    | inr inner ↦
                        let ne : right ≢ q.size = not-==→ne right q.size inner in
                        inner_round fuel (heapify_restores fuel) q i right room f inv (omega arith)
                          (omega arith) (omega arith) below
                          (child_least heap q.size i (inr (refl, refl)) least)
                  ])
                (λ n2. ensures (record {
                  heap = in_order heap q.size i inv inside n1 n2;
                  same = λ p. refl;
                  size = refl;
                  capacity = refl;
                })))))
