-- ===== src/PriorityQueue/Insert.antt =====
-- `priorityqueue_insert`.
use quark_kernel.Base.{
  ltb→lt, ◌&&◌, Bool-cases, inl, inr, not-==→ne, ==_refl, ℕ, zero, suc, ◌+◌, ◌≤◌, ◌<◌, ◌≡◌, refl,
  ◌≢◌, Bool, false, arith, ◌==◌, ltb, ◌∙◌,
}
use quark_kernel.Base.Fault.{Ensures, ensures, Ensures-if, Ensures-bind, Ensures-map, Ensures-and}
use quark_kernel.Status.{enone}
use quark_kernel.PriorityQueue.{Node, PriorityQueue, update, sift_up, priorityqueue_insert}
use quark_kernel.PriorityQueue.Bag.{bit, tally, tally-update, tally-update_ge, tally_suc}
use quark_kernel.PriorityQueue.Order.{parent, key, IsHeap, IsValid, load-ok, store-ok}

-- With the new entry put into the free cell `i`, all is in order but the edge above `i`.
record UpInv (heap : ℕ → Node) (n i : ℕ) (new : Node) : Type 0 where
  inside : i < n
  edges :
      (c : ℕ)
      → 0 < c
      → c < n
      → c ≢ i
      → key (update heap i new) (parent c) ≤ key (update heap i new) c
  bridged :
      (c : ℕ)
      → 0 < c
      → c < n
      → parent c ≡ i
      → 0 < i
      → key (update heap i new) (parent i) ≤ key (update heap i new) c

module _ (heap : ℕ → Node) (n i : ℕ) (new : Node) (inv : UpInv heap n i new) where
  -- The end of the loop: the parent is no larger, or there is none.
  placed :
      (ltb 0 i && ltb new.priority (key heap (parent i))) ≡ false → IsHeap (update heap i new) n
  placed stop c p q = elim (Bool-cases (c == i)) [
    | inl e ↦ ground arith
    | inr e ↦ inv.edges c p q (not-==→ne c i e)
  ]

  -- A round: the parent moves down, and its cell is the free one.
  module _ (pos : 0 < i) (lower : new.priority < key heap (parent i)) where
    abbrev raised : ℕ → Node
    raised = update heap i (heap (parent i))

    raised_edges :
        (c : ℕ)
        → 0 < c
        → c < n
        → c ≢ parent i
        → key (update raised (parent i) new) (parent c) ≤ key (update raised (parent i) new) c
    raised_edges c p q ne = ground (arith, inv.edges c, inv.bridged c, inv.edges (parent i))

    raised_bridged :
        (c : ℕ)
        → 0 < c
        → c < n
        → parent c ≡ parent i
        → 0 < parent i
        → key (update raised (parent i) new) (parent (parent i))
          ≤ key (update raised (parent i) new) c
    raised_bridged c p q e r = ground (arith, inv.edges c, inv.edges (parent i))

    raised-UpInv : UpInv raised n (parent i) new
    raised-UpInv = record {
      inside = omega (arith, inv.inside);
      edges = raised_edges;
      bridged = raised_bridged;
    }

    tally-raised :
        (p : Node → Bool) → tally p (update raised (parent i) new) n ≡ tally p (update heap i new) n
    tally-raised p = ground (
      arith,
      inv.inside,
      tally-update p raised (parent i) new n,
      tally-update p heap i (heap (parent i)) n,
      tally-update p heap i new n,
    )

-- `q'` is a heap of the entries of `q` with the new entry in the free cell.
record Placed (q : PriorityQueue) (i : ℕ) (new : Node) (q' : PriorityQueue) : Type 0 where
  heap : IsHeap q'.heap q.size
  same : (p : Node → Bool) → tally p q'.heap q.size ≡ tally p (update q.heap i new) q.size
  size : q'.size ≡ q.size
  capacity : q'.capacity ≡ q.capacity

sift_up-Placed :
    (fuel : ℕ) (q : PriorityQueue) (i : ℕ) (new : Node)
    → q.size ≤ q.capacity
    → i < fuel
    → UpInv q.heap q.size i new
    → Ensures (Placed q i new) (sift_up fuel q i new)
unfolding sift_up
sift_up-Placed zero q i new room f inv = absurd (omega arith)
sift_up-Placed (suc fuel) q i new room f inv =
    let up = parent i in
    let inside : i < q.capacity = omega (arith, inv.inside) in
    rw (load-ok q up (omega arith), store-ok q i inside (q.heap up), store-ok q i inside new)
      (Ensures-and (ltb 0 i) (ltb new.priority (key q.heap up))
        (λ e1 e2.
          let pos = ltb→lt 0 i e1 in
          let lower = ltb→lt new.priority (key q.heap up) e2 in
          Ensures-map
            (sift_up-Placed fuel (record q { heap = raised q.heap q.size i new inv pos lower }) up
              new room (omega arith) (raised-UpInv q.heap q.size i new inv pos lower))
            λ q' r. record {
              heap = r.heap;
              same = λ p. r.same p ∙ tally-raised q.heap q.size i new inv pos lower p;
              size = r.size;
              capacity = r.capacity;
            })
        (λ stop. ensures (record {
          heap = placed q.heap q.size i new inv stop;
          same = λ p. refl;
          size = refl;
          capacity = refl;
        })))

-- What an insertion into a queue with room does: it reports success, and leaves a valid queue of
-- exactly the old entries and the new one.
pub record Inserted (q : PriorityQueue) (new : Node) (r : ℕ × PriorityQueue) : Type 0 where
  pub status : r.0 ≡ enone
  pub valid : IsValid r.1
  pub same : (p : Node → Bool) → tally p r.1.heap r.1.size ≡ tally p q.heap q.size + bit (p new)
  pub size : r.1.size ≡ q.size + 1
  pub capacity : r.1.capacity ≡ q.capacity

-- On a valid queue that is not full an insertion runs inside the array, reports success, and
-- leaves a valid queue of exactly the old entries and the new one.
pub insert-Inserted :
    (q : PriorityQueue) (value priority : ℕ)
    → IsValid q
    → q.size < q.capacity
    → Ensures
        (Inserted q (record { value = value; priority = priority }))
        (priorityqueue_insert q value priority)
unfolding priorityqueue_insert
insert-Inserted q value priority v h =
    let new : Node = record { value = value; priority = priority } in
    let n = q.size in
    let start : UpInv q.heap (n + 1) n new = record {
      inside = omega arith;
      edges = λ c p r ne. ground (arith, v.heap c);
      bridged = λ c p r e z. absurd (omega arith);
    } in
    Ensures-if (n == q.capacity) (λ e. absurd (ground arith))
      (λ _.
        Ensures-bind
          (sift_up-Placed (n + 1) (record q { size = n + 1 }) n new (omega arith) (omega arith)
            start)
          λ q' r. ensures (record {
            status = refl;
            valid = record { heap = rw r.size r.heap; bounded = omega (arith, r.size, r.capacity) };
            same = λ p. rw r.size (
                omega (
                  arith,
                  r.same p,
                  tally_suc p (update q.heap n new) n,
                  tally-update_ge p q.heap n new n,
                  last p new,
                ));
            size = r.size;
            capacity = r.capacity;
          }))
  where
    last : (p : Node → Bool) (new : Node) → bit (p (update q.heap q.size new q.size)) ≡ bit (p new)
    last p new = rw ==_refl
