-- ===== src/PriorityQueue/ExtractMin.antt =====
-- `priorityqueue_extract_min`.
use quark_kernel.Base.{
  Bool-cases, inl, inr, ==_iff, not-==→ne, ℕ, ◌+◌, ◌-◌, ◌≤◌, ◌<◌, ◌≡◌, refl, Bool, arith, ◌==◌,
}
use quark_kernel.Base.Fault.{Ensures, ensures, Ensures-if, Ensures-bind}
use quark_kernel.PriorityQueue.{Node, PriorityQueue, update, priorityqueue_extract_min}
use quark_kernel.PriorityQueue.Bag.{bit, tally, tally-update, tally-update_ge, tally_suc}
use quark_kernel.PriorityQueue.Order.{key, IsHeap, IsValid, Restored, load-ok, store-ok, root_least}
use quark_kernel.PriorityQueue.Heapify.{DownInv, heapify_restores}

-- What an extraction returns: the value of the root, which has a least priority value, and a
-- valid queue of exactly the other entries.
pub record Extracted (q : PriorityQueue) (r : ℕ × PriorityQueue) : Type 0 where
  pub value : r.0 ≡ (q.heap 0).value
  pub least : (i : ℕ) → i < q.size → key q.heap 0 ≤ key q.heap i
  pub valid : IsValid r.1
  pub same :
      (p : Node → Bool) → tally p r.1.heap r.1.size + bit (p (q.heap 0)) ≡ tally p q.heap q.size
  pub size : r.1.size + 1 ≡ q.size
  pub capacity : r.1.capacity ≡ q.capacity

-- The last entry moves to the root.
module _ (heap : ℕ → Node) (n : ℕ) where
  abbrev moved : ℕ → Node
  moved = update heap 0 (heap n)

  moved-DownInv : IsHeap heap (n + 1) → DownInv moved n 0
  moved-DownInv h = record {
    edges = λ c p q ne. ground (arith, h c);
    bridged = λ c p q e p'. absurd (omega arith);
    stale = ground arith;
  }

  tally-moved :
      (p : Node → Bool) → tally p moved n + bit (p (heap 0)) ≡ tally p heap n + bit (p (heap n))
  tally-moved p = elim (Bool-cases (n == 0)) [
    | inl e ↦
        let z : n ≡ 0 = (==_iff n 0).0 e in
        rw (z, tally-update_ge p heap 0 (heap 0) 0 (omega arith))
    | inr e ↦ tally-update p heap 0 (heap n) n (omega (arith, not-==→ne n 0 e))
  ]

module _ (q : PriorityQueue) (v : IsValid q) (n : ℕ) (e : q.size ≡ n + 1) where
  extracted :
      (q' : PriorityQueue)
      → Restored (record { heap = moved q.heap n; size = n; capacity = q.capacity }) q'
      → Extracted q ((q.heap 0).value, q')
  extracted q' r = record {
    value = refl;
    least = λ i h. root_least q.heap q.size i v.heap h;
    valid = record {
      heap = rw r.size r.heap;
      bounded = omega (arith, r.size, r.capacity, v.bounded);
    };
    same =
        λ p. rw (r.size, e, tally_suc p q.heap n) (omega (arith, r.same p, tally-moved q.heap n p));
    size = omega (arith, r.size);
    capacity = r.capacity;
  }

-- On a non-empty queue an extraction runs inside the array; it returns the value of an entry with
-- the lowest priority value, and leaves a valid queue of exactly the other entries.
pub extract_min-least :
    (q : PriorityQueue)
    → IsValid q
    → 0 < q.size
    → Ensures (Extracted q) (priorityqueue_extract_min q)
unfolding priorityqueue_extract_min
extract_min-least q v h =
    let n = q.size - 1 in
    let e : q.size ≡ n + 1 = omega arith in
    let room : n < q.capacity = omega (arith, v.bounded) in
    let shrunk : PriorityQueue = record q { size = n } in
    Ensures-if (q.size == 0) (λ z. absurd (ground arith))
      (λ _.
        rw
          (
            load-ok shrunk 0 (omega arith),
            load-ok shrunk n room,
            store-ok shrunk 0 (omega arith) (q.heap n),
          )
          (Ensures-bind
            (heapify_restores (n + 1)
              (record { heap = moved q.heap n; size = n; capacity = q.capacity }) 0 room
              (omega arith) (omega arith) (moved-DownInv q.heap n (rw e at v.heap)))
            λ q' r. ensures (extracted q v n e q' r)))
