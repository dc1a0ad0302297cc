-- ===== src/PriorityQueue/Misplaced.antt =====
-- Where `priorityqueue_remove` goes wrong: the entry that takes the free place only ever sinks.
use quark_kernel.Base.{
  ℕ, zero, suc, ◌+◌, ◌-◌, ◌*◌, ◌≤◌, ◌<◌, ◌≡◌, some, arith, leb, leb→le, not-leb→lt, ◌&&◌, and-leb,
}
use quark_kernel.Base.Fault.{Ensures, ensures, Ensures-if, Ensures-bind, Ensures-and}
use quark_kernel.PriorityQueue.{PriorityQueue, update, heapify, remove_at, priorityqueue_remove}
use quark_kernel.PriorityQueue.Order.{parent, key, IsHeap, IsValid, load-ok, store-ok, exchange-ok}
use quark_kernel.PriorityQueue.Remove.{NoneBefore, remove_from-found}

heapify_childless :
    (fuel : ℕ) (q : PriorityQueue) (i : ℕ)
    → 0 < fuel
    → q.size ≤ i * 2 + 1
    → heapify fuel q i ≡ some q
unfolding heapify
heapify_childless zero q i f h = absurd (omega arith)
heapify_childless (suc fuel) q i f h = ground arith

-- The entry at `i` is below its parent.
abbrev BelowParent : ℕ → PriorityQueue → Type 0
BelowParent i q = (i < q.size) × (key q.heap i < key q.heap (parent i))

-- An entry that is smaller than its children stays where it is.
stays :
    (fuel : ℕ) (q : PriorityQueue) (i : ℕ)
    → 1 < fuel
    → q.size < q.capacity
    → 0 < i
    → BelowParent i q
    → q.heap q.size ≡ q.heap i
    → ((c : ℕ) → c < q.size → parent c ≡ i → 0 < c → key q.heap i < key q.heap c)
    → Ensures (BelowParent i) (heapify fuel q i)
unfolding heapify
stays zero q i f room pos b stale small = absurd (omega arith)
stays (suc fuel) q i f room pos b stale small =
    let left = i * 2 + 1 in
    let right = i * 2 + 2 in
    let heap = q.heap in
    Ensures-if (leb q.size left) (λ _. ensures b)
      (λ e.
        let inside : left < q.size = not-leb→lt _ _ e in
        let lower = small left inside (omega arith) (omega arith) in
        rw (load-ok q left (omega arith), load-ok q i (omega arith), load-ok q right (omega arith))
          (Ensures-and (leb (key heap left) (key heap i)) (leb (key heap left) (key heap right))
            (λ e1 _. absurd (omega (arith, leb→le (key heap left) (key heap i) e1)))
            (λ _.
              Ensures-if (leb (key heap right) (key heap i) && leb (key heap right) (key heap left))
                (λ e2.
                  let le = (and-leb (key heap right) (key heap i) (key heap left) e2).0 in
                  let at : right ≡ q.size = at_end q i inside small le in
                  rw
                    (
                      exchange-ok q i right (omega arith) (omega arith),
                      heapify_childless fuel
                          (record q {
                            heap = update (update q.heap i (q.heap right)) right (q.heap i);
                          })
                          right (omega arith) (omega arith),
                    )
                    (ensures (b.0, kept q i right b at stale)))
                (λ _. ensures b))))
  where
    at_end :
        (q : PriorityQueue) (i : ℕ)
        → i * 2 + 1 < q.size
        → ((c : ℕ) → c < q.size → parent c ≡ i → 0 < c → key q.heap i < key q.heap c)
        → key q.heap (i * 2 + 2) ≤ key q.heap i
        → i * 2 + 2 ≡ q.size
    at_end q i inside small le = ground (arith, small (i * 2 + 2))

    kept :
        (q : PriorityQueue) (i j : ℕ)
        → BelowParent i q
        → j ≡ q.size
        → q.heap q.size ≡ q.heap i
        → key (update (update q.heap i (q.heap j)) j (q.heap i)) i
          < key (update (update q.heap i (q.heap j)) j (q.heap i)) (parent i)
    kept q i j b e stale = ground arith

-- The queue after the move of the last entry.
module _ (q : PriorityQueue) (i n : ℕ) where
  moved_low :
      i < n
      → 0 < i
      → key q.heap n < key q.heap (parent i)
      → key (update q.heap i (q.heap n)) i < key (update q.heap i (q.heap n)) (parent i)
  moved_low lt pos low = ground arith

  moved_stale : i < n → update q.heap i (q.heap n) n ≡ update q.heap i (q.heap n) i
  moved_stale lt = ground arith

  moved_small :
      IsValid q
      → n < q.size
      → 0 < i
      → key q.heap n < key q.heap (parent i)
      → (c : ℕ) → c < n
      → parent c ≡ i
      → 0 < c
      → key (update q.heap i (q.heap n)) i < key (update q.heap i (q.heap n)) c
  moved_small v le pos low c lt up p = ground (arith, v.heap c, v.heap i)

-- If the last entry has a lower priority value than the parent of the place of the removed entry,
-- the removal runs, and what it leaves is not a heap.
pub remove-misplaced :
    (q : PriorityQueue) (value i : ℕ)
    → IsValid q
    → 0 < i
    → i < q.size - 1
    → NoneBefore q value 0 i
    → (q.heap i).value ≡ value
    → key q.heap (q.size - 1) < key q.heap (parent i)
    → Ensures (λ r. ¬ IsHeap r.1.heap r.1.size) (priorityqueue_remove q value)
unfolding priorityqueue_remove remove_at
remove-misplaced q value i v pos lt absent hit low =
    let n = q.size - 1 in
    let room : n < q.capacity = omega (arith, v.bounded) in
    let shrunk : PriorityQueue = record q { size = n } in
    rw
      (
        remove_from-found q.size q 0 i value v.bounded (omega arith) (omega arith) (omega arith)
            absent hit,
        remove_at,
        load-ok shrunk n room,
        store-ok shrunk i (omega arith) (q.heap n),
      )
      (Ensures-bind
        (stays (n + 1)
          (record { heap = update q.heap i (q.heap n); size = n; capacity = q.capacity }) i
          (omega arith) room pos (lt, moved_low q i n lt pos low) (moved_stale q i n lt)
          (moved_small q i n v (omega arith) pos low))
        λ q' b. ensures (λ h. absurd (omega (arith, h i pos b.0))))
