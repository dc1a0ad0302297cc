-- ===== src/PriorityQueue/Remove.antt =====
-- `priorityqueue_remove`.
use quark_kernel.Base.{
  ℕ, zero, suc, ◌+◌, ◌-◌, ◌≤◌, ◌<◌, ◌≡◌, refl, ◌≢◌, Bool, false, some, arith, ◌==◌, Bool-cases, inl,
  inr, ==_iff, ==_refl, not-==→ne,
}
use quark_kernel.Base.Fault.{Ensures, ensures, Ensures-bind}
use quark_kernel.Status.{enone, eoutofbounds}
use quark_kernel.PriorityQueue.{
  Node, PriorityQueue, update, remove_at, remove_from, priorityqueue_remove,
}
use quark_kernel.PriorityQueue.Bag.{bit, tally, tally-update, tally-update_ge, tally_suc}
use quark_kernel.PriorityQueue.Order.{parent, key, IsHeap, IsValid, Restored, load-ok, store-ok}
use quark_kernel.PriorityQueue.Heapify.{DownInv, heapify_restores}

-- No entry from `j` up to `i` has the value.
abbrev pub NoneBefore : PriorityQueue → ℕ → ℕ → ℕ → Type 0
NoneBefore q value j i = (k : ℕ) → j ≤ k → k < i → (q.heap k).value ≢ value

pub remove_from-found :
    (rounds : ℕ) (q : PriorityQueue) (j i value : ℕ)
    → q.size ≤ q.capacity
    → j + rounds ≡ q.size
    → j ≤ i
    → i < q.size
    → NoneBefore q value j i
    → (q.heap i).value ≡ value
    → remove_from rounds q j value ≡ remove_at q i
unfolding remove_from
remove_from-found zero q j i value b e le lt absent hit = absurd (omega arith)
remove_from-found (suc rounds) q j i value b e le lt absent hit =
    rw (load-ok q j (omega arith)) (elim (Bool-cases (j == i)) [
      | inl same ↦ let at : j ≡ i = (==_iff j i).0 same in rw (at, hit, ==_refl)
      | inr other ↦
          let ne : ((q.heap j).value == value) ≡ false =
            ground (arith, absent j, not-==→ne j i other) in
          rw ne (
            remove_from-found rounds q (j + 1) i value b (omega arith)
              (omega (arith, not-==→ne j i other)) lt (λ k p r. absent k (omega arith) r) hit)
    ])

remove_from-missing :
    (rounds : ℕ) (q : PriorityQueue) (j value : ℕ)
    → q.size ≤ q.capacity
    → j + rounds ≡ q.size
    → NoneBefore q value j q.size
    → remove_from rounds q j value ≡ some (eoutofbounds, q)
unfolding remove_from
remove_from-missing zero q j value b e absent = refl
remove_from-missing (suc rounds) q j value b e absent =
    let ne : ((q.heap j).value == value) ≡ false = ground (arith, absent j) in
    rw (load-ok q j (omega arith), ne)
      (remove_from-missing rounds q (j + 1) value b (omega arith)
        (λ k p r. absent k (omega arith) r))

-- The removal of a value that no entry has reports so, and changes nothing.
pub remove-missing :
    (q : PriorityQueue) (value : ℕ)
    → q.size ≤ q.capacity
    → NoneBefore q value 0 q.size
    → priorityqueue_remove q value ≡ some (eoutofbounds, q)
unfolding priorityqueue_remove
remove-missing q value b absent = remove_from-missing q.size q 0 value b (omega arith) absent

-- What the removal of the entry at `i` leaves: a valid queue of exactly the other entries.
pub record Removed (q : PriorityQueue) (i : ℕ) (r : ℕ × PriorityQueue) : Type 0 where
  pub status : r.0 ≡ enone
  pub valid : IsValid r.1
  pub same :
      (p : Node → Bool) → tally p r.1.heap r.1.size + bit (p (q.heap i)) ≡ tally p q.heap q.size
  pub size : r.1.size + 1 ≡ q.size
  pub capacity : r.1.capacity ≡ q.capacity

-- The last entry moves to the place `i`.
module _ (heap : ℕ → Node) (n i : ℕ) where
  abbrev moved : ℕ → Node
  moved = update heap i (heap n)

  moved-DownInv :
      IsHeap heap (n + 1) → i ≤ n → (0 < i → key heap (parent i) ≤ key heap n) → DownInv moved n i
  moved-DownInv h le above = record {
    edges = λ c p q ne. ground (arith, h c, above);
    bridged = λ c p q e p'. ground (arith, h c, h i);
    stale = ground arith;
  }

  tally-moved :
      (p : Node → Bool)
      → i ≤ n
      → tally p moved n + bit (p (heap i)) ≡ tally p heap n + bit (p (heap n))
  tally-moved p le = elim (Bool-cases (i == n)) [
    | inl e ↦
        let z : i ≡ n = (==_iff i n).0 e in
        rw (z, tally-update_ge p heap n (heap n) n (omega arith))
    | inr e ↦ tally-update p heap i (heap n) n (omega (arith, not-==→ne i n e))
  ]

module _ (q : PriorityQueue) (v : IsValid q) (i n : ℕ) (le : i ≤ n) (e : q.size ≡ n + 1) where
  removed :
      (q' : PriorityQueue)
      → Restored (record { heap = moved q.heap n i; size = n; capacity = q.capacity }) q'
      → Removed q i (enone, q')
  removed q' r = record {
    status = refl;
    valid = record {
      heap = rw r.size r.heap;
      bounded = omega (arith, r.size, r.capacity, v.bounded);
    };
    same = λ p.
        rw (r.size, e, tally_suc p q.heap n) (omega (arith, r.same p, tally-moved q.heap n i p le));
    size = omega (arith, r.size);
    capacity = r.capacity;
  }

-- The removal of a value whose first entry is at `i`: it runs inside the array, and leaves a valid
-- queue of exactly the other entries, provided that the last entry, which takes the place, has no
-- lower priority value than the parent of that place.
pub remove-Removed :
    (q : PriorityQueue) (value i : ℕ)
    → IsValid q
    → i < q.size
    → NoneBefore q value 0 i
    → (q.heap i).value ≡ value
    → (0 < i → key q.heap (parent i) ≤ key q.heap (q.size - 1))
    → Ensures (Removed q i) (priorityqueue_remove q value)
unfolding priorityqueue_remove remove_at
remove-Removed q value i v lt absent hit above =
    let n = q.size - 1 in
    let e : q.size ≡ n + 1 = omega arith in
    let room : n < q.capacity = omega (arith, v.bounded) in
    let shrunk : PriorityQueue = record q { size = n } in
    rw
      (
        remove_from-found q.size q 0 i value v.bounded (omega arith) (omega arith) lt absent hit,
        remove_at,
        load-ok shrunk n room,
        store-ok shrunk i (omega arith) (q.heap n),
      )
      (Ensures-bind
        (heapify_restores (n + 1)
          (record { heap = moved q.heap n i; size = n; capacity = q.capacity }) i room (omega arith)
          (omega arith) (moved-DownInv q.heap n i (rw e at v.heap) (omega arith) above))
        λ q' r. ensures (removed q v i n (omega arith) e q' r))
