-- ===== src/PriorityQueue/Order.antt =====
-- The heap order, and the accesses that stay inside the array.
use quark_kernel.Base.{ℕ, zero, suc, ◌-◌, ◌/◌, ◌≤◌, ◌<◌, ◌≡◌, Bool, some, arith}
use quark_kernel.PriorityQueue.{Node, PriorityQueue, update, load, store, exchange}
use quark_kernel.PriorityQueue.Bag.{tally}

abbrev pub parent : ℕ → ℕ
parent c = (c - 1) / 2

abbrev pub key : (ℕ → Node) → ℕ → ℕ
key heap i = (heap i).priority

-- No entry has a lower priority value than its parent.
abbrev pub IsHeap : (ℕ → Node) → ℕ → Type 0
IsHeap heap n = (c : ℕ) → 0 < c → c < n → key heap (parent c) ≤ key heap c

pub record IsValid (q : PriorityQueue) : Type 0 where
  pub heap : IsHeap q.heap q.size
  pub bounded : q.size ≤ q.capacity

root_least_below :
    (k : ℕ) (heap : ℕ → Node) (n i : ℕ) → IsHeap heap n → i < k → i < n → key heap 0 ≤ key heap i
root_least_below zero heap n i h f p = absurd (omega arith)
root_least_below (suc k) heap n i h f p =
    ground (arith, h i, root_least_below k heap n (parent i) h)

-- The root of a heap has the lowest priority value.
pub root_least : (heap : ℕ → Node) (n i : ℕ) → IsHeap heap n → i < n → key heap 0 ≤ key heap i
root_least heap n i h p = root_least_below (suc i) heap n i h (omega arith) p

module _ (q : PriorityQueue) (i : ℕ) (h : i < q.capacity) where
  pub load-ok : load q i ≡ some (q.heap i)
  unfolding load
  load-ok = ground arith

  pub store-ok : (v : Node) → store q i v ≡ some (record q { heap = update q.heap i v })
  unfolding store
  store-ok v = ground arith

pub exchange-ok :
    (q : PriorityQueue) (i j : ℕ)
    → i < q.capacity
    → j < q.capacity
    → exchange q i j ≡ some (record q { heap = update (update q.heap i (q.heap j)) j (q.heap i) })
unfolding exchange
exchange-ok q i j hi hj =
    rw (load-ok q i hi, load-ok q j hj, store-ok q i hi (q.heap j))
      (store-ok (record q { heap = update q.heap i (q.heap j) }) j hj (q.heap i))

-- `q'` is a heap of exactly the entries of `q`, in the same array.
pub record Restored (q q' : PriorityQueue) : Type 0 where
  pub heap : IsHeap q'.heap q.size
  pub same : (p : Node → Bool) → tally p q'.heap q.size ≡ tally p q.heap q.size
  pub size : q'.size ≡ q.size
  pub capacity : q'.capacity ≡ q.capacity
