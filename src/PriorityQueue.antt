-- ===== src/PriorityQueue.antt =====
-- src/priorityqueue.c, include/priorityqueue.h: a binary min-heap in an array of fixed capacity.
-- `none` is a fault, a read past the allocated array, or the model's fuel running out.
-- A priority is an `int`, held as its offset from INT_MIN.
-- Values are pointers, held as numbers, with NULL as 0.
pub mod Bag
pub mod Order
pub mod Heapify
pub mod ExtractMin
pub mod Insert
pub mod Remove
pub mod Misplaced
mod Tests
use quark_kernel.Base.{
  ℕ, zero, suc, ◌+◌, ◌-◌, ◌*◌, ◌/◌, ◌&&◌, Bool, true, false, Option, none, some, ltb, leb, ◌==◌,
  if◌then◌else◌,
}
use quark_kernel.Base.Fault.{◌>>=◌, short_and}
use quark_kernel.Status.{enone, enomem, eoutofbounds}

pub record Node : Type 0 where
  pub value : ℕ
  pub priority : ℕ

-- The array is a function of the index; `load` faults at an index past the capacity. Cells at
-- `size` and above keep what was last stored there.
pub record PriorityQueue : Type 0 where
  pub heap : ℕ → Node
  pub size : ℕ
  pub capacity : ℕ

abbrev pub update : (ℕ → Node) → ℕ → Node → ℕ → Node
update heap i v j = if i == j then v else heap j

unfoldable pub load : PriorityQueue → ℕ → Option Node
load q i = if ltb i q.capacity then some (q.heap i) else none

-- `queue->heap[i] = v`
unfoldable pub store : PriorityQueue → ℕ → Node → Option PriorityQueue
store q i v = if ltb i q.capacity then some (record q { heap = update q.heap i v }) else none

-- The exchange of two cells through `buffer`.
unfoldable pub exchange : PriorityQueue → ℕ → ℕ → Option PriorityQueue
exchange q i j = do buffer ← load q i; child ← load q j; q' ← store q i child; store q' j buffer

unfoldable pub heapify : ℕ → PriorityQueue → ℕ → Option PriorityQueue
heapify zero q i = none
heapify (suc fuel) q i =
    let go_left = exchange q i (i * 2 + 1) >>= λ q'. heapify fuel q' (i * 2 + 1) in
    let go_right = exchange q i (i * 2 + 2) >>= λ q'. heapify fuel q' (i * 2 + 2) in
    let branch : Option PriorityQueue = do
      left ← load q (i * 2 + 1)
      node ← load q i
      smaller_left ←
          short_and (leb left.priority node.priority)
            (load q (i * 2 + 2) >>= λ right. some (leb left.priority right.priority))
      if smaller_left then go_left else do
        right ← load q (i * 2 + 2)
        if leb right.priority node.priority && leb right.priority left.priority
            then go_right
            else some q
    in if leb q.size (i * 2 + 1) then some q else branch

-- `kmalloc` hands out the array, or not; what the array holds is left open.
unfoldable pub construct_priority_queue :
    (memory : Option (ℕ → Node)) → PriorityQueue → ℕ → ℕ × PriorityQueue
construct_priority_queue none q capacity = (enomem, q)
construct_priority_queue (some heap) q capacity =
    (enone, record { heap = heap; size = 0; capacity = capacity })

-- An extraction returns the value and the queue; NULL is 0.
unfoldable pub priorityqueue_extract_min : PriorityQueue → Option (ℕ × PriorityQueue)
priorityqueue_extract_min q = if q.size == 0 then some (0, q) else do
  let n = q.size - 1
  let shrunk = record q { size = n }
  top ← load shrunk 0
  last ← load shrunk n
  moved ← store shrunk 0 last
  q' ← heapify (n + 1) moved 0
  some (top.value, q')

-- The loop of an insertion, which moves parents down, up to the store in the free cell.
unfoldable pub sift_up : ℕ → PriorityQueue → ℕ → Node → Option PriorityQueue
sift_up zero q i new = none
sift_up (suc fuel) q i new =
    let rise : Option PriorityQueue = do
      parent ← load q ((i - 1) / 2)
      q' ← store q i parent
      sift_up fuel q' ((i - 1) / 2) new
    in do
      higher ←
          short_and (ltb 0 i)
            (load q ((i - 1) / 2) >>= λ parent. some (ltb new.priority parent.priority))
      if higher then rise else store q i new

unfoldable pub priorityqueue_insert : PriorityQueue → ℕ → ℕ → Option (ℕ × PriorityQueue)
priorityqueue_insert q value priority = if q.size == q.capacity then some (enomem, q) else do
  let i = q.size
  let grown = record q { size = q.size + 1 }
  q' ← sift_up (i + 1) grown i (record { value = value; priority = priority })
  some (enone, q')

-- The body of the removal's `if`, at the entry that is found.
unfoldable pub remove_at : PriorityQueue → ℕ → Option (ℕ × PriorityQueue)
remove_at q i = do
  let n = q.size - 1
  let shrunk = record q { size = n }
  last ← load shrunk n
  moved ← store shrunk i last
  q' ← heapify (n + 1) moved i
  some (enone, q')

-- The loop over the entries from `i`, with `rounds` entries left.
unfoldable pub remove_from : ℕ → PriorityQueue → ℕ → ℕ → Option (ℕ × PriorityQueue)
remove_from zero q i value = some (eoutofbounds, q)
remove_from (suc rounds) q i value =
    let next = remove_from rounds q (i + 1) value in
    do entry ← load q i; if entry.value == value then remove_at q i else next

unfoldable pub priorityqueue_remove : PriorityQueue → ℕ → Option (ℕ × PriorityQueue)
priorityqueue_remove q value = remove_from q.size q 0 value
