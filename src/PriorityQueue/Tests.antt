-- ===== src/PriorityQueue/Tests.antt =====
-- Runs of src/priorityqueue.c, and its theorems at a concrete queue.
use quark_kernel.Base.{ℕ, ◌≡◌, refl, Option, some, arith, ◌==◌, if◌then◌else◌}
use quark_kernel.Base.Fault.{◌>>=◌, Ensures}
use quark_kernel.PriorityQueue.{
  Node, PriorityQueue, load, store, exchange, heapify, construct_priority_queue,
  priorityqueue_extract_min, sift_up, priorityqueue_insert, priorityqueue_remove,
}
use quark_kernel.PriorityQueue.Order.{IsValid}
use quark_kernel.PriorityQueue.ExtractMin.{Extracted, extract_min-least}
use quark_kernel.PriorityQueue.Insert.{Inserted, insert-Inserted}
use quark_kernel.PriorityQueue.Remove.{Removed, remove-Removed}

abbrev entry : ℕ → ℕ → Node
entry value priority = record { value = value; priority = priority }

abbrev empty : PriorityQueue
empty =
    (construct_priority_queue (some (λ i. entry 0 0))
      (record { heap = λ i. entry 0 0; size = 0; capacity = 0 }) 8).1

-- The priorities 1, 10, 2, 11, 12, 3 in six of eight cells: a heap.
abbrev cells : ℕ → Node
cells i =
    if i == 0
    then entry 100 1
    else if i == 1
    then entry 101 10
    else if i == 2
    then entry 102 2
    else if i == 3
    then entry 103 11
    else if i == 4
    then entry 104 12
    else entry 105 3

abbrev sample : PriorityQueue
sample = record { heap = cells; size = 6; capacity = 8 }

-- Two extractions in order of priority.
extract_two : PriorityQueue → Option (ℕ × ℕ × ℕ)
unfolding priorityqueue_extract_min load store exchange heapify
extract_two p = do
  (a, q) ← priorityqueue_extract_min p
  (b, r) ← priorityqueue_extract_min q
  some (a, b, r.size)

two_extractions : extract_two sample ≡ some (100, 102, 4)
unfolding extract_two
two_extractions = refl

-- Entries of one priority do not come out in the order of their insertion.
equal_priorities : Option (ℕ × ℕ × ℕ)
unfolding priorityqueue_insert sift_up extract_two load store
equal_priorities = do
  (_, q) ← priorityqueue_insert empty 1 5
  (_, r) ← priorityqueue_insert q 2 5
  (_, s) ← priorityqueue_insert r 3 5
  (_, t) ← priorityqueue_insert s 4 5
  (_, u) ← priorityqueue_extract_min t
  extract_two u

unstable : equal_priorities ≡ some (2, 4, 1)
unfolding equal_priorities construct_priority_queue
unstable = refl

sample-IsValid : IsValid sample
sample-IsValid = record { heap = λ c p q. ground arith; bounded = omega arith }

extract_min-least_example : Ensures (Extracted sample) (priorityqueue_extract_min sample)
extract_min-least_example = extract_min-least sample sample-IsValid (omega arith)

insert-Inserted_example : Ensures (Inserted sample (entry 7 4)) (priorityqueue_insert sample 7 4)
insert-Inserted_example = insert-Inserted sample 7 4 sample-IsValid (omega arith)

remove-Removed_example : Ensures (Removed sample 2) (priorityqueue_remove sample 102)
remove-Removed_example =
    remove-Removed sample 102 2 sample-IsValid (omega arith) (λ k p q. ground arith) refl
      (λ h. omega arith)
