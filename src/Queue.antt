-- ===== src/Queue.antt =====
-- src/queue.c, include/queue.h: a linked queue of items. `nodes` is the part of the memory that
-- holds the nodes, where a node that is not allocated is `none`, and an access to it is a fault.
-- Items are pointers, held as numbers, with NULL as 0.
pub mod Fifo
mod Tests
use quark_kernel.Base.{ℕ, ◌+◌, ◌-◌, Option, none, some, ◌==◌, if◌then◌else◌}
use quark_kernel.Base.Fault.{◌>>=◌}
use quark_kernel.Status.{enone, enomem}

pub record QueueNode : Type 0 where
  pub ptr : ℕ
  pub next : ℕ

pub record Queue : Type 0 where
  pub first : ℕ
  pub last : ℕ
  pub count : ℕ
  pub nodes : ℕ → Option QueueNode

abbrev pub write : (ℕ → Option QueueNode) → ℕ → Option QueueNode → ℕ → Option QueueNode
write nodes p v q = if q == p then v else nodes q

unfoldable pub queue_construct : Queue → Queue
queue_construct queue = record queue { first = 0; last = 0; count = 0 }

-- `node` is what `kmalloc` returns.
unfoldable pub queue_insert : (node : ℕ) → Queue → ℕ → Option (ℕ × Queue)
queue_insert node queue ptr =
    let nodes = write queue.nodes node (some (record { ptr = ptr; next = 0 })) in
    let link : Option (ℕ → Option QueueNode) = do
      last ← nodes queue.last
      some (write nodes queue.last (some (record last { next = node })))
    in if node == 0
      then some (enomem, queue)
      else if queue.last == 0
      then some
          (enone, record { first = node; last = node; count = queue.count + 1; nodes = nodes })
      else (do
        linked ← link
        some (enone, record queue { last = node; count = queue.count + 1; nodes = linked }))

unfoldable pub queue_get_next : Queue → Option (ℕ × Queue)
queue_get_next queue = if queue.first == 0 then some (0, queue) else do
  node ← queue.nodes queue.first
  some (
    node.ptr,
    record {
      first = node.next;
      last = if node.next == 0 then 0 else queue.last;
      count = queue.count - 1;
      nodes = write queue.nodes queue.first none;
    },
  )

unfoldable pub queue_peek : Queue → Option ℕ
queue_peek queue = do node ← queue.nodes queue.first; some node.ptr
