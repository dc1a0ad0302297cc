-- ===== src/Queue/Tests.antt =====
-- The theorems on src/queue.c at a concrete queue.
use quark_kernel.Base.{◌≡◌, refl, [], ◌∷◌, none, some, arith, ◌==◌, if◌then◌else◌}
use quark_kernel.Base.Fault.{Ensures}
use quark_kernel.Queue.{Queue, queue_insert, queue_get_next, queue_peek}
use quark_kernel.Queue.Fifo.{Holds, insert-Holds, get_next-Holds, empty_queue}

-- Two items, 7 and 8, in the nodes at 100 and 200.
abbrev two_items : Queue
two_items = record {
  first = 100;
  last = 200;
  count = 2;
  nodes = λ p.
      if p == 100
      then some (record { ptr = 7; next = 200 })
      else if p == 200
      then some (record { ptr = 8; next = 0 })
      else none;
}

two_items-Holds : Holds two_items ((100, 7) ∷ (200, 8) ∷ [])
two_items-Holds = record {
  first = refl;
  last = refl;
  count = refl;
  linked = (omega arith, refl, (omega arith, tt), (omega arith, refl, tt, tt));
}

insert-Holds_example :
    Ensures
      (λ r. (r.0 ≡ 0) × Holds r.1 ((100, 7) ∷ (200, 8) ∷ (300, 9) ∷ []))
      (queue_insert 300 two_items 9)
insert-Holds_example =
    insert-Holds two_items ((100, 7) ∷ (200, 8) ∷ []) 300 9 two_items-Holds (omega arith) refl

get_next-Holds_example :
    Ensures
      (λ r. (r.0 ≡ 7) × Holds r.1 ((200, 8) ∷ []) × (r.1.nodes 100 ≡ none))
      (queue_get_next two_items)
get_next-Holds_example = get_next-Holds two_items 100 7 ((200, 8) ∷ []) two_items-Holds

abbrev no_items : Queue
no_items = record { first = 0; last = 0; count = 0; nodes = λ p. none }

no_items_next : (queue_get_next no_items ≡ some (0, no_items)) × (queue_peek no_items ≡ none)
no_items_next =
    empty_queue no_items (record { first = refl; last = refl; count = refl; linked = tt }) refl
