-- ===== src/Queue/Fifo.antt =====
-- The queue as a list of items, the next one first.
use quark_kernel.Base.{
  ℕ, ◌≡◌, ◌≢◌, refl, sym, ap, ◌∙◌, ==_refl, ==_iff, ne→not-==, ◌==◌, Option, none, some, List, [],
  ◌∷◌, ◌++◌, length, length-append, All, All-append, arith, if◌then◌else◌,
}
use quark_kernel.Base.Fault.{Ensures, ensures}
use quark_kernel.Status.{enone}
use quark_kernel.Queue.{
  QueueNode, Queue, write, queue_construct, queue_insert, queue_get_next, queue_peek,
}

-- The cells of a queue, from the first: each with the address of its node and its item.
abbrev pub Cells : Type 0
Cells = List (ℕ × ℕ)

abbrev pub head : Cells → ℕ
head [] = 0
head (c ∷ cs) = c.0

abbrev pub last_from : ℕ → Cells → ℕ
last_from a [] = a
last_from a (c ∷ cs) = last_from c.0 cs

abbrev pub Avoids : ℕ → Cells → Type 0
Avoids a cs = All (λ c. c.0 ≢ a) cs

-- The nodes of the cells are in memory, linked in this order, and no two are the same.
abbrev pub Linked : (ℕ → Option QueueNode) → Cells → Type 0
Linked nodes [] = Unit
Linked nodes (c ∷ cs) =
    (c.0 ≢ 0)
    × (nodes c.0 ≡ some (record { ptr = c.1; next = head cs }))
    × Avoids c.0 cs
    × Linked nodes cs

pub record Holds (q : Queue) (cs : Cells) : Type 0 where
  pub first : q.first ≡ head cs
  pub last : q.last ≡ last_from 0 cs
  pub count : q.count ≡ length cs
  pub linked : Linked q.nodes cs

-- A write elsewhere keeps the links.
write-Linked :
    (nodes : ℕ → Option QueueNode) (p : ℕ) (v : Option QueueNode) (cs : Cells)
    → Avoids p cs
    → Linked nodes cs
    → Linked (write nodes p v) cs
write-Linked nodes p v [] h l = tt
write-Linked nodes p v (c ∷ cs) h l =
    (l.0, rw (ne→not-== c.0 p h.0) l.1, l.2, write-Linked nodes p v cs h.1 l.3)

-- A free node is none of the queue's.
free-Avoids :
    (nodes : ℕ → Option QueueNode) (p : ℕ) (cs : Cells)
    → nodes p ≡ none
    → Linked nodes cs
    → Avoids p cs
free-Avoids nodes p [] e l = tt
free-Avoids nodes p (c ∷ cs) e l =
    (λ z. grind (arith, sym l.1 ∙ ap nodes z ∙ e), free-Avoids nodes p cs e l.3)

last_ne : (a b : ℕ) (cs : Cells) → b ≢ a → Avoids a cs → last_from b cs ≢ a
last_ne a b [] n h = n
last_ne a b (c ∷ cs) n h = last_ne a c.0 cs h.0 h.1

module _ (node ptr : ℕ) where
  abbrev new_node : QueueNode
  new_node = record { ptr = ptr; next = 0 }

  -- The last node of a queue that is not empty is in memory, and a link from it to the new node
  -- appends the new cell.
  append-Linked :
      (nodes : ℕ → Option QueueNode) (a x : ℕ) (cs : Cells)
      → node ≢ 0
      → nodes node ≡ some new_node
      → Avoids node ((a, x) ∷ cs)
      → Linked nodes ((a, x) ∷ cs)
      → (y : ℕ) × (nodes (last_from a cs) ≡ some (record { ptr = y; next = 0 }))
        × Linked
            (write nodes (last_from a cs) (some (record { ptr = y; next = node })))
            ((a, x) ∷ cs ++ (node, ptr) ∷ [])
  append-Linked nodes a x [] present new (ne, u) (p, e, v, w) = (
    x,
    e,
    (
      p,
      rw (==_refl a) refl,
      ((λ z. ne (sym z), tt)),
      (present, rw (ne→not-== node a (λ z. ne (sym z))) new, tt, tt),
    ),
  )
  append-Linked nodes a x (c ∷ cs) present new (ne, h) (p, e, v, w) =
      let (y, here, rest) = append-Linked nodes c.0 c.1 cs present new h w in
      (
        y,
        here,
        (
          p,
          rw (ne→not-== a (last_from c.0 cs) (λ z. last_ne a c.0 cs v.0 v.1 (sym z))) e,
          (v.0, All-append (λ d. d.0 ≢ a) cs ((node, ptr) ∷ []) v.1 ((λ z. ne (sym z)), tt)),
          rest,
        ),
      )

present-cells : (nodes : ℕ → Option QueueNode) (cs : Cells) → Linked nodes cs → Avoids 0 cs
present-cells nodes [] l = tt
present-cells nodes (c ∷ cs) l = (l.0, present-cells nodes cs l.3)

last_from-append : (a node ptr : ℕ) (cs : Cells) → last_from a (cs ++ (node, ptr) ∷ []) ≡ node
last_from-append a node ptr [] = refl
last_from-append a node ptr (c ∷ cs) = last_from-append c.0 node ptr cs

-- A new queue holds nothing; whatever is in memory stays.
pub construct-Holds : (q : Queue) → Holds (queue_construct q) []
unfolding queue_construct
construct-Holds q = record { first = refl; last = refl; count = refl; linked = tt }

-- An insertion into a queue, with a node to be had that is not in use, reports success and puts
-- the item behind the others.
pub insert-Holds :
    (q : Queue) (cs : Cells) (node ptr : ℕ)
    → Holds q cs
    → node ≢ 0
    → q.nodes node ≡ none
    → Ensures (λ r. (r.0 ≡ enone) × Holds r.1 (cs ++ (node, ptr) ∷ [])) (queue_insert node q ptr)
unfolding queue_insert
insert-Holds q [] node ptr h present free =
    rw (ne→not-== node 0 present, (==_iff q.last 0).1 h.last)
      (ensures (
        refl,
        record {
          first = refl;
          last = refl;
          count = omega (arith, h.count);
          linked = (present, rw (==_refl node) refl, tt, tt);
        },
      ))
insert-Holds q ((a, x) ∷ cs) node ptr h present free =
    let nodes = write q.nodes node (some (new_node node ptr)) in
    let avoids = free-Avoids q.nodes node ((a, x) ∷ cs) free h.linked in
    let all = present-cells q.nodes ((a, x) ∷ cs) h.linked in
    let (y, here, linked) =
      append-Linked node ptr nodes a x cs present (rw (==_refl node) refl) avoids
        (write-Linked q.nodes node (some (new_node node ptr)) ((a, x) ∷ cs) avoids h.linked) in
    rw
      (
        ne→not-== node 0 present,
        h.last,
        ne→not-== (last_from a cs) 0 (last_ne 0 a cs all.0 all.1),
        here,
      )
      (ensures (
        refl,
        record {
          first = h.first;
          last = sym (last_from-append a node ptr cs);
          count = rw (length-append cs ((node, ptr) ∷ [])) (omega (arith, h.count));
          linked = linked;
        },
      ))

-- `queue_get_next` on a queue that is not empty returns the item that was inserted first, frees
-- its node, and leaves the other items in their order.
pub get_next-Holds :
    (q : Queue) (a x : ℕ) (cs : Cells)
    → Holds q ((a, x) ∷ cs)
    → Ensures (λ r. (r.0 ≡ x) × Holds r.1 cs × (r.1.nodes a ≡ none)) (queue_get_next q)
unfolding queue_get_next
get_next-Holds q a x cs h =
    let (present, here, avoids, linked) = h.linked in
    rw (h.first, ne→not-== a 0 present, here)
      (ensures (
        refl,
        record {
          first = refl;
          last = last_after cs (present-cells q.nodes cs linked) h.last;
          count = omega (arith, h.count);
          linked = write-Linked q.nodes a none cs avoids linked;
        },
        rw (==_refl a) refl,
      ))
  where
    last_after :
        (cs : Cells)
        → Avoids 0 cs
        → q.last ≡ last_from a cs
        → (if head cs == 0 then 0 else q.last) ≡ last_from 0 cs
    last_after [] h e = refl
    last_after (c ∷ cs) h e = rw (ne→not-== c.0 0 h.0) e

-- On an empty queue `queue_get_next` returns NULL and changes nothing, and `queue_peek` reads
-- through NULL, where no node is.
pub empty_queue :
    (q : Queue)
    → Holds q []
    → q.nodes 0 ≡ none
    → (queue_get_next q ≡ some (0, q)) × (queue_peek q ≡ none)
unfolding queue_get_next queue_peek
empty_queue q h e = (rw ((==_iff q.first 0).1 h.first) refl, rw (h.first, e) refl)
