-- ===== src/Kernel/Ports/Laws.antt =====
-- The table of ports as a map from port ids to owners.
use quark_kernel.Base.{
  ℕ, ◌<◌, ◌^◌, ◌≡◌, ◌≢◌, refl, ◌∙◌, sym, ap, not-==→ne, ne→not-==, inl, inr, Bool-cases, ==_refl,
  ==_iff, ◌==◌, Option, none, some, arith,
}
use quark_kernel.Base.Fault.{Ensures, ensures}
use quark_kernel.Avl.{avl_get}
use quark_kernel.Avl.Entries.{IsOrdered}
use quark_kernel.Avl.Map.{without, get-remove}
use quark_kernel.Status.{enone}
use quark_kernel.Kernel.State.{Kernel, Process, Port, put, to_key}
use quark_kernel.Base.Fault.{◌>>=◌}
use quark_kernel.Kernel.Monad.{Ensures-lift}
use quark_kernel.Kernel.Ports.{kernel_remove_port, kernel_get_port_owner}

-- Two ids of 32 bits have different keys.
to_key_inj : (a b : ℕ) → a < 2 ^ 32 → b < 2 ^ 32 → to_key a ≡ to_key b → a ≡ b
unfolding to_key
to_key_inj a b p q e = omega arith

-- The port with an id: the structure that the table's entry points to.
abbrev pub port_of : Kernel → ℕ → Option Port
port_of k key = avl_get k.port_table key >>= k.ports

-- The table is ordered, its entries point to ports that are allocated, and no two to the same one.
pub record HasPorts (k : Kernel) : Type 0 where
  pub ordered : IsOrdered k.port_table
  pub allocated : (key p : ℕ) → avl_get k.port_table key ≡ some p → k.ports p ≢ none
  pub distinct :
      (key key' p : ℕ)
      → avl_get k.port_table key ≡ some p
      → avl_get k.port_table key' ≡ some p
      → key ≡ key'

-- The port `id` is there, and belongs to `pid`; the other ports are as before.
pub record Created (k : Kernel) (id pid : ℕ) (r : ℕ × Kernel) : Type 0 where
  pub status : r.0 ≡ enone
  pub owner : kernel_get_port_owner id r.1 ≡ some (pid, r.1)
  pub others :
      (other : ℕ)
      → id < 2 ^ 32
      → other < 2 ^ 32
      → other ≢ id
      → port_of r.1 (to_key other) ≡ port_of k (to_key other)
  pub valid : HasPorts r.1

-- A write at a pointer is not seen through another one.
put-elsewhere :
    (f : ℕ → Option Port) (o : Option ℕ) (p : ℕ) (w : Option Port)
    → o ≢ some p
    → o >>= put f p w ≡ o >>= f
put-elsewhere f none p w ne = refl
put-elsewhere f (some q) p w ne = elim (Bool-cases (q == p)) [
  | inl e ↦ absurd (ne (ap some ((==_iff q p).0 e)))
  | inr e ↦ rw e
]

module _ (k : Kernel) (id port : ℕ) (x : Process) (v : HasPorts k)
    (absent : avl_get k.port_table (to_key id) ≡ none) (fresh : k.ports port ≡ none) where
  abbrev opened : ℕ → Option Port
  opened = put k.ports port (some (record { id = id; owner_pid = x.pid }))

-- The port `id` is gone; the other ports are as before.
pub record Closed (k : Kernel) (id : ℕ) (r : ℕ × Kernel) : Type 0 where
  pub status : r.0 ≡ enone
  pub gone : kernel_get_port_owner id r.1 ≡ some (0, r.1)
  pub others :
      (other : ℕ)
      → id < 2 ^ 32
      → other < 2 ^ 32
      → other ≢ id
      → port_of r.1 (to_key other) ≡ port_of k (to_key other)
  pub valid : HasPorts r.1

without_inv :
    (key' key : ℕ) (o : Option ℕ) (p : ℕ)
    → without key' key o ≡ some p
    → (o ≡ some p) × (key ≢ key')
without_inv key' key o p h = elim (Bool-cases (key == key')) [
  | inl e ↦ absurd (ground (arith, h))
  | inr e ↦ (rw e at h, not-==→ne key key' e)
]

module _ (k : Kernel) (id p : ℕ) (v : HasPorts k)
    (found : avl_get k.port_table (to_key id) ≡ some p) where
  closed_port :
      (key : ℕ) → key ≢ to_key id → avl_get k.port_table key >>= put k.ports p none ≡ port_of k key
  closed_port key ne =
      put-elsewhere k.ports (avl_get k.port_table key) p none
        λ e. ne (v.distinct key (to_key id) p e found)

  closed :
      (k' : Kernel)
      → k'.ports ≡ put k.ports p none
      → IsOrdered k'.port_table
      → ((key : ℕ) → avl_get k'.port_table key ≡ without (to_key id) key (avl_get k.port_table key))
      → Closed k id (enone, k')
  unfolding kernel_get_port_owner
  closed k' e o g = record {
    status = refl;
    gone = rw (g (to_key id), ==_refl) refl;
    others = λ other b b' d.
        let key = to_key other in
        let ne : key ≢ to_key id = λ z. d (to_key_inj other id b' b z) in
        rw (g key, e, ne→not-== key (to_key id) ne) (closed_port key ne);
    valid = record {
      ordered = o;
      allocated = λ key q h.
          let a = without_inv (to_key id) key _ q (sym (g key) ∙ h) in
          rw e (elim (Bool-cases (q == p)) [
            | inl z ↦
                absurd (a.1 (v.distinct key (to_key id) p (a.0 ∙ ap some ((==_iff q p).0 z)) found))
            | inr z ↦ rw z (v.allocated key q a.0)
          ]);
      distinct = λ key key' q h h'.
          v.distinct key key' q (without_inv (to_key id) key _ q (sym (g key) ∙ h)).0
            (without_inv (to_key id) key' _ q (sym (g key') ∙ h')).0;
    };
  }

-- The owner of a port removes it: its id then has no owner, the other ports of 32-bit ids are as
-- before, and the table stays a map to allocated, distinct ports, which it is before the call.
pub remove_port-Closed :
    (k : Kernel) (id p : ℕ) (port : Port) (x : Process)
    → HasPorts k
    → avl_get k.port_table (to_key id) ≡ some p
    → k.ports p ≡ some port
    → k.processes k.active_process ≡ some x
    → port.owner_pid ≡ x.pid
    → Ensures (Closed k id) (kernel_remove_port id k)
unfolding kernel_remove_port
remove_port-Closed k id p port x v found h running own =
    rw (kernel_remove_port, found, h, running, own, ==_refl x.pid)
      (Ensures-lift _ (get-remove k.port_table (to_key id) v.ordered)
        λ t' r. ensures (closed k id p v found _ refl r.0 r.1))
