-- ===== src/Avl/Map.antt =====
-- The tree as a finite map: what `avl_get` returns after `avl_insert` and after `avl_remove`.
use quark_kernel.Base.{
  ℕ, ◌≤◌, ◌≡◌, refl, ◌==◌, true, Option, none, some, List, [], ◌∷◌, arith, if◌then◌else◌,
}
use quark_kernel.Base.Fault.{Ensures, Ensures-map}
use quark_kernel.Avl.{Tree, avl_get, avl_insert, avl_remove}
use quark_kernel.Avl.Entries.{
  entries, IsOrdered, IsAscending, Above, find, add, erase, add-IsAscending,
}
use quark_kernel.Avl.Search.{get-find}
use quark_kernel.Avl.Remove.{remove-erase, erase-IsAscending}
use quark_kernel.Avl.Height.{IsBalanced, insert-add}

module _ {V : Type 0} where
  find-Above : (k b : ℕ) (xs : List (ℕ × V)) → k ≤ b → Above b xs → find k xs ≡ none
  find-Above k b [] le h = refl
  find-Above k b (e ∷ xs) le h = ground (arith, h.0)

  -- What a map gives at `k` once the key is gone, or there.
  abbrev pub without : ℕ → ℕ → Option V → Option V
  without key k o = if k == key then none else o

  abbrev pub with : ℕ → V → ℕ → Option V → Option V
  with key value k none = if k == key then some value else none
  with key value k (some v) = some v

  find-erase :
      (key k : ℕ) (xs : List (ℕ × V))
      → IsAscending xs
      → find k (erase key xs) ≡ without key k (find k xs)
  find-erase key k [] h = ground arith
  find-erase key k (e ∷ xs) h = ground (arith, find-erase key k xs h.1, find-Above k e.0 xs, h.0)

  find-add :
      (key : ℕ) (value : V) (k : ℕ) (xs : List (ℕ × V))
      → IsAscending xs
      → find k (add key value xs) ≡ with key value k (find k xs)
  find-add key value k [] h = ground arith
  find-add key value k (e ∷ xs) h = ground (arith, find-add key value k xs h.1)

  -- On an ordered tree `avl_remove` does not fault; the new tree is ordered, `avl_get` finds
  -- nothing at the key, and at every other key what it found before.
  pub get-remove :
      (t : Tree V) (key : ℕ)
      → IsOrdered t
      → Ensures
          (λ t'. IsOrdered t' × ((k : ℕ) → avl_get t' k ≡ without key k (avl_get t k)))
          (avl_remove t key)
  get-remove t key o = Ensures-map (remove-erase t key o) λ t' e.
      let o' : IsOrdered t' = rw e (erase-IsAscending key (entries t) o) in
      (o', λ k. rw (get-find t' k o', get-find t k o, e) (find-erase key k (entries t) o))

  -- On an ordered tree with right heights, and with memory to be had, `avl_insert` does not
  -- fault; the new tree is ordered, `avl_get` finds the value at the key, or the value that was
  -- there before, and at every other key what it found before.
  pub get-insert :
      (t : Tree V) (key : ℕ) (value : V)
      → IsBalanced t
      → IsOrdered t
      → Ensures
          (λ t'. IsOrdered t' × ((k : ℕ) → avl_get t' k ≡ with key value k (avl_get t k)))
          (avl_insert true t key value)
  get-insert t key value b o = Ensures-map (insert-add t key value b o) λ t' e.
      let o' : IsOrdered t' = rw e (add-IsAscending key value (entries t) o) in
      (o', λ k. rw (get-find t' k o', get-find t k o, e) (find-add key value k (entries t) o))
