-- ===== src/Avl/Search.antt =====
-- `avl_get` against the search in the list of entries.
use quark_kernel.Base.{ℕ, ◌≡◌, refl, ◌∙◌, sym, inl, inr, ltb, ltb→lt, Bool-cases}
use quark_kernel.Avl.{Tree, leaf, node, avl_get}
use quark_kernel.Avl.Entries.{
  entries, IsOrdered, find, IsAscending-append, find-append_lt, find-append_ge,
}

module _ {ℓ} {V : Type ℓ} where
  -- In an ordered tree `avl_get` returns the value of the entry with the key, and NULL where no
  -- entry has it.
  pub get-find : (t : Tree V) (key : ℕ) → IsOrdered t → avl_get t key ≡ find key (entries t)
  unfolding avl_get
  get-find leaf key o = refl
  get-find (node h k v l r) key o =
      let (ol, below, above, or) = IsAscending-append (entries l) k v (entries r) o in
      elim (Bool-cases (ltb key k)) [
        | inl p ↦ rw p (
            get-find l key ol
            ∙ sym (find-append_lt key k v (entries r) (entries l) (ltb→lt key k p)))
        | inr p ↦
            rw (find-append_ge key k v (entries r) (entries l) below p, p)
              (elim (Bool-cases (ltb k key)) [ inl q ↦ rw q (get-find r key or) | inr q ↦ rw q ])
      ]
