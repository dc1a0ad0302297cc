-- ===== src/Avl/Tests.antt =====
-- Runs of src/avltree.c, and its theorems at concrete trees.
use quark_kernel.Base.{ℕ, ◌≡◌, refl, true, Option, none, some, List, [], ◌∷◌, arith}
use quark_kernel.Base.Fault.{◌>>=◌, Ensures}
use quark_kernel.Avl.{Tree, leaf, node, avl_insert, avl_remove, avl_get}
use quark_kernel.Avl.Entries.{entries, IsOrdered, find, erase}
use quark_kernel.Avl.Search.{get-find}
use quark_kernel.Avl.Remove.{remove-erase}
use quark_kernel.Avl.Height.{insert-add}

-- Inserts the keys in order, each with itself as its value.
insert_all : List ℕ → Tree ℕ → Option (Tree ℕ)
unfolding avl_insert
insert_all [] t = some t
insert_all (k ∷ ks) t = avl_insert true t k k >>= insert_all ks

abbrev sample : Tree ℕ
sample = node 3 2 2 (node 1 1 1 leaf leaf) (node 2 3 3 leaf (node 1 4 4 leaf leaf))

ascending_keys : insert_all (1 ∷ 2 ∷ 3 ∷ 4 ∷ []) leaf ≡ some sample
unfolding insert_all
ascending_keys = refl

-- Descending keys: the root of a tree of two levels records the height 4.
descending_keys :
    insert_all (3 ∷ 2 ∷ 1 ∷ []) leaf
    ≡ some (node 4 2 2 (node 1 1 1 leaf leaf) (node 1 3 3 leaf leaf))
unfolding insert_all
descending_keys = refl

-- The last insertion, of a key that is there, follows NULL.
wrong_heights_fault : insert_all (9 ∷ 5 ∷ 4 ∷ 1 ∷ 8 ∷ 6 ∷ 0 ∷ 3 ∷ 0 ∷ []) leaf ≡ none
unfolding insert_all
wrong_heights_fault = refl

right_heights_run :
    Ensures
      (λ t. entries t ≡ (0, 0) ∷ (1, 1) ∷ (2, 2) ∷ (3, 3) ∷ (4, 4) ∷ [])
      (avl_insert true sample 0 0)
right_heights_run = insert-add sample 0 0 (ground arith) (ground arith)

sample-IsOrdered : IsOrdered sample
sample-IsOrdered = omega arith

get-find_example : avl_get sample 3 ≡ find 3 (entries sample)
get-find_example = get-find sample 3 sample-IsOrdered

remove-erase_example : Ensures (λ t. entries t ≡ erase 2 (entries sample)) (avl_remove sample 2)
remove-erase_example = remove-erase sample 2 sample-IsOrdered
