-- ===== src/PriorityQueue/Bag.antt =====
-- The entries of a queue as a multiset: how many of them pass a test, for every test.
use native.Mathlib.Numerals.{add-one}
use quark_kernel.Base.{
  ℕ, zero, suc, ◌+◌, ◌≤◌, ◌<◌, ◌≡◌, ◌≢◌, refl, Bool, false, arith, ◌==◌, ==_iff, not-==→ne,
  Bool-cases, inl, inr, if◌then◌else◌,
}
use quark_kernel.PriorityQueue.{Node, update}

abbrev pub bit : Bool → ℕ
bit b = if b then 1 else 0

pub tally : (Node → Bool) → (ℕ → Node) → ℕ → ℕ
tally p heap zero = 0
tally p heap (suc n) = tally p heap n + bit (p (heap n))

pub tally-update_ge :
    (p : Node → Bool) (heap : ℕ → Node) (i : ℕ) (v : Node) (n : ℕ)
    → n ≤ i
    → tally p (update heap i v) n ≡ tally p heap n
unfolding tally
tally-update_ge p heap i v zero h = refl
tally-update_ge p heap i v (suc n) h = ground (arith, tally-update_ge p heap i v n)

pub tally-update :
    (p : Node → Bool) (heap : ℕ → Node) (i : ℕ) (v : Node) (n : ℕ)
    → i < n
    → tally p (update heap i v) n + bit (p (heap i)) ≡ tally p heap n + bit (p v)
unfolding tally
tally-update p heap i v zero h = absurd (omega arith)
tally-update p heap i v (suc n) h =
    ground (arith, tally-update p heap i v n, tally-update_ge p heap i v n)

module _ (p : Node → Bool) (heap : ℕ → Node) (i j n : ℕ) where
  abbrev swapped : ℕ → Node
  swapped = update (update heap i (heap j)) j (heap i)

  -- An exchange of two entries keeps the bag.
  pub tally-exchange : i < n → j < n → i ≢ j → tally p swapped n ≡ tally p heap n
  tally-exchange hi hj ne = ground (
    arith,
    tally-update p (update heap i (heap j)) j (heap i) n,
    tally-update p heap i (heap j) n,
  )

  -- So does an exchange with an equal cell behind the entries.
  pub tally-exchange_stale : i < n → n ≤ j → heap j ≡ heap i → tally p swapped n ≡ tally p heap n
  tally-exchange_stale hi hj same = ground (
    arith,
    tally-update_ge p (update heap i (heap j)) j (heap i) n,
    tally-update p heap i (heap j) n,
  )

-- Two heaps that agree on the entries have the same bag.
pub tally_congr :
    (p : Node → Bool) (heap heap' : ℕ → Node) (n : ℕ)
    → ((i : ℕ) → i < n → heap i ≡ heap' i)
    → tally p heap n ≡ tally p heap' n
unfolding tally
tally_congr p heap heap' zero h = refl
tally_congr p heap heap' (suc n) h =
    ground (arith, h n, tally_congr p heap heap' n (λ i q. h i (omega arith)))

pub tally_suc :
    (p : Node → Bool) (heap : ℕ → Node) (n : ℕ)
    → tally p heap (n + 1) ≡ tally p heap n + bit (p (heap n))
unfolding tally
tally_suc p heap n = rw add-one

-- No entry passes the test: by the count, and entry by entry.
pub tally_none :
    (p : Node → Bool) (heap : ℕ → Node) (n i : ℕ) → tally p heap n ≡ 0 → i < n → p (heap i) ≡ false
unfolding tally
tally_none p heap zero i h lt = absurd (omega arith)
tally_none p heap (suc n) i h lt = elim (Bool-cases (i == n)) [
  | inl e ↦ rw ((==_iff i n).0 e) (ground (arith, h))
  | inr e ↦ tally_none p heap n i (omega (arith, h)) (omega (arith, not-==→ne i n e))
]

pub none-tally :
    (p : Node → Bool) (heap : ℕ → Node) (n : ℕ)
    → ((i : ℕ) → i < n → p (heap i) ≡ false)
    → tally p heap n ≡ 0
unfolding tally
none-tally p heap zero h = refl
none-tally p heap (suc n) h =
    rw (h n (omega arith)) (omega (arith, none-tally p heap n (λ i q. h i (omega arith))))
