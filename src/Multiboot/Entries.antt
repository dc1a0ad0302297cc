-- ===== src/Multiboot/Entries.antt =====
-- The loops over the entries of a memory map, and what a write leaves of the modules and strings.
use quark_kernel.Base.{
  ℕ, zero, suc, ◌+◌, ◌-◌, ◌*◌, ◌%◌, ◌^◌, ◌≤◌, ◌<◌, ◌≡◌, ◌⊎◌, inl, inr, ◌∙◌, ap, refl, Option, none,
  some, List, [], ◌∷◌, ◌++◌, length, get_elem?, ne→not-==, arith,
}
use native.Mathlib.Nat.{mul-suc, mul-zero}
use quark_kernel.Strings.{Memory}
use quark_kernel.Context.{get_word}
use quark_kernel.Multiboot.{
  RegionTypes, Region, BootInfo, get_long, entry_type, memmap_insert_region, read_map,
}
use quark_kernel.Multiboot.Tags.{EntriesAt}
use quark_kernel.Multiboot.Names.{OnlyAt, SameAt, word-same, Spells-same}
use quark_kernel.Multiboot.Summary.{add_regions, LoadedModule, HoldsModule, HoldsString, Apart}

-- The memory is as at the start below the end of the table.
abbrev pub Agrees : (start : Memory) (top : ℕ) → Memory → Type 0
Agrees start top m = (q : ℕ) → q < top → m q ≡ start q

module _ (start : Memory) (top : ℕ) where
  pub word-at :
      (m : Memory) (p : ℕ) → Agrees start top m → p + 4 ≤ top → get_word m p ≡ get_word start p
  word-at m p agrees le = word-same start m p (λ q a b. agrees q (omega (arith, b)))

  pub long-at :
      (m : Memory) (p : ℕ) → Agrees start top m → p + 8 ≤ top → get_long m p ≡ get_long start p
  long-at m p agrees le =
      rw (word-at m p agrees (omega arith), word-at m (p + 4) agrees (omega arith)) refl

  -- The loop inserts each region of the map, in its order, and nothing else. The fuel is more than
  -- the number of entries.
  pub read_map-inserts :
      (types : RegionTypes) (fuel e p : ℕ) (rs : List Region) (b : BootInfo)
      → Agrees start top b.memory
      → EntriesAt start top e p rs
      → 20 ≤ e
      → top < 2 ^ 32
      → e * length rs < 2 ^ 32
      → length rs < fuel
      → read_map types fuel (e * length rs) e p b
        ≡ some (record b { map = add_regions types rs b.map })
  unfolding read_map
  read_map-inserts types zero e p rs b agrees entries le fits short f = absurd (omega arith)
  read_map-inserts types (suc fuel) e p [] b agrees entries le fits short f = rw (mul-zero e) refl
  read_map-inserts types (suc fuel) e p (r ∷ rs) b agrees (entry, inside, entries) le fits short f =
      let more : e * length (r ∷ rs) ≡ e * length rs + e = mul-suc e (length rs) in
      let left : (e * length rs + e + 2 ^ 32 - e) % 2 ^ 32 ≡ e * length rs =
        omega (arith, more, short) in
      let next : (p + e) % 2 ^ 32 ≡ p + e = omega arith in
      rw
        (
          more,
          ne→not-== (e * length rs + e) 0 (λ z. omega (arith, z, le)),
          left,
          next,
          long-at b.memory p agrees (omega arith),
          long-at b.memory (p + 8) agrees (omega arith),
          word-at b.memory (p + 16) agrees (omega arith),
          entry.its_base,
          entry.its_size,
          entry.its_type,
        )
        (read_map-inserts types fuel e (p + e) rs
          (memmap_insert_region r.base r.size (entry_type types r.type) b) agrees entries le fits
          (omega (arith, more, short)) (omega (arith, f)))

pub OnlyAt-SameAt :
    (m m' : Memory) (p n q k : ℕ) → Apart p n q k → OnlyAt m m' q k → SameAt m m' p n
OnlyAt-SameAt m m' p n q k (inl le) only r a b = only r (inl (omega arith))
OnlyAt-SameAt m m' p n q k (inr le) only r a b = only r (inr (omega arith))

pub OnlyAt-larger :
    (m m' : Memory) (p n q k : ℕ) → q ≤ p → p + n ≤ q + k → OnlyAt m m' p n → OnlyAt m m' q k
OnlyAt-larger m m' p n q k le le' only r (inl lt) = only r (inl (omega arith))
OnlyAt-larger m m' p n q k le le' only r (inr lt) = only r (inr (omega arith))

pub HoldsModule-same :
    (m m' : Memory) (p : ℕ) (x : LoadedModule)
    → SameAt m m' p 64
    → HoldsModule m p x
    → HoldsModule m' p x
HoldsModule-same m m' p x same h = record {
  its_start = word-same m m' p (λ q a b. same q a (omega arith)) ∙ h.its_start;
  its_end = word-same m m' (p + 4) (λ q a b. same q (omega arith) (omega arith)) ∙ h.its_end;
  its_name =
      Spells-same m m' (p + 8) x.name (λ q a b. same q (omega arith) (omega (arith, h.short)))
        h.its_name;
  short = h.short;
}

pub HoldsString-same :
    (m m' : Memory) (p : ℕ) (o : Option (List ℕ))
    → SameAt m m' p 64
    → HoldsString m p o
    → HoldsString m' p o
HoldsString-same m m' p none same h = tt
HoldsString-same m m' p (some cs) same h =
    (Spells-same m m' p cs (λ q a b. same q a (omega (arith, b, h.1))) h.0, h.1)

module _ {ℓ} {A : Type ℓ} where
  pub get_elem?-lt : (xs : List A) (i : ℕ) {x : A} → get_elem? xs i ≡ some x → i < length xs
  get_elem?-lt [] i e = absurd (cc)
  get_elem?-lt (y ∷ ys) zero e = omega arith
  get_elem?-lt (y ∷ ys) (suc i) e = omega (arith, get_elem?-lt ys i e)

  -- An element of a list that got one more is an old one, or that one at the end.
  pub get_elem?-append_one :
      (xs : List A) (y : A) (i : ℕ) {x : A}
      → get_elem? (xs ++ (y ∷ [])) i ≡ some x
      → (get_elem? xs i ≡ some x) ⊎ ((i ≡ length xs) × (y ≡ x))
  get_elem?-append_one [] y zero e = inr (refl, cc)
  get_elem?-append_one [] y (suc i) e = absurd (cc)
  get_elem?-append_one (z ∷ zs) y zero e = inl e
  get_elem?-append_one (z ∷ zs) y (suc i) e = elim (get_elem?-append_one zs y i e) [
    | inl old ↦ inl old
    | inr (last, same) ↦ inr (ap suc last, same)
  ]
