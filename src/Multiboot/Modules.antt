-- ===== src/Multiboot/Modules.antt =====
-- What the tag of a module does to the structure.
use quark_kernel.Base.{
  ℕ, ◌+◌, ◌*◌, ◌^◌, ◌≤◌, ◌<◌, ◌≡◌, inl, inr, ◌∙◌, sym, refl, subst, Bool-cases, some, [], ◌∷◌, ◌++◌,
  length, length-append, get_elem?, ltb, ltb→lt, lt→ltb, le→not-ltb, arith,
}
use quark_kernel.Base.Fault.{Ensures, ensures, Ensures-inv}
use quark_kernel.Strings.{Memory}
use quark_kernel.Context.{get_word, put_word}
use quark_kernel.Context.Words.{get-put}
use quark_kernel.Multiboot.{
  RegionTypes, BootInfo, module_at, set_bounds, insert_module, read_module,
}
use quark_kernel.Multiboot.Tags.{boot_module, Spells, TagAt}
use quark_kernel.Multiboot.Names.{OnlyAt, word-same, put_word-OnlyAt}
use quark_kernel.Multiboot.Summary.{LoadedModule, Summary, add_module, HoldsModule, Apart}
use quark_kernel.Multiboot.Entries.{
  Agrees, word-at, OnlyAt-SameAt, HoldsString-same, get_elem?-append_one, get_elem?-lt,
  HoldsModule-same,
}
use quark_kernel.Multiboot.Reading.{Reading, copy-Spells, kept}

-- The bounds that are written to a module's entry, and the name behind them.
entry-HoldsModule :
    (m m' : Memory) (a : ℕ) (x : LoadedModule)
    → x.start < 2 ^ 32
    → x.end < 2 ^ 32
    → length x.name < 56
    → OnlyAt (put_word (put_word m a x.start) (a + 4) x.end) m' (a + 8) (length x.name + 1)
    → Spells m' (a + 8) x.name
    → HoldsModule m' a x
entry-HoldsModule m m' a x s e short only spells =
    let m1 : Memory = put_word m a x.start in
    let m2 : Memory = put_word m1 (a + 4) x.end in
    record {
      its_start =
          word-same m2 m' a (λ q le lt. only q (inl (omega arith)))
          ∙ word-same m1 m2 a (λ q le lt. put_word-OnlyAt m1 (a + 4) x.end q (inl lt))
          ∙ get-put m a x.start s;
      its_end =
          word-same m2 m' (a + 4) (λ q le lt. only q (inl (omega arith)))
          ∙ get-put m1 (a + 4) x.end e;
      its_name = spells;
      short = short;
    }

entry-OnlyAt :
    (m m' : Memory) (a start end n : ℕ)
    → n < 56
    → OnlyAt (put_word (put_word m a start) (a + 4) end) m' (a + 8) (n + 1)
    → OnlyAt m m' a 64
entry-OnlyAt m m' a start end n short only q (inl lt) =
    only q (inl (omega arith))
    ∙ put_word-OnlyAt (put_word m a start) (a + 4) end q (inl (omega arith))
    ∙ put_word-OnlyAt m a start q (inl lt)
entry-OnlyAt m m' a start end n short only q (inr le) =
    only q (inr (omega arith))
    ∙ put_word-OnlyAt (put_word m a start) (a + 4) end q (inr (omega arith))
    ∙ put_word-OnlyAt m a start q (inr (omega arith))

module _ (start : Memory) (top : ℕ) (types : RegionTypes) (fits : top < 2 ^ 32) (p : ℕ) where
  module _ (b : BootInfo) (s : Summary) (x : LoadedModule) (r : Reading start top b s)
      (t : TagAt start top p (boot_module x.start x.end x.name)) where
    parts :
        (get_word start (p + 8) ≡ x.start)
        × (get_word start (p + 12) ≡ x.end)
        × (x.start < 2 ^ 32)
        × (x.end < 2 ^ 32)
        × Spells start (p + 16) x.name
        × (17 + length x.name ≤ get_word start (p + 4))
        × (length x.name < 56)
    parts = t.its_contents

    inside : p + 17 + length x.name ≤ top
    inside = omega (arith, parts.5, t.below)

    above : top ≤ module_at b
    above = omega (arith, r.placed.modules_behind)

    -- The bounds of the module as they are read while the table is as at the start.
    start-at : (m : Memory) → Agrees start top m → get_word m (p + 8) ≡ x.start
    start-at m agrees = word-at start top m (p + 8) agrees (omega (arith, inside)) ∙ parts.0

    end-at : (m : Memory) → Agrees start top m → get_word m (p + 12) ≡ x.end
    end-at m agrees = word-at start top m (p + 12) agrees (omega (arith, inside)) ∙ parts.1

    after-start : Agrees start top (put_word b.memory (module_at b) x.start)
    after-start =
        kept start top types fits p b.memory (put_word b.memory (module_at b) x.start) (module_at b)
          4 r.agrees above (put_word-OnlyAt b.memory (module_at b) x.start)

    -- The bounds that the code copies from the tag.
    bounds-memory :
        (set_bounds p b).memory
        ≡ put_word (put_word b.memory (module_at b) x.start) (module_at b + 4) x.end
    bounds-memory =
        rw
          (start-at b.memory r.agrees, end-at (put_word b.memory (module_at b) x.start) after-start)
          refl

    after-bounds : Agrees start top (set_bounds p b).memory
    after-bounds = subst (Agrees start top) (sym bounds-memory) (
        kept start top types fits p (put_word b.memory (module_at b) x.start)
          (put_word (put_word b.memory (module_at b) x.start) (module_at b + 4) x.end)
          (module_at b + 4) 4 after-start (omega (arith, above))
          (put_word-OnlyAt (put_word b.memory (module_at b) x.start) (module_at b + 4) x.end))

    module _ (m : Memory) (lt : length s.modules < 8) (only : OnlyAt b.memory m (module_at b) 64)
        (own : HoldsModule m (module_at b) x) where
      -- The modules before it are as they were.
      all-held :
          (i : ℕ) (y : LoadedModule)
          → get_elem? (s.modules ++ (x ∷ [])) i ≡ some y
          → HoldsModule m (b.modules + 64 * i) y
      all-held i y e = elim (get_elem?-append_one s.modules x i e) [
        | inl old ↦
            let before : i < length s.modules = get_elem?-lt s.modules i old in
            HoldsModule-same b.memory m (b.modules + 64 * i) y
              (λ q le lt'. only q (inl (omega (arith, lt', before, r.holds.count))))
              (r.holds.modules i y old)
        | inr (last, same) ↦
            subst (HoldsModule m (b.modules + 64 * i)) (same)
              (subst (λ a. HoldsModule m a x) (omega (arith, last, r.holds.count)) own)
      ]

      within : (q k : ℕ) → Apart b.modules 512 q k → Apart q k (module_at b) 64
      within q k (inl le) = inr (omega (arith, le, lt, r.holds.count))
      within q k (inr le) = inl (omega (arith, le))

      -- A module that is added: the structure holds it at the end.
      added-Reading :
          Agrees start top m
          → Reading start top
              (insert_module types p (record b { memory = m }))
              (add_module types x s)
      added-Reading agrees = rw (lt→ltb (length s.modules) 8 lt) (record {
        agrees = agrees;
        placed = r.placed;
        holds = record {
          size = r.holds.size;
          regions = rw (start-at m agrees, end-at m agrees, r.holds.regions) refl;
          count = omega (arith, r.holds.count, length-append s.modules (x ∷ []));
          few = omega (arith, lt, length-append s.modules (x ∷ []));
          modules = all-held;
          command =
              HoldsString-same b.memory m b.parameters s.command
                (OnlyAt-SameAt b.memory m b.parameters 64 (module_at b) 64
                  (within b.parameters 64 r.placed.modules_parameters) only)
                r.holds.command;
          loader =
              HoldsString-same b.memory m b.bootloader s.loader
                (OnlyAt-SameAt b.memory m b.bootloader 64 (module_at b) 64
                  (within b.bootloader 64 r.placed.modules_bootloader) only)
                r.holds.loader;
        };
      })

    add-Reading :
        (fuel : ℕ)
        → length x.name < fuel
        → length s.modules < 8
        → Ensures (λ b'. Reading start top b' (add_module types x s)) (read_module types fuel b p)
    unfolding read_module
    add-Reading fuel f lt =
        let copy =
          copy-Spells start top types fits p fuel (module_at b + 8) 16 (set_bounds p b) x.name
            after-bounds f (omega (arith, parts)) parts.4 (omega (arith, inside))
            (omega (arith, above)) in
        let (m, e, c) = Ensures-inv copy in
        let only =
          subst (λ m2. OnlyAt m2 m (module_at b + 8) (length x.name + 1)) bounds-memory c.0 in
        rw (lt→ltb b.module_count 8 (omega (arith, lt, r.holds.count)), e)
          (ensures (
            added-Reading m lt
              (entry-OnlyAt b.memory m (module_at b) x.start x.end (length x.name) parts.6 only)
              (entry-HoldsModule b.memory m (module_at b) x parts.2 parts.3 parts.6 only c.1)
              (kept start top types fits p (set_bounds p b).memory m (module_at b + 8)
                (length x.name + 1) after-bounds (omega (arith, above)) c.0)))

    -- A module past the eighth is passed over.
    skip-Reading :
        (fuel : ℕ)
        → 8 ≤ length s.modules
        → Ensures (λ b'. Reading start top b' (add_module types x s)) (read_module types fuel b p)
    unfolding read_module
    skip-Reading fuel le =
        rw
          (
            le→not-ltb b.module_count 8 (omega (arith, le, r.holds.count)),
            le→not-ltb (length s.modules) 8 le,
          )
          (ensures r)

    pub read_module-Reading :
        (fuel : ℕ)
        → length x.name < fuel
        → Ensures (λ b'. Reading start top b' (add_module types x s)) (read_module types fuel b p)
    read_module-Reading fuel f = elim (Bool-cases (ltb (length s.modules) 8)) [
      | inl e ↦ add-Reading fuel f (ltb→lt (length s.modules) 8 e)
      | inr e ↦ skip-Reading fuel (ground arith)
    ]
