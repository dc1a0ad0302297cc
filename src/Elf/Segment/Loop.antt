-- ===== src/Elf/Segment/Loop.antt =====
-- All pages of a segment.
use native.Mathlib.Nat.{add_assoc}
use quark_kernel.Base.{
  ℕ, zero, suc, ◌+◌, ◌-◌, ◌*◌, ◌%◌, ◌^◌, ◌≤◌, ◌<◌, ◌≡◌, ◌⊎◌, inl, inr, ◌∙◌, refl, ap, sym, subst,
  lt→ltb, le→not-ltb, arith,
}
use quark_kernel.Base.Fault.{Ensures, ensures, Ensures-map}
use quark_kernel.Paging.{Machine}
use quark_kernel.Paging.Tree.{IsTree}
use quark_kernel.PageMap.Mapping.{First}
use quark_kernel.MemoryCalls.Fill.{
  HasTables, Replies, below_window, rest-tables, rest-replies, rest-Filled,
}
use quark_kernel.Elf.{Loader, memsize, load_pages}
use quark_kernel.Elf.Access.{Shows, read_word-image}
use quark_kernel.Elf.Copy.{Copied}
use quark_kernel.Elf.Segment.{
  flags, IsOutside, Loaded, IsSegment, AreFree, Rest, chunk, chunk_bounds, file-Shows,
}
use quark_kernel.Elf.Segment.Page.{load_page-Placed}

module _ (lo hi : ℕ) (phys image : ℕ → ℕ) (header d s size : ℕ)
    (g : IsSegment lo hi image header d s size) where
  -- The file after the copy, which is to a frame apart from it.
  after_copy-Shows :
      (l : Loader) (u : Machine) (ram : ℕ → ℕ) (n k : ℕ) (frame : ℕ → ℕ)
      → n < size
      → n + 4096 < 2 ^ 32
      → Shows (record l { machine = u }) lo hi phys image
      → AreFree lo hi phys (suc k) frame
      → Copied l.ram (frame 0) 0 (chunk size n) (λ j. phys (s + n + j)) ram
      → Shows (record { machine = u; ram = ram }) lo hi phys image
  after_copy-Shows l u ram n k frame within small shows free c q le lt =
      let (there, byte) = shows q le lt in
      (
        there,
        c.outside (phys q)
              (beside (chunk_bounds size n within small).0 (free.of_file 0 q (omega arith) le lt))
            ∙ byte,
      )
    where
      beside :
          chunk size n ≤ 4096
          → IsOutside (frame 0) (phys q)
          → (phys q < frame 0 + 0) ⊎ (frame 0 + 0 + chunk size n ≤ phys q)
      beside small (inl h) = inl (omega (arith, h))
      beside small (inr h) = inr (omega (arith, h, small))

  rest-AreFree :
      (k : ℕ) (frame : ℕ → ℕ)
      → AreFree lo hi phys (suc k) frame
      → AreFree lo hi phys k (λ j. frame (j + 1))
  rest-AreFree k frame free = record {
    of_file = λ i q lt le lt'. free.of_file (i + 1) q (omega arith) le lt';
    of_others = λ i j lt lt'. free.of_others (i + 1) (j + 1) (omega arith) (omega arith);
  }

  -- The rest of the segment after its first page.
  joined :
      (l : Loader) (u : Machine) (ram : ℕ → ℕ) (n k : ℕ) (frame : ℕ → ℕ)
      → Rest size n (suc k)
      → First (record l.machine { calls = l.machine.calls + 1 }) (d + n) (frame 0) flags u
      → Copied l.ram (frame 0) 0 (chunk size n) (λ j. phys (s + n + j)) ram
      → Shows l lo hi phys image
      → AreFree lo hi phys (suc k) frame
      → (r : ℕ × Loader)
      → Loaded
          (record { machine = u; ram = ram })
          (d + n + 4096)
          k
          (size - (n + 4096))
          (s + n + 4096)
          (λ j. frame (j + 1))
          image
          r
      → Loaded l (d + n) (suc k) (size - n) (s + n) frame image r
  joined l u ram n k frame rest f c shows free r w = record {
    filled =
        rest-Filled (d + n) k frame l.machine u flags f
          (below_window (d + n) (suc k) (d + n) (omega (arith, rest, g.fits)) (omega arith))
          (omega (arith, g.aligned, rest)) (omega (arith, rest, g.fits)) (r.0, r.1.machine)
          w.filled;
    tables = λ e. w.tables e ∙ f.tables e;
    replies = w.replies ∙ f.replies;
    inside = inside;
    outside = λ a out.
        w.outside a (λ i lt. out (i + 1) (omega arith))
        ∙ c.outside a (beside a (out 0 (omega arith)));
  }
    where
      bounds :
          (chunk size n ≤ 4096)
          × (n + chunk size n ≤ size)
          × ((j : ℕ) → j < 4096 → n + j < size → j < chunk size n)
      bounds = chunk_bounds size n (omega (arith, rest)) (omega (arith, rest, g.fits))

      beside :
          (a : ℕ) → IsOutside (frame 0) a → (a < frame 0 + 0) ⊎ (frame 0 + 0 + chunk size n ≤ a)
      beside a (inl h) = inl (omega (arith, h))
      beside a (inr h) = inr (omega (arith, h, bounds.0))

      outside_next :
          {j : ℕ}
          → j < 4096
          → (next : ℕ) → (frame 0 + 4096 ≤ next) ⊎ (next + 4096 ≤ frame 0)
          → IsOutside next (frame 0 + j)
      outside_next small next (inl le) = inl (omega (arith, small, le))
      outside_next small next (inr le) = inr (omega (arith, le))

      inside :
          (i j : ℕ)
          → i < suc k
          → j < 4096
          → i * 4096 + j < size - n
          → r.1.ram (frame i + j) ≡ image (s + n + (i * 4096 + j))
      inside zero j lt small within =
          let here : j < chunk size n = bounds.2 j small (omega (arith, within)) in
          w.outside (frame 0 + j) (λ i lt'.
            outside_next small (frame (i + 1))
              (free.of_others 0 (i + 1) (omega arith) (omega (arith, lt'))))
          ∙ c.inside j (omega arith) (omega (arith, here))
          ∙ (shows (s + n + j) (omega (arith, g.in_file)) (omega (arith, g.in_file, within))).1
          ∙ ap image (omega arith)
      inside (suc i) j lt small within =
          let next : suc i ≡ i + 1 = omega arith in
          ap (λ x. r.1.ram (frame x + j)) next
          ∙ w.inside i j (omega (arith, lt)) small (omega (arith, within))
          ∙ ap image (omega arith)

  pub load_pages-Loaded :
      (pages fuel n : ℕ) (frame : ℕ → ℕ) (l : Loader)
      → pages < fuel
      → Rest size n pages
      → IsTree l.machine
      → HasTables l.machine (d + n) pages
      → Replies l.machine pages frame
      → AreFree lo hi phys pages frame
      → Shows l lo hi phys image
      → Ensures
          (Loaded l (d + n) pages (size - n) (s + n) frame image)
          (load_pages fuel header d s n l)
  unfolding load_pages
  load_pages-Loaded pages zero n frame l lt rest h tables replies free shows = absurd (omega arith)
  load_pages-Loaded zero (suc fuel) n frame l lt rest h tables replies free shows =
      rw
        (
          read_word-image l lo hi phys image shows (memsize header) (omega (arith, g.in_file))
              (omega (arith, g.in_file)),
          g.its_size,
          le→not-ltb n size (omega (arith, rest)),
        )
        (ensures (record {
          filled = record {
            status = refl;
            tree = h;
            inside = λ k lt. absurd (omega arith);
            outside = λ q below out. refl;
            calls = omega arith;
          };
          tables = λ e. refl;
          replies = refl;
          inside = λ k j lt. absurd (omega arith);
          outside = λ a out. refl;
        }))
  load_pages-Loaded (suc k) (suc fuel) n frame l lt rest h tables replies free shows =
      let (u, ram, placed, f, c) =
        load_page-Placed lo hi phys image header d s size g l n k frame rest h tables replies free
          shows in
      let next : (n + 4096) % 2 ^ 32 ≡ n + 4096 = omega (arith, rest, g.fits) in
      let l2 : Loader = record { machine = u; ram = ram } in
      rw
        (
          read_word-image l lo hi phys image shows (memsize header) (omega (arith, g.in_file))
              (omega (arith, g.in_file)),
          g.its_size,
          lt→ltb n size (omega (arith, rest)),
          placed,
          next,
        )
        (Ensures-map
          (load_pages-Loaded k fuel (n + 4096) (λ j. frame (j + 1)) l2 (omega (arith, lt))
            (omega (arith, rest)) f.mapped.tree
            (subst (λ b. HasTables u b k) (add_assoc d n 4096)
              (rest-tables (d + n) k frame l.machine u f.tables tables))
            (rest-replies (d + n) k frame l.machine u f.replies f.calls replies)
            (rest-AreFree k frame free)
            (after_copy-Shows l u ram n k frame (omega (arith, rest)) (omega (arith, rest, g.fits))
              (file-Shows lo hi phys image header d s size g l u n k (frame 0) rest f shows) free
              c))
          λ r w. joined l u ram n k frame rest f c shows free r (
            subst
              (λ b. Loaded l2 b k (size - (n + 4096)) (s + n + 4096) (λ j. frame (j + 1)) image r)
              (sym (add_assoc d n 4096))
              (subst
                (λ b.
                  Loaded l2 (d + (n + 4096)) k (size - (n + 4096)) b (λ j. frame (j + 1)) image r)
                (sym (add_assoc s n 4096)) w)))
