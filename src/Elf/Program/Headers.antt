-- ===== src/Elf/Program/Headers.antt =====
-- The loop over the program headers.
use native.Mathlib.Nat.{add_assoc}
use quark_kernel.Base.{
  ℕ, ◌+◌, ◌-◌, ◌*◌, ◌/◌, ◌%◌, ◌≤◌, ◌<◌, ◌≡◌, ◌⊎◌, inl, inr, ◌∙◌, ap, sym, subst, some, List, [],
  ◌∷◌, All, All-imp, arith,
}
use quark_kernel.Base.Fault.{Ensures, Ensures-map, Ensures-inv}
use quark_kernel.Status.{enone}
use quark_kernel.Paging.{PageTableEntry, Machine}
use quark_kernel.Paging.Tree.{IsTree, directory, directory_index}
use quark_kernel.PageMap.Translate.{translate, translate-within}
use quark_kernel.MemoryCalls.Fill.{HasTables, Replies}
use quark_kernel.Elf.{Loader, offset, vaddr, load_segment}
use quark_kernel.Elf.Access.{Shows, read_word-image}
use quark_kernel.Elf.Segment.{page_count, IsOutside, Loaded, IsSegment, AreFree}
use quark_kernel.Elf.Program.{Header, total, IsBeside, HeaderAt, HeadersAt, InMemory, AllLoaded}
use quark_kernel.Elf.Segment.Loop.{load_pages-Loaded}

module _ (lo hi elf : ℕ) (phys image : ℕ → ℕ) where
  load_segment-Loaded :
      (fuel p : ℕ) (h : Header) (l : Loader) (frame : ℕ → ℕ)
      → h.type ≡ 1
      → page_count h.size < fuel
      → IsTree l.machine
      → HeaderAt lo hi elf phys image l.machine p h
      → Replies l.machine (page_count h.size) frame
      → AreFree lo hi phys (page_count h.size) frame
      → Shows l lo hi phys image
      → Ensures
          (Loaded l h.address (page_count h.size) h.size h.source frame image)
          (load_segment fuel elf p l)
  unfolding load_segment
  load_segment-Loaded fuel p h l frame load lt tree a replies free shows =
      let less_zero : (x : ℕ) → x - 0 ≡ x = λ x. omega arith in
      let at_start : (x : ℕ) → x + 0 ≡ x = λ x. omega arith in
      let loaded =
        load_pages-Loaded lo hi phys image p h.address h.source h.size (a.segment load)
          (page_count h.size) fuel 0 frame l lt (omega arith) tree
          (subst (λ b. HasTables l.machine b (page_count h.size)) (sym (at_start h.address))
            (a.tables load))
          replies free shows in
      rw
        (
          read_word-image l lo hi phys image shows (vaddr p) (omega (arith, a.inside))
              (omega (arith, a.inside)),
          a.its_address,
          read_word-image l lo hi phys image shows (offset p) (omega (arith, a.inside))
              (omega (arith, a.inside)),
          a.its_source,
        )
        (Ensures-map loaded λ r w.
          subst (λ b. Loaded l b (page_count h.size) h.size h.source frame image r)
            (at_start h.address)
            (subst (λ b. Loaded l (h.address + 0) (page_count h.size) h.size b frame image r)
              (at_start h.source)
              (subst
                (λ b. Loaded l (h.address + 0) (page_count h.size) b (h.source + 0) frame image r)
                (less_zero h.size) w)))

  -- The run of the loader on a segment, by its final state.
  pub load_segment-run :
      (fuel p : ℕ) (h : Header) (l : Loader) (frame : ℕ → ℕ)
      → h.type ≡ 1
      → page_count h.size < fuel
      → IsTree l.machine
      → HeaderAt lo hi elf phys image l.machine p h
      → Replies l.machine (page_count h.size) frame
      → AreFree lo hi phys (page_count h.size) frame
      → Shows l lo hi phys image
      → (l' : Loader) × (load_segment fuel elf p l ≡ some (enone, l'))
        × Loaded l h.address (page_count h.size) h.size h.source frame image (enone, l')
  load_segment-run fuel p h l frame load lt tree a replies free shows =
      let ((status, l'), e, w) =
        Ensures-inv (load_segment-Loaded fuel p h l frame load lt tree a replies free shows) in
      let ok : status ≡ enone = w.filled.status in
      (
        l',
        e ∙ ap (λ x. some (x, l')) ok,
        subst (λ x. Loaded l h.address (page_count h.size) h.size h.source frame image (x, l')) ok
            w,
      )

  -- A segment that was loaded is in the memory after the others are.
  pub still-InMemory :
      (l l' : Loader) (p : ℕ) (h : Header) (hs : List Header) (frame : ℕ → ℕ) (r : ℕ × Loader)
      → IsSegment lo hi image p h.address h.source h.size
      → Loaded l h.address (page_count h.size) h.size h.source frame image (enone, l')
      → All
          (λ k.
            k.type ≡ 1
            → (h.address + page_count h.size * 4096 ≤ k.address)
              ⊎ (k.address + page_count k.size * 4096 ≤ h.address))
          hs
      → AreFree lo hi phys (page_count h.size + total hs) frame
      → AllLoaded lo hi elf phys image l' hs (λ k. frame (page_count h.size + k)) r
      → InMemory lo hi elf phys image r.1 h
  still-InMemory l l' p h hs frame r g w apart free rest load i lt =
      let k = i / 4096 in
      let j = i % 4096 in
      let place : h.address + k * 4096 + j ≡ h.address + i = omega arith in
      let parts : k * 4096 + j ≡ i = omega arith in
      let inside : k < page_count h.size = omega (arith, lt) in
      (
        frame k + j,
        rest.others (h.address + i) (omega (arith, g.fits, inside)) (All-imp (beside i lt) hs apart)
            ∙ ap (translate l'.machine) (sym place)
            ∙ translate-within l'.machine (h.address + k * 4096) (frame k) j
                (omega (arith, g.aligned)) (omega arith) (w.filled.inside k inside),
        rest.ram (frame k + j) (λ n le.
              outside (frame k) (frame (page_count h.size + n)) j (omega arith) (
                free.of_others k (page_count h.size + n) (omega (arith, inside))
                  (omega (arith, le))))
            ∙ w.inside k j inside (omega arith) (omega (arith, lt))
            ∙ ap (λ x. image (h.source + x)) parts,
      )
    where
      beside :
          (i : ℕ)
          → i < h.size
          → (k : Header)
          → (k.type ≡ 1
              → (h.address + page_count h.size * 4096 ≤ k.address)
                ⊎ (k.address + page_count k.size * 4096 ≤ h.address))
          → IsBeside (h.address + i) k
      beside i lt k apart load = elim (apart load) [
        | inl le ↦ inl (omega (arith, le, lt))
        | inr le ↦ inr (omega (arith, le))
      ]

      outside :
          (f next j : ℕ) → j < 4096 → (f + 4096 ≤ next) ⊎ (next + 4096 ≤ f) → IsOutside next (f + j)
      outside f next j small (inl le) = inl (omega (arith, small, le))
      outside f next j small (inr le) = inr (omega (arith, le))

  -- The headers on tables that have the same top.
  pub HeadersAt-same :
      (s u : Machine) (step p : ℕ) (hs : List Header)
      → ((e : ℕ) → directory u e ≡ directory s e)
      → HeadersAt lo hi elf phys image s step p hs
      → HeadersAt lo hi elf phys image u step p hs
  HeadersAt-same s u step p [] same a = tt
  HeadersAt-same s u step p (h ∷ hs) same (a, apart, fits, rest) = (
    record {
      inside = a.inside;
      its_type = a.its_type;
      its_address = a.its_address;
      its_source = a.its_source;
      segment = a.segment;
      tables = λ load q le lt.
          ap (λ (e : PageTableEntry). e.present) (same (directory_index q)) ∙ a.tables load q le lt;
    },
    apart,
    fits,
    HeadersAt-same s u step (p + step) hs same rest,
  )

  pub rest-AreFree :
      (k n : ℕ) (frame : ℕ → ℕ)
      → AreFree lo hi phys (k + n) frame
      → AreFree lo hi phys n (λ j. frame (k + j))
  rest-AreFree k n frame free = record {
    of_file = λ i q lt le lt'. free.of_file (k + i) q (omega arith) le lt';
    of_others = λ i j lt lt'. free.of_others (k + i) (k + j) (omega arith) (omega arith);
  }

  pub first-AreFree :
      (k n : ℕ) (frame : ℕ → ℕ) → AreFree lo hi phys (k + n) frame → AreFree lo hi phys k frame
  first-AreFree k n frame free = record {
    of_file = λ i q lt le lt'. free.of_file i q (omega arith) le lt';
    of_others = λ i j lt lt'. free.of_others i j lt (omega arith);
  }

  pub rest-Replies :
      (k n : ℕ) (frame : ℕ → ℕ) (s u : Machine)
      → u.replies ≡ s.replies
      → u.calls ≡ s.calls + k
      → Replies s (k + n) frame
      → Replies u n (λ j. frame (k + j))
  rest-Replies k n frame s u same calls replies j lt =
      let (reply, z, small) = replies (k + j) (omega (arith, lt)) in
      (rw (same, calls) (ap s.replies (add_assoc s.calls k j) ∙ reply), z, small)

  -- The file is in its place after a segment is loaded.
  pub after_load-Shows :
      (l : Loader) (p : ℕ) (h : Header) (frame : ℕ → ℕ) (r : ℕ × Loader)
      → IsSegment lo hi image p h.address h.source h.size
      → Loaded l h.address (page_count h.size) h.size h.source frame image r
      → AreFree lo hi phys (page_count h.size) frame
      → Shows l lo hi phys image
      → Shows r.1 lo hi phys image
  after_load-Shows l p h frame r g w free shows q le lt =
      let (there, byte) = shows q le lt in
      (
        w.filled.outside q (omega (arith, lt, g.low)) (beside g.apart) ∙ there,
        w.outside (phys q) (λ k small. free.of_file k q small le lt) ∙ byte,
      )
    where
      beside :
          (hi ≤ h.address) ⊎ (h.address + page_count h.size * 4096 ≤ lo)
          → (q < h.address) ⊎ (h.address + page_count h.size * 4096 ≤ q)
      beside (inl x) = inl (omega (arith, x, lt))
      beside (inr x) = inr (omega (arith, x, le))
