-- ===== src/Elf/Program/Whole.antt =====
-- The loader on a whole program.
use quark_kernel.Base.{
  ℕ, ◌+◌, ◌*◌, ◌%◌, ◌^◌, ◌≤◌, ◌<◌, ◌≡◌, ◌⊎◌, inl, inr, Bool-cases, ◌∙◌, refl, subst, ◌==◌, ==_iff,
  not-==→ne, List, [], ◌∷◌, length, All, All-imp, arith,
}
use quark_kernel.Base.Fault.{Ensures, ensures, Ensures-map}
use quark_kernel.Status.{enone}
use quark_kernel.Paging.Tree.{IsTree}
use quark_kernel.MemoryCalls.Fill.{Replies}
use quark_kernel.Elf.{Loader, phoffset, phsize, phcount, load_headers, load_program}
use quark_kernel.Elf.Access.{Shows, word_of, half_of, read_word-image, read_half-image}
use quark_kernel.Elf.Segment.{page_count, Loaded, AreFree}
use quark_kernel.Elf.Program.{Header, pages_in, total, HeaderAt, HeadersAt, AllLoaded}
use quark_kernel.Elf.Program.Headers.{
  load_segment-run, still-InMemory, HeadersAt-same, rest-AreFree, first-AreFree, rest-Replies,
  after_load-Shows,
}

module _ (lo hi elf : ℕ) (phys image : ℕ → ℕ) (header : (lo ≤ elf) × (elf + 46 ≤ hi)) where
  -- A segment and the ones behind it.
  both-AllLoaded :
      (l l' : Loader) (p : ℕ) (h : Header) (hs : List Header) (frame : ℕ → ℕ) (r : ℕ × Loader)
      → h.type ≡ 1
      → HeaderAt lo hi elf phys image l.machine p h
      → All
          (λ k.
            k.type ≡ 1
            → h.type ≡ 1
            → (h.address + page_count h.size * 4096 ≤ k.address)
              ⊎ (k.address + page_count k.size * 4096 ≤ h.address))
          hs
      → AreFree lo hi phys (page_count h.size + total hs) frame
      → Loaded l h.address (page_count h.size) h.size h.source frame image (enone, l')
      → AllLoaded lo hi elf phys image l' hs (λ k. frame (page_count h.size + k)) r
      → AllLoaded lo hi elf phys image l (h ∷ hs) frame r
  both-AllLoaded l l' p h hs frame r load a apart free w rest =
      let count : pages_in h ≡ page_count h.size = rw load refl in
      record {
        status = rest.status;
        tree = rest.tree;
        segments = (
          still-InMemory lo hi elf phys image l l' p h hs frame r (a.segment load) w
              (All-imp (λ k f z. f z load) hs apart) free rest,
          rest.segments,
        );
        others = λ q below (first, next).
            rest.others q below next ∙ w.filled.outside q below (first load);
        ram = λ x out.
            rest.ram x (λ k lt. out (page_count h.size + k) (omega (arith, lt, count)))
            ∙ w.outside x (λ k lt. out k (omega (arith, lt, count)));
        calls = omega (arith, rest.calls, w.filled.calls, count);
      }

  load_headers-AllLoaded :
      (hs : List Header) (fuel p : ℕ) (l : Loader) (frame : ℕ → ℕ)
      → All (λ h. pages_in h < fuel) hs
      → IsTree l.machine
      → HeadersAt lo hi elf phys image l.machine (half_of image (phsize elf)) p hs
      → Replies l.machine (total hs) frame
      → AreFree lo hi phys (total hs) frame
      → Shows l lo hi phys image
      → Ensures (AllLoaded lo hi elf phys image l hs frame) (load_headers fuel (length hs) elf p l)
  unfolding load_headers
  load_headers-AllLoaded [] fuel p l frame lt tree a replies free shows = ensures (record {
    status = refl;
    tree = tree;
    segments = tt;
    others = λ q below beside. refl;
    ram = λ x out. refl;
    calls = omega arith;
  })
  load_headers-AllLoaded (h ∷ hs) fuel p l frame (lt, lts) tree (a, apart, fits, behind) replies
        free shows =
      let step = half_of image (phsize elf) in
      let place : (p + step) % 2 ^ 32 ≡ p + step = omega arith in
      let type =
        read_word-image l lo hi phys image shows p (omega (arith, a.inside))
          (omega (arith, a.inside)) in
      elim (Bool-cases (h.type == 1)) [
        | inl e ↦
            let load : h.type ≡ 1 = (==_iff h.type 1).0 e in
            let count : pages_in h ≡ page_count h.size = rw load refl in
            let all : total (h ∷ hs) ≡ page_count h.size + total hs = omega (arith, count) in
            let free' = subst (λ n. AreFree lo hi phys n frame) all free in
            let replies' = subst (λ n. Replies l.machine n frame) all replies in
            let own =
              first-AreFree lo hi elf phys image (page_count h.size) (total hs) frame free' in
            let (l', run, w) =
              load_segment-run lo hi elf phys image fuel p h l frame load (omega (arith, lt, count))
                tree a (λ k small. replies' k (omega arith)) own shows in
            let shows' =
              after_load-Shows lo hi elf phys image l p h frame (enone, l') (a.segment load) w own
                shows in
            rw
              (
                type,
                a.its_type,
                e,
                run,
                read_half-image l' lo hi phys image shows' (phsize elf) (omega (arith, header))
                    (omega (arith, header)),
                place,
              )
              (Ensures-map
                (load_headers-AllLoaded hs fuel (p + step) l' (λ k. frame (page_count h.size + k))
                  lts w.filled.tree
                  (HeadersAt-same lo hi elf phys image l.machine l'.machine step (p + step) hs
                    w.tables behind)
                  (rest-Replies lo hi elf phys image (page_count h.size) (total hs) frame l.machine
                    l'.machine w.replies w.filled.calls replies')
                  (rest-AreFree lo hi elf phys image (page_count h.size) (total hs) frame free')
                  shows')
                λ r rest. both-AllLoaded l l' p h hs frame r load a apart free' w rest)
        | inr e ↦
            let ne = not-==→ne h.type 1 e in
            let none_of : pages_in h ≡ 0 = rw e refl in
            let all : total (h ∷ hs) ≡ total hs = omega (arith, none_of) in
            rw
              (
                type,
                a.its_type,
                e,
                read_half-image l lo hi phys image shows (phsize elf) (omega (arith, header))
                    (omega (arith, header)),
                place,
              )
              (Ensures-map
                (load_headers-AllLoaded hs fuel (p + step) l frame lts tree behind
                  (subst (λ n. Replies l.machine n frame) all replies)
                  (subst (λ n. AreFree lo hi phys n frame) all free) shows)
                λ r rest. record {
                  status = rest.status;
                  tree = rest.tree;
                  segments = (λ load. absurd (ne load), rest.segments);
                  others = λ q below (first, next). rest.others q below next;
                  ram = λ x out. rest.ram x (λ k lt. out k (omega (arith, lt, all)));
                  calls = omega (arith, rest.calls, all);
                })
      ]

  -- A file in the memory whose headers are such a list, each for another segment of pages apart from
  -- the file and from each other, below the window of well-formed page tables and with their tables
  -- there; the allocator's next replies are a frame for each page of the segments, apart from each other
  -- and from the file. The loader reports ENONE, and each byte of each segment is in the memory at its
  -- address; all other pages below the window are translated as before, the bytes outside the frames are
  -- as before, and the allocator was called once for each page. The fuel is more than the pages of a
  -- segment. A header of another type is passed over.
  pub load_program-AllLoaded :
      (hs : List Header) (fuel : ℕ) (l : Loader) (frame : ℕ → ℕ)
      → half_of image (phcount elf) ≡ length hs
      → All (λ h. pages_in h < fuel) hs
      → IsTree l.machine
      → HeadersAt lo hi elf phys image l.machine
          (half_of image (phsize elf))
          ((elf + word_of image (phoffset elf)) % 2 ^ 32)
          hs
      → Replies l.machine (total hs) frame
      → AreFree lo hi phys (total hs) frame
      → Shows l lo hi phys image
      → Ensures (AllLoaded lo hi elf phys image l hs frame) (load_program fuel elf l)
  unfolding load_program
  load_program-AllLoaded hs fuel l frame count lt tree a replies free shows =
      rw
        (
          read_word-image l lo hi phys image shows (phoffset elf) (omega (arith, header))
              (omega (arith, header)),
          read_half-image l lo hi phys image shows (phcount elf) (omega (arith, header))
              (omega (arith, header)),
          count,
        )
        (load_headers-AllLoaded hs fuel ((elf + word_of image (phoffset elf)) % 2 ^ 32) l frame lt
          tree a replies free shows)
