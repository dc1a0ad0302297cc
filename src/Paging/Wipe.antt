-- ===== src/Paging/Wipe.antt =====
-- `wipe_page_table` on the table of a page.
use quark_kernel.Base.{
  ℕ, zero, suc, ◌+◌, ◌*◌, ◌/◌, ◌%◌, ◌≤◌, ◌<◌, ◌≡◌, ◌≢◌, refl, Bool, true, false, ◌==◌,
  if◌then◌else◌, arith, Bool-cases, inl, inr, ==_refl, ==_iff, not-==→ne, ne→not-==, sym, subst, ap,
  ◌∙◌,
}
use quark_kernel.Base.Fault.{Ensures, ensures, Ensures-map}
use quark_kernel.Paging.{
  PageTableEntry, Machine, page_present, has_flag, flags_of, put_entry, wipe_from, wipe_page_table,
}
use quark_kernel.Paging.Tree.{
  directory_index, directory, IsTree, read-table, write-table, put-IsTree, directory-put,
}
use quark_kernel.Paging.Entry.{put-read, get_pte_type-directory, halves}

abbrev pub clear : PageTableEntry → PageTableEntry
clear e = record e { present = false; physical_address = 0 }

-- The entries of the table from `i` on are cleared, and all else is as before.
pub record Wiped (s : Machine) (table i : ℕ) (r : Unit {0} × Machine) : Type 0 where
  pub inside : (j : ℕ) → i ≤ j → j < 1024 → r.1.frames table j ≡ clear (s.frames table j)
  pub below : (j : ℕ) → j < i → r.1.frames table j ≡ s.frames table j
  pub elsewhere : (f j : ℕ) → f ≢ table → r.1.frames f j ≡ s.frames f j
  pub cr3 : r.1.cr3 ≡ s.cr3
  pub replies : r.1.replies ≡ s.replies
  pub calls : r.1.calls ≡ s.calls
  pub freed : r.1.freed ≡ s.freed

in_table : (d i : ℕ) → i < 1024 → ((d * 1024 + i) / 1024 ≡ d) × ((d * 1024 + i) % 1024 ≡ i)
in_table d i h = omega arith

-- The entry `i` cleared first, and then the entries from `i + 1` on.
put-Wiped :
    (s : Machine) (t i n : ℕ)
    → i < 1024
    → {t' : ℕ} → t' ≡ t
    → (r : Unit {0} × Machine) → Wiped (put_entry t i (clear (s.frames t i)) s) t' (i + 1) r
    → Wiped s t i r
put-Wiped s t i n lt same r w' =
    let s' = put_entry t i (clear (s.frames t i)) s in
    let w = subst (λ x. Wiped s' x (i + 1) r) same w' in
    record {
      inside = λ j le lt. elim (Bool-cases (j == i)) [
        | inl z ↦
            let same = (==_iff j i).0 z in
            ap (λ k. r.1.frames t k) same
            ∙ w.below i (omega arith)
            ∙ put-read t i (clear (s.frames t i)) s
            ∙ ap (λ k. clear (s.frames t k)) (sym same)
        | inr z ↦ w.inside j (omega (arith, le, not-==→ne j i z)) lt ∙ rw (==_refl t, z) refl
      ];
      below = λ j lt.
          w.below j (omega (arith, lt))
          ∙ rw (==_refl t, ne→not-== j i (λ z. omega (arith, z, lt))) refl;
      elsewhere = λ f j ne. w.elsewhere f j ne ∙ rw (ne→not-== f t ne) refl;
      cr3 = w.cr3;
      replies = w.replies;
      calls = w.calls;
      freed = w.freed;
    }

module _ (d : ℕ) (low : d < 1023) where
  wipe_from-Wiped :
      (n i : ℕ) (s : Machine)
      → IsTree s
      → (directory s d).present ≡ true
      → i + n ≡ 1024
      → Ensures (Wiped s (directory s d).physical_address i) (wipe_from n (d * 1024) i s)
  unfolding wipe_from
  wipe_from-Wiped zero i s h there e = ensures (record {
    inside = λ j le lt. absurd (omega arith);
    below = λ j lt. refl;
    elsewhere = λ f j ne. refl;
    cr3 = refl;
    replies = refl;
    calls = refl;
    freed = refl;
  })
  wipe_from-Wiped (suc n) i s h there e =
      let (at, index) = in_table d i (omega (arith, e)) in
      let t = (directory s d).physical_address in
      let ne = h.apart d low there in
      let cleared = clear (s.frames t i) in
      let s' = put_entry t i cleared s in
      let keep = directory-put s h t i d cleared ne in
      let read = rw (at, index) at (read-table s h (d * 1024 + i) (rw at there)) in
      let write = rw (at, index) at (write-table s h (d * 1024 + i) (rw at there) cleared) in
      rw (read, write)
        (Ensures-map
          (wipe_from-Wiped n (i + 1) s' (put-IsTree s h t i cleared ne) (rw keep there)
            (omega (arith, e)))
          (put-Wiped s t i n (omega (arith, e))
            (ap (λ (x : PageTableEntry). x.physical_address) keep)))

flag_bit :
    (w u : Bool)
    → has_flag page_present (65538 + (if w then 1 else 0) + (if u then 4 else 0)) ≡ true
flag_bit true true = refl
flag_bit true false = refl
flag_bit false true = refl
flag_bit false false = refl

module _ (s : Machine) (h : IsTree s) (page : ℕ) (low : directory_index page < 1023)
    (there : (directory s (directory_index page)).present ≡ true) where
  present_flag : has_flag page_present (flags_of (directory s (directory_index page))) ≡ true
  present_flag = rw there (
      flag_bit (directory s (directory_index page)).rw
        (directory s (directory_index page)).usermode)

  pub wipe-Wiped :
      Ensures
        (Wiped s (directory s (directory_index page)).physical_address 0)
        (wipe_page_table page 1 s)
  unfolding wipe_page_table
  wipe-Wiped =
      rw (get_pte_type-directory s h page low, present_flag)
        (rw (halves page)
          (wipe_from-Wiped (directory_index page) low 1024 0 s h there (omega arith)))
