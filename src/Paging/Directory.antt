-- ===== src/Paging/Directory.antt =====
-- The changes of an entry of the top table.
use quark_kernel.Base.{
  ℕ, ◌<◌, ◌≡◌, ◌≢◌, refl, true, false, some, ◌==◌, arith, Bool-cases, inl, inr, ==_refl, ==_iff,
  ne→not-==, not-==→ne, sym, ap, ◌∙◌,
}
use quark_kernel.Paging.{
  PageTableEntry, Machine, put_entry, get_pte_pointer, with_flags, set_pte_type, with_address,
  set_pte_address, set_pte,
}
use quark_kernel.Paging.Tree.{directory_index, directory, IsTree, read-directory, write-directory}
use quark_kernel.Paging.Entry.{put-put}

-- An entry of the top table may change to one that points to a table not in use.
abbrev pub IsFree : Machine → ℕ → ℕ → Type 0
IsFree s d f =
    (f ≢ s.cr3)
    × ((d' : ℕ)
        → d' < 1023
        → d' ≢ d
        → (directory s d').present ≡ true
        → (directory s d').physical_address ≢ f)

pub shows : {e e' : PageTableEntry} → e ≡ e' → e.present ≡ true → e'.present ≡ true
shows c there = ap (λ (x : PageTableEntry). x.present) (sym c) ∙ there

pub points : {e e' : PageTableEntry} → e ≡ e' → e.physical_address ≡ e'.physical_address
points c = ap (λ (x : PageTableEntry). x.physical_address) c

module _ (s : Machine) (h : IsTree s) (d : ℕ) (low : d < 1023) (e : PageTableEntry) where
  abbrev pub changed : Machine
  changed = put_entry s.cr3 d e s

  pub changed-same : directory changed d ≡ e
  changed-same = rw (==_refl s.cr3, ==_refl d) refl

  pub changed-at : (d' : ℕ) → (d' == d) ≡ true → directory changed d' ≡ e
  changed-at d' z = rw (==_refl s.cr3, z) refl

  pub changed-other : (d' : ℕ) → d' ≢ d → directory changed d' ≡ directory s d'
  changed-other d' ne = rw (==_refl s.cr3, ne→not-== d' d ne) refl

  pub top-IsTree : (e.present ≡ true → IsFree s d e.physical_address) → IsTree changed
  top-IsTree free = record {
    self = rw (changed-other 1023 (λ z. omega (arith, z, low))) h.self;
    to_self = rw (changed-other 1023 (λ z. omega (arith, z, low))) h.to_self;
    apart = λ d' lt there same. elim (Bool-cases (d' == d)) [
      | inl z ↦ let c = changed-at d' z in (free (shows c there)).0 (sym (points c) ∙ same)
      | inr z ↦
          let c = changed-other d' (not-==→ne d' d z) in
          h.apart d' lt (shows c there) (sym (points c) ∙ same)
    ];
    distinct = λ d' d'' lt lt' there there' same. elim (Bool-cases (d' == d)) [
      | inl z ↦ elim (Bool-cases (d'' == d)) [
        | inl z' ↦ (==_iff d' d).0 z ∙ sym ((==_iff d'' d).0 z')
        | inr z' ↦
            let c = changed-at d' z in
            let c' = changed-other d'' (not-==→ne d'' d z') in
            absurd (
              (free (shows c there)).1 d'' lt' (not-==→ne d'' d z') (shows c' there')
                (sym (points c') ∙ sym same ∙ points c))
      ]
      | inr z ↦ elim (Bool-cases (d'' == d)) [
        | inl z' ↦
            let c = changed-other d' (not-==→ne d' d z) in
            let c' = changed-at d'' z' in
            absurd (
              (free (shows c' there')).1 d' lt (not-==→ne d' d z) (shows c there)
                (sym (points c) ∙ same ∙ points c'))
        | inr z' ↦
            let c = changed-other d' (not-==→ne d' d z) in
            let c' = changed-other d'' (not-==→ne d'' d z') in
            h.distinct d' d'' lt lt' (shows c there) (shows c' there')
              (sym (points c) ∙ same ∙ points c')
      ]
    ];
  }

module _ (s : Machine) (h : IsTree s) (page : ℕ) (low : directory_index page < 1023) where
  set_pte_address-directory :
      (addr : ℕ)
      → set_pte_address page 0 addr s
        ≡ some (
          0,
          put_entry s.cr3
              (directory_index page)
              (with_address addr (directory s (directory_index page)))
              s,
        )
  unfolding set_pte_address get_pte_pointer
  set_pte_address-directory addr =
      rw
        (
          read-directory s h (directory_index page) (omega (arith, low)),
          write-directory s h (directory_index page)
              (with_address addr (directory s (directory_index page))) (omega (arith, low)),
        )
        refl

  set_pte_type-directory :
      (flags : ℕ)
      → set_pte_type page 0 flags s
        ≡ some (
          0,
          put_entry s.cr3
              (directory_index page)
              (with_flags flags (directory s (directory_index page)))
              s,
        )
  unfolding set_pte_type get_pte_pointer
  set_pte_type-directory flags =
      rw
        (
          read-directory s h (directory_index page) (omega (arith, low)),
          write-directory s h (directory_index page)
              (with_flags flags (directory s (directory_index page))) (omega (arith, low)),
        )
        refl

-- The same in the top table, for an entry that was not present.
module _ (s : Machine) (h : IsTree s) (page : ℕ) (low : directory_index page < 1023)
    (gone : (directory s (directory_index page)).present ≡ false) (flags addr : ℕ) where
  abbrev moved : PageTableEntry
  moved = with_address addr (directory s (directory_index page))

  pub set_pte-directory :
      set_pte page 0 flags addr s
      ≡ some (0, put_entry s.cr3 (directory_index page) (with_flags flags moved) s)
  unfolding set_pte
  set_pte-directory = rw (set_pte_address-directory s h page low addr) (
      set_pte_type-directory (changed s h (directory_index page) low moved)
        (top-IsTree s h (directory_index page) low moved (λ z. absurd (cc (gone, z)))) page low
        flags
      ∙ ap
          (λ (e : PageTableEntry). some (
            0,
            put_entry s.cr3 (directory_index page) (with_flags flags e)
                (changed s h (directory_index page) low moved),
          ))
          (changed-same s h (directory_index page) low moved)
      ∙ ap (λ (u : Machine). some (0, u))
          (put-put s.cr3 (directory_index page) moved (with_flags flags moved) s))
