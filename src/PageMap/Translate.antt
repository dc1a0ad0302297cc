-- ===== src/PageMap/Translate.antt =====
-- The translation of addresses by the loaded page tables, which the page map edits, and what an
-- edit changes of it.
use quark_kernel.Base.{
  ℕ, ◌+◌, ◌*◌, ◌/◌, ◌%◌, ◌<◌, ◌≡◌, ◌≢◌, refl, Bool, true, false, Option, none, some, ◌==◌,
  if◌then◌else◌, arith, Bool-cases, inl, inr, ==_iff, ne→not-==, not-==→ne, sym, ap, ◌∙◌, ◌&&◌,
  and_both,
}
use quark_kernel.Paging.{PageTableEntry, Machine, put_entry}
use quark_kernel.Paging.Tree.{directory_index, table_index, directory, IsTree, directory-put}
use quark_kernel.Paging.Entry.{table_of, entry_of, put-read}
use quark_kernel.Paging.Directory.{IsFree, shows, points, changed-at, changed-other}
use quark_kernel.Paging.Wipe.{Wiped}

-- The translation by the entries of the two levels.
abbrev pub address_in : PageTableEntry → PageTableEntry → ℕ → Option ℕ
address_in top entry page =
    if top.present
    then if entry.present then some (entry.physical_address * 4096 + page % 4096) else none
    else none

unfoldable pub translate : Machine → ℕ → Option ℕ
translate s page = address_in (directory s (directory_index page)) (entry_of s page) page

abbrev pub IsBelowWindow : ℕ → Type 0
IsBelowWindow page = directory_index page < 1023

-- What the processor finds for the pages below the window is the same.
abbrev pub SameTranslation : Machine → Machine → Type 0
SameTranslation s s' = (q : ℕ) → IsBelowWindow q → translate s' q ≡ translate s q

pub translate-missing :
    (s : Machine) (q : ℕ) → (directory s (directory_index q)).present ≡ false → translate s q ≡ none
unfolding translate
translate-missing s q gone = rw gone refl

pub translate-entry :
    (s : Machine) (q : ℕ) (e : PageTableEntry)
    → (directory s (directory_index q)).present ≡ true
    → entry_of s q ≡ e
    → translate s q ≡ (if e.present then some (e.physical_address * 4096 + q % 4096) else none)
unfolding translate
translate-entry s q e there same = rw there (
    ap
      (λ (x : PageTableEntry).
        if x.present then some (x.physical_address * 4096 + q % 4096) else none)
      same)

pub translate-clear : (s : Machine) (q : ℕ) → (entry_of s q).present ≡ false → translate s q ≡ none
unfolding translate
translate-clear s q gone = elim (Bool-cases (directory s (directory_index q)).present) [
  | inl z ↦ rw (z, gone) refl
  | inr z ↦ rw z refl
]

pub translate-same :
    (s s' : Machine) (q : ℕ)
    → directory s' (directory_index q) ≡ directory s (directory_index q)
    → ((directory s (directory_index q)).present ≡ true
        → s'.frames (table_of s q) (table_index q) ≡ entry_of s q)
    → translate s' q ≡ translate s q
unfolding translate
translate-same s s' q top entry =
    ap (λ (x : PageTableEntry). address_in x (s'.frames x.physical_address (table_index q)) q) top
    ∙ (elim (Bool-cases (directory s (directory_index q)).present) [
      | inl z ↦
          ap (λ (x : PageTableEntry). address_in (directory s (directory_index q)) x q) (entry z)
      | inr z ↦ rw z refl
    ])

same_page :
    (p q : ℕ)
    → directory_index p ≡ directory_index q
    → table_index p ≡ table_index q
    → p / 4096 ≡ q / 4096
same_page p q h k = omega (arith, h, k)

page_parts :
    (p q : ℕ)
    → p / 4096 ≡ q / 4096
    → (directory_index p ≡ directory_index q) × (table_index p ≡ table_index q)
page_parts p q h = (omega (arith, h), omega (arith, h))

none_stays :
    (there present : Bool) (a b : ℕ)
    → (if there then (if present then some a else none) else none) ≡ none
    → (if there then (if present then some b else none) else none) ≡ none
none_stays true true a b e = absurd (ground (arith, e))
none_stays true false a b e = refl
none_stays false present a b e = refl

-- An address in a page that is not mapped is not mapped.
pub translate-same_page :
    (s : Machine) (p q : ℕ) → q / 4096 ≡ p / 4096 → translate s p ≡ none → translate s q ≡ none
unfolding translate
translate-same_page s p q same gone =
    let (top, low) = page_parts q p same in
    ap
      (λ d.
        address_in (directory s d) (s.frames (directory s d).physical_address (table_index q)) q)
      top
    ∙ ap (λ i. address_in (directory s (directory_index p)) (s.frames (table_of s p) i) q) low
    ∙ none_stays (directory s (directory_index p)).present (entry_of s p).present
        ((entry_of s p).physical_address * 4096 + p % 4096)
        ((entry_of s p).physical_address * 4096 + q % 4096) gone

address_within :
    (there present : Bool) (f a k offset : ℕ)
    → offset ≡ 0
    → (if there then (if present then some (f * 4096 + offset) else none) else none) ≡ some a
    → (if there then (if present then some (f * 4096 + k) else none) else none) ≡ some (a + k)
address_within true true f a k offset z e = ground (arith, e)
address_within true false f a k offset z e = absurd (ground (arith, e))
address_within false present f a k offset z e = absurd (ground (arith, e))

-- The bytes of a page lie in its frame in order.
pub translate-within :
    (s : Machine) (p a k : ℕ)
    → p % 4096 ≡ 0
    → k < 4096
    → translate s p ≡ some a
    → translate s (p + k) ≡ some (a + k)
unfolding translate
translate-within s p a k z lt e =
    let top : directory_index (p + k) ≡ directory_index p = omega arith in
    let low : table_index (p + k) ≡ table_index p = omega arith in
    let rest : (p + k) % 4096 ≡ k = omega arith in
    ap
      (λ d.
        address_in (directory s d) (s.frames (directory s d).physical_address (table_index (p + k)))
          (p + k))
      top
    ∙ ap (λ i. address_in (directory s (directory_index p)) (s.frames (table_of s p) i) (p + k)) low
    ∙ rw rest (
        address_within (directory s (directory_index p)).present (entry_of s p).present
          (entry_of s p).physical_address a k (p % 4096) z e)

-- A write of the entry of a page in its table.
module _ (s : Machine) (h : IsTree s) (page : ℕ) (low : IsBelowWindow page)
    (there : (directory s (directory_index page)).present ≡ true) (e : PageTableEntry) where
  abbrev pub written : Machine
  written = put_entry (table_of s page) (table_index page) e s

  not_top : table_of s page ≢ s.cr3
  not_top = h.apart (directory_index page) low there

  pub directory-written : (d : ℕ) → directory written d ≡ directory s d
  directory-written d = directory-put s h (table_of s page) (table_index page) d e not_top

  pub entry-written : entry_of written page ≡ e
  entry-written =
      ap (λ (x : PageTableEntry). written.frames x.physical_address (table_index page))
        (directory-written (directory_index page))
      ∙ put-read (table_of s page) (table_index page) e s

  -- Where the write is to the same entry, the page is the same.
  pub translate-others :
      (q : ℕ) → IsBelowWindow q → q / 4096 ≢ page / 4096 → translate written q ≡ translate s q
  translate-others q below ne =
      translate-same s written q (directory-written (directory_index q)) λ z.
        elim (Bool-cases (table_of s q == table_of s page && table_index q == table_index page)) [
          | inl both ↦
              let (tables, indices) = and_both both in
              let one =
                h.distinct (directory_index q) (directory_index page) below low z there
                  ((==_iff (table_of s q) (table_of s page)).0 tables) in
              absurd
                (ne (same_page q page one ((==_iff (table_index q) (table_index page)).0 indices)))
          | inr other ↦ rw other refl
        ]

-- Two states of the same top table.
pub IsTree-same :
    (s s' : Machine)
    → s'.cr3 ≡ s.cr3
    → ((d : ℕ) → directory s' d ≡ directory s d)
    → IsTree s
    → IsTree s'
IsTree-same s s' root same h = record {
  self = rw (same 1023) h.self;
  to_self = rw (same 1023, root) h.to_self;
  apart =
      λ d low there to. h.apart d low (shows (same d) there) (sym (points (same d)) ∙ to ∙ root);
  distinct = λ d d' low low' there there' one.
      h.distinct d d' low low' (shows (same d) there) (shows (same d') there')
        (sym (points (same d)) ∙ one ∙ points (same d'));
}

-- A table that was not in use, wiped, in the place of a missing one.
module _ (s : Machine) (h : IsTree s) (d : ℕ) (low : d < 1023)
    (gone : (directory s d).present ≡ false) (e : PageTableEntry)
    (free : IsFree s d e.physical_address) (r : Unit {0} × Machine)
    (w : Wiped (put_entry s.cr3 d e s) e.physical_address 0 r) where
  pub directory-wiped : (d' : ℕ) → directory r.1 d' ≡ directory (put_entry s.cr3 d e s) d'
  directory-wiped d' = ap (λ f. r.1.frames f d') w.cr3 ∙ w.elsewhere s.cr3 d' (λ z. free.0 (sym z))

  wiped_clear : (q : ℕ) → directory r.1 (directory_index q) ≡ e → (entry_of r.1 q).present ≡ false
  wiped_clear q top =
      ap (λ (x : PageTableEntry). (r.1.frames x.physical_address (table_index q)).present) top
      ∙ ap (λ (x : PageTableEntry). x.present)
          (w.inside (table_index q) (omega arith) (omega arith))

  wiped_other :
      (q : ℕ)
      → IsBelowWindow q
      → directory_index q ≢ d
      → (directory s (directory_index q)).present ≡ true
      → r.1.frames (table_of s q) (table_index q) ≡ entry_of s q
  wiped_other q below ne there =
      w.elsewhere (table_of s q) (table_index q) (free.1 (directory_index q) below ne there)
      ∙ rw (ne→not-== (table_of s q) s.cr3 (h.apart (directory_index q) below there)) refl

  pub translate-wiped : SameTranslation s r.1
  translate-wiped q below = elim (Bool-cases (directory_index q == d)) [
    | inl z ↦
        let same = (==_iff (directory_index q) d).0 z in
        let top =
          directory-wiped (directory_index q) ∙ changed-at s h d low e (directory_index q) z in
        translate-clear r.1 q (wiped_clear q top)
        ∙ sym (translate-missing s q (ap (λ k. (directory s k).present) same ∙ gone))
    | inr z ↦
        let ne = not-==→ne (directory_index q) d z in
        translate-same s r.1 q
          (directory-wiped (directory_index q) ∙ changed-other s h d low e (directory_index q) ne)
          (wiped_other q below ne)
  ]
