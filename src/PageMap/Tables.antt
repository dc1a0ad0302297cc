-- ===== src/PageMap/Tables.antt =====
-- `add_tables`, the loop of `map_page`, on the loaded page tables.
use quark_kernel.Base.{
  ℕ, ◌+◌, ◌*◌, ◌/◌, ◌%◌, ◌^◌, ◌<◌, ◌≡◌, refl, Bool, true, false, none, some, if◌then◌else◌, arith,
  ne→not-==, sym, subst, ◌∙◌,
}
use quark_kernel.Base.Fault.{Ensures, ensures}
use quark_kernel.Base.State.{Ensures-then}
use quark_kernel.Status.{enone, enomem}
use quark_kernel.Paging.{
  PageTableEntry, Machine, page_rw, page_usermode, page_present, page_anon, has_flag, put_entry,
  flags_of, with_flags, with_address,
}
use quark_kernel.Paging.Tree.{directory_index, directory, IsTree}
use quark_kernel.Paging.Entry.{get_pte_type-directory}
use quark_kernel.Paging.Directory.{
  IsFree, set_pte-directory, top-IsTree, changed-same, shows, points,
}
use quark_kernel.Paging.Wipe.{Wiped, wipe-Wiped}
use quark_kernel.PageMap.{reserve_pages, reserve_page, add_tables}
use quark_kernel.PageMap.Translate.{
  IsBelowWindow, SameTranslation, translate-same, IsTree-same, directory-wiped, translate-wiped,
}

-- The page's table is there, or the allocator's next reply is an aligned frame that is free to be
-- one.
pub data IsReady (s : Machine) (page : ℕ) : Type 0 where
  there : (directory s (directory_index page)).present ≡ true → IsReady s page
  fresh :
      (f : ℕ)
      → (directory s (directory_index page)).present ≡ false
      → s.replies s.calls ≡ some (f * 4096)
      → f < 2 ^ 20
      → IsFree s (directory_index page) f
      → IsReady s page

-- The page's table is there after `add_tables`, and no translation has changed.
pub record HasTable (s : Machine) (page : ℕ) (r : ℕ × Machine) : Type 0 where
  pub status : r.0 ≡ enone
  pub tree : IsTree r.1
  pub there : (directory r.1 (directory_index page)).present ≡ true
  pub same : SameTranslation s r.1

-- No entry gives PAGE_ANON.
pub flag_bits :
    (p w u : Bool)
    → let flags = (if p then 65538 else 0) + (if w then 1 else 0) + (if u then 4 else 0) in
      (has_flag page_present flags ≡ p) × (has_flag page_anon flags ≡ false)
flag_bits true true true = (refl, refl)
flag_bits true true false = (refl, refl)
flag_bits true false true = (refl, refl)
flag_bits true false false = (refl, refl)
flag_bits false true true = (refl, refl)
flag_bits false true false = (refl, refl)
flag_bits false false true = (refl, refl)
flag_bits false false false = (refl, refl)

pub present_flag : (e : PageTableEntry) → has_flag page_present (flags_of e) ≡ e.present
present_flag e = (flag_bits e.present e.rw e.usermode).0

pub anon_flag : (e : PageTableEntry) → has_flag page_anon (flags_of e) ≡ false
anon_flag e = (flag_bits e.present e.rw e.usermode).1

module _ (s : Machine) (h : IsTree s) (page : ℕ) (low : IsBelowWindow page) where
  pub add_tables-there :
      (directory s (directory_index page)).present ≡ true → add_tables 1 0 page s ≡ some (enone, s)
  unfolding add_tables
  add_tables-there z =
      rw (get_pte_type-directory s h page low, present_flag (directory s (directory_index page)), z)
        refl

  pub add_tables-no_memory :
      (directory s (directory_index page)).present ≡ false
      → s.replies s.calls ≡ none
      → add_tables 1 0 page s ≡ some (enomem, record s { calls = s.calls + 1 })
  unfolding add_tables reserve_page reserve_pages
  add_tables-no_memory z no_memory =
      rw
        (
          get_pte_type-directory s h page low,
          present_flag (directory s (directory_index page)),
          z,
          no_memory,
        )
        refl

pub frame_number : (f : ℕ) → f < 2 ^ 20 → f * 4096 / 2 ^ 12 % 2 ^ 20 ≡ f
frame_number f h = omega arith

-- The entry for a new table, and the state with it.
abbrev table_entry : PageTableEntry → ℕ → PageTableEntry
table_entry e f = with_flags (page_present + page_usermode + page_rw) (with_address (f * 4096) e)

module _ (s : Machine) (h : IsTree s) (page : ℕ) (low : IsBelowWindow page) (f : ℕ)
    (gone : (directory s (directory_index page)).present ≡ false)
    (reply : s.replies s.calls ≡ some (f * 4096)) (small : f < 2 ^ 20)
    (free : IsFree s (directory_index page) f) where
  abbrev reserved : Machine
  reserved = record s { calls = s.calls + 1 }

  abbrev entry : PageTableEntry
  entry = table_entry (directory s (directory_index page)) f

  abbrev linked : Machine
  linked = put_entry s.cr3 (directory_index page) entry reserved

  reserved-IsTree : IsTree reserved
  reserved-IsTree = IsTree-same s reserved refl (λ d. refl) h

  is_free : IsFree reserved (directory_index page) entry.physical_address
  is_free = subst (IsFree reserved (directory_index page)) (sym (frame_number f small)) free

  linked-IsTree : IsTree linked
  linked-IsTree = top-IsTree reserved reserved-IsTree (directory_index page) low entry λ z. is_free

  linked-entry : directory linked (directory_index page) ≡ entry
  linked-entry = changed-same reserved reserved-IsTree (directory_index page) low entry

  fresh-HasTable : Ensures (HasTable s page) (add_tables 1 0 page s)
  unfolding add_tables reserve_page reserve_pages
  fresh-HasTable =
      rw
        (
          get_pte_type-directory s h page low,
          present_flag (directory s (directory_index page)),
          gone,
          reply,
          ne→not-== (f * 4096) 4 (λ z. omega (arith, z)),
          set_pte-directory reserved reserved-IsTree page low gone 65541 (f * 4096),
        )
        (Ensures-then (wipe-Wiped linked linked-IsTree page low (shows (sym linked-entry) refl))
          λ t r w. ensures (wiped_table t r w))
    where
      wiped_table :
          (t : Unit {0}) (r : Machine)
          → Wiped linked (directory linked (directory_index page)).physical_address 0 (t, r)
          → HasTable s page (enone, r)
      wiped_table t r w' =
          let w = subst (λ x. Wiped linked x 0 (t, r)) (points linked-entry) w' in
          let top =
            directory-wiped reserved reserved-IsTree (directory_index page) low gone entry is_free
              (t, r) w in
          record {
            status = refl;
            tree = IsTree-same linked r w.cr3 top linked-IsTree;
            there = shows (sym (top (directory_index page) ∙ linked-entry)) refl;
            same = λ q below.
                translate-wiped reserved reserved-IsTree (directory_index page) low gone entry
                  is_free (t, r) w q below
                ∙ translate-same s reserved q refl (λ z. refl);
          }

-- A page that is ready gets its table.
pub add_tables-HasTable :
    (s : Machine) (page : ℕ)
    → IsTree s
    → IsBelowWindow page
    → IsReady s page
    → Ensures (HasTable s page) (add_tables 1 0 page s)
add_tables-HasTable s page h low (there z) =
    rw (add_tables-there s h page low z)
      (ensures (record { status = refl; tree = h; there = z; same = λ q below. refl }))
add_tables-HasTable s page h low (fresh f gone reply small free) =
    fresh-HasTable s h page low f gone reply small free
