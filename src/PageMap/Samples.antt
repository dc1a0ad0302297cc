-- ===== src/PageMap/Samples.antt =====
-- Page tables for the tests.
use quark_kernel.Base.{
  ℕ, ◌≡◌, ◌≢◌, ◌<◌, ◌*◌, refl, [], some, arith, ◌==◌, if◌then◌else◌, true, false, Bool-cases, inl,
  inr, ==_iff, sym, ◌∙◌, Option, ap, ne→not-==,
}
use quark_kernel.Paging.{PageTableEntry, Machine}
use quark_kernel.Paging.Tree.{directory, IsTree}
use quark_kernel.Paging.Directory.{IsFree}

abbrev pub points_to : ℕ → PageTableEntry
points_to f = record {
  present = true;
  rw = true;
  usermode = false;
  other = 0;
  physical_address = f;
}

abbrev pub empty_entry : PageTableEntry
empty_entry = record {
  present = false;
  rw = false;
  usermode = false;
  other = 0;
  physical_address = 0;
}

-- The top table is frame 1; its first entry points to frame 2, which maps the page 4096 to frame 5.
abbrev pub one_page : (ℕ → Option ℕ) → Machine
one_page replies = record {
  frames = λ f i.
      if f == 1
      then if i == 1023 then points_to 1 else if i == 0 then points_to 2 else empty_entry
      else if f == 2
      then if i == 1 then points_to 5 else empty_entry
      else empty_entry;
  cr3 = 1;
  replies = replies;
  calls = 0;
  freed = [];
}

abbrev pub frame_3 : ℕ → Option ℕ
frame_3 n = some (3 * 4096)

present_top :
    (replies : ℕ → Option ℕ) (d : ℕ)
    → d < 1023
    → (directory (one_page replies) d).present ≡ true
    → d ≡ 0
present_top replies d low there = elim (Bool-cases (d == 0)) [
  | inl z ↦ (==_iff d 0).0 z
  | inr z ↦ absurd (cc (gone z, there))
]
  where
    gone : (d == 0) ≡ false → (directory (one_page replies) d).present ≡ false
    gone z = rw (ne→not-== d 1023 (λ e. omega (arith, e, low)), z) refl

pub top_address :
    (replies : ℕ → Option ℕ) (d : ℕ)
    → d < 1023
    → (directory (one_page replies) d).present ≡ true
    → (directory (one_page replies) d).physical_address ≡ 2
top_address replies d low there =
    ap (λ k. (directory (one_page replies) k).physical_address) (present_top replies d low there)

two_not_one : ◌≢◌ {A = ℕ} 2 1
two_not_one = omega arith

two_not_three : ◌≢◌ {A = ℕ} 2 3
two_not_three = omega arith

pub one_page-IsTree : (replies : ℕ → Option ℕ) → IsTree (one_page replies)
one_page-IsTree replies = record {
  self = refl;
  to_self = refl;
  apart = λ d low there e. absurd (two_not_one (sym (top_address replies d low there) ∙ e));
  distinct = λ d d' low low' there there' same.
      present_top replies d low there ∙ sym (present_top replies d' low' there');
}

pub frame_3-IsFree : IsFree (one_page frame_3) 1 3
frame_3-IsFree = (
  omega arith,
  λ d low ne there e. absurd (two_not_three (sym (top_address frame_3 d low there) ∙ e)),
)
