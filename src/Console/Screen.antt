-- ===== src/Console/Screen.antt =====
-- What a character does to the screen.
use quark_kernel.Base.{
  ℕ, zero, suc, ◌+◌, ◌-◌, ◌*◌, ◌/◌, ◌%◌, ◌^◌, ◌≤◌, ◌<◌, ◌≡◌, ◌≢◌, inl, inr, refl, Bool-cases, List,
  ◌∷◌, ◌==◌, ltb, leb, lt→ltb, le→not-ltb, if◌then◌else◌, arith, ==_refl, ==_iff, ne→not-==,
  not-==→ne, sym, ap, ◌∙◌,
}
use quark_kernel.Base.Fault.{Ensures, ensures}
use quark_kernel.Base.State.{Ensures-then}
use quark_kernel.Console.{
  Console, newline, tab, carriage_return, space, scroll_from, scroll, put_cell, place, putchar,
}

-- The loop moves the cells from `i` on one line up.
module _ (screen : ℕ → ℕ) where
  record Lifted (i : ℕ) (result : ℕ → ℕ) : Type 0 where
    below : (j : ℕ) → j < i → result j ≡ screen j
    moved : (j : ℕ) → i ≤ j → j < 1920 → result j ≡ screen (j + 80)
    blank : (j : ℕ) → i ≤ j → 1920 ≤ j → j < 2000 → result j ≡ space

lifted_char : (ℕ → ℕ) → ℕ → ℕ
lifted_char screen i = if ltb i 1920 then screen (i + 80) else 32

scroll_from-Lifted :
    (rounds i : ℕ) (screen : ℕ → ℕ)
    → i + rounds ≡ 2000
    → Lifted screen i (scroll_from rounds i screen)
unfolding scroll_from
scroll_from-Lifted zero i screen e = record {
  below = λ j lt. refl;
  moved = λ j le lt. absurd (omega (arith, e));
  blank = λ j le le' lt. absurd (omega (arith, e));
}
scroll_from-Lifted (suc rounds) i screen e =
    let c = if ltb i 1920 then screen (i + 80) else 32 in
    let next : ℕ → ℕ = λ j. if j == i then c else screen j in
    let w = scroll_from-Lifted rounds (i + 1) next (omega (arith, e)) in
    record {
      below = λ j lt.
          w.below j (omega (arith, lt)) ∙ rw (ne→not-== j i (λ z. omega (arith, z, lt))) refl;
      moved = λ j le lt. elim (Bool-cases (j == i)) [
        | inl z ↦
            let same = (==_iff j i).0 z in
            ap (scroll_from rounds (i + 1) next) same
            ∙ w.below i (omega arith)
            ∙ rw (==_refl i, lt→ltb i 1920 (omega (arith, same, lt)))
                (ap (λ k. screen (k + 80)) (sym same))
        | inr z ↦
            w.moved j (omega (arith, le, not-==→ne j i z)) lt
            ∙ rw (ne→not-== (j + 80) i (λ z'. omega (arith, z', le))) refl
      ];
      blank = λ j le le' lt. elim (Bool-cases (j == i)) [
        | inl z ↦
            let same = (==_iff j i).0 z in
            ap (scroll_from rounds (i + 1) next) same
            ∙ w.below i (omega arith)
            ∙ rw (==_refl i, le→not-ltb i 1920 (omega (arith, same, le'))) refl
        | inr z ↦ w.blank j (omega (arith, le, not-==→ne j i z)) le' lt
      ];
    }

-- The cells and the cursor after a scroll, if one was due.
pub record Scrolled (screen : ℕ → ℕ) (cursor : ℕ) (s : Console) : Type 0 where
  pub lines : ℕ
  pub at_most_one : lines ≤ 1
  pub back : s.cursor + lines * 80 ≡ cursor
  pub on_screen : s.cursor < 2000
  pub visible : (i : ℕ) → i + lines * 80 < 2000 → s.screen i ≡ screen (i + lines * 80)
  pub blank : (i : ℕ) → i < 2000 → 2000 ≤ i + lines * 80 → s.screen i ≡ space

scroll-Scrolled : (s : Console) → s.cursor < 2080 → Scrolled s.screen s.cursor (scroll s)
unfolding scroll
scroll-Scrolled s lt = elim (Bool-cases (leb 2000 s.cursor)) [
  | inl z ↦
      let w = scroll_from-Lifted 2000 0 s.screen (omega arith) in
      let full : 2000 ≤ s.cursor = ground (arith, z) in
      rw z (record {
        lines = 1;
        at_most_one = omega arith;
        back = omega (arith, full, lt);
        on_screen = omega (arith, full, lt);
        visible = λ i fits. w.moved i (omega arith) (omega (arith, fits));
        blank = λ i fits past. w.blank i (omega arith) (omega (arith, past)) fits;
      })
  | inr z ↦
      let room : s.cursor < 2000 = ground (arith, z) in
      rw z (record {
        lines = 0;
        at_most_one = omega arith;
        back = omega arith;
        on_screen = room;
        visible = λ i fits. ap s.screen (omega arith);
        blank = λ i fits past. absurd (omega (arith, fits, past));
      })
]

-- Where a character leaves the cursor, and the cells, before a scroll.
abbrev pub next_cursor : ℕ → ℕ → ℕ
next_cursor c cursor =
    if c == newline
    then (cursor / 80 + 1) * 80
    else if c == tab
    then (cursor / 4 + 1) * 4
    else cursor + 1

abbrev pub next_screen : ℕ → Console → ℕ → ℕ
next_screen c s i =
    if c == newline
    then s.screen i
    else if c == tab
    then s.screen i
    else if i == s.cursor
    then c % 2 ^ 8
    else s.screen i

-- The port gets the byte of the character, and a carriage return after a newline.
abbrev pub next_port : ℕ → Console → List ℕ
next_port c s = if c == newline then carriage_return ∷ c % 2 ^ 8 ∷ s.port else c % 2 ^ 8 ∷ s.port

record Placed (c : ℕ) (s : Console) (u : Console) : Type 0 where
  screen : (i : ℕ) → u.screen i ≡ next_screen c s i
  cursor : u.cursor ≡ next_cursor c s.cursor
  port : u.port ≡ next_port c s

next_line :
    (k : ℕ)
    → k < 2000
    → ((k + 80) % 2 ^ 32 + 2 ^ 32 - (k + 80) % 2 ^ 32 % 80) % 2 ^ 32 ≡ (k / 80 + 1) * 80
next_line k lt = omega arith

next_cell : (k : ℕ) → k < 2000 → (k + 1) % 2 ^ 32 ≡ k + 1
next_cell k lt = omega arith

next_stop :
    (k : ℕ)
    → k < 2000
    → ((k + 4) % 2 ^ 32 + 2 ^ 32 - (k + 4) % 2 ^ 32 % 4) % 2 ^ 32 ≡ (k / 4 + 1) * 4
next_stop k lt = omega arith

place-Placed :
    (c : ℕ) (s : Console)
    → s.cursor < 2000
    → c ≢ carriage_return
    → Ensures (λ r. Placed c s r.1) (place c (record s { port = c % 2 ^ 8 ∷ s.port }))
unfolding place put_cell
place-Placed c s lt ne = elim (Bool-cases (c == 10)) [
  | inl z ↦ rw z (
      ensures (record {
        screen = λ i. rw z refl;
        cursor = rw z (next_line s.cursor lt);
        port = rw z refl;
      }))
  | inr z ↦ elim (Bool-cases (c == 9)) [
    | inl z' ↦
        rw (z, z')
          (ensures (record {
            screen = λ i. rw (z, z') refl;
            cursor = rw (z, z') (next_stop s.cursor lt);
            port = rw z refl;
          }))
    | inr z' ↦
        rw (z, z', ne→not-== c 13 ne, lt→ltb s.cursor 2048 (omega (arith, lt)))
          (ensures (record {
            screen = λ i. rw (z, z') refl;
            cursor = rw (z, z') (next_cell s.cursor lt);
            port = rw z refl;
          }))
  ]
]

-- The cells, the cursor and the port after a character.
pub record Shown (c : ℕ) (s : Console) (r : ℕ × Console) : Type 0 where
  pub result : r.0 ≡ c
  pub port : r.1.port ≡ next_port c s
  pub scrolled : Scrolled (next_screen c s) (next_cursor c s.cursor) r.1

next_cursor-bound : (c k : ℕ) → k < 2000 → next_cursor c k < 2080
next_cursor-bound c k lt = elim (Bool-cases (c == 10)) [
  | inl z ↦ rw z (omega (arith, lt))
  | inr z ↦ elim (Bool-cases (c == 9)) [
    | inl z' ↦ rw (z, z') (omega (arith, lt))
    | inr z' ↦ rw (z, z') (omega (arith, lt))
  ]
]

Placed-Scrolled :
    (c : ℕ) (s u v : Console)
    → Placed c s u
    → Scrolled u.screen u.cursor v
    → Scrolled (next_screen c s) (next_cursor c s.cursor) v
Placed-Scrolled c s u v p w = record {
  lines = w.lines;
  at_most_one = w.at_most_one;
  back = w.back ∙ p.cursor;
  on_screen = w.on_screen;
  visible = λ i fits. w.visible i fits ∙ p.screen (i + w.lines * 80);
  blank = w.blank;
}

scroll-port : (s : Console) → (scroll s).port ≡ s.port
unfolding scroll
scroll-port s = elim (Bool-cases (leb 2000 s.cursor)) [ inl z ↦ rw z refl | inr z ↦ rw z refl ]

pub putchar-Shown :
    (c : ℕ) (s : Console)
    → s.cursor < 2000
    → c ≢ carriage_return
    → Ensures (Shown c s) (putchar c s)
unfolding putchar
putchar-Shown c s lt ne = Ensures-then (place-Placed c s lt ne) λ t u p. ensures (record {
  result = refl;
  port = scroll-port u ∙ p.port;
  scrolled =
      Placed-Scrolled c s u (scroll u) p
        (scroll-Scrolled u (rw p.cursor (next_cursor-bound c s.cursor lt)));
})
