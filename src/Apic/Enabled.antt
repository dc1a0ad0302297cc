-- ===== src/Apic/Enabled.antt =====
-- The state in which the local interrupt controller and the two 8259 controllers are left by their
-- initialisation.
use quark_kernel.Base.{
  ℕ, ◌+◌, ◌*◌, ◌/◌, ◌%◌, ◌^◌, ◌<◌, ◌≡◌, ◌≢◌, ◌∙◌, refl, ap, Option, some, arith, ne→not-==, ==_refl,
  ◌∷◌,
}
use quark_kernel.Base.Fault.{Ensures, ensures}
use quark_kernel.Base.State.{St, continue, Ensures-then, ◌>>=◌, ◌>>◌}
use quark_kernel.Kernel.State.{put}
use quark_kernel.Paging.{Machine, page_rw}
use quark_kernel.Paging.Tree.{IsTree}
use quark_kernel.PageMap.Translate.{translate, translate-within, IsBelowWindow}
use quark_kernel.PageMap.Tables.{IsReady}
use quark_kernel.PageMap.Mapping.{Mapped, map_page-Mapped}
use quark_kernel.Apic.{Controller, read_register, write_register, with_machine}
use quark_kernel.Apic.Control.{
  apic_base, disable_pic, or_spurious, apic_enable, initialize_interrupts,
}
use quark_kernel.Apic.Pic.{Pics, AreMasked, pics_after, pic_bytes, pic_bytes-AreMasked}

-- The page of the registers is that of the physical address `base`.
abbrev pub MapsRegisters : Machine → (registers base : ℕ) → Type 0
MapsRegisters s registers base = (k : ℕ) → k < 4096 → translate s (registers + k) ≡ some (base + k)

pub put-at : (f : ℕ → ℕ) (p v : ℕ) → put f p v p ≡ v
put-at f p v = rw (==_refl p) refl

pub read_register-at :
    (c : Controller) (p a : ℕ)
    → translate c.machine p ≡ some a
    → read_register p c ≡ some (c.words a, c)
unfolding read_register
read_register-at c p a e = rw e refl

pub write_register-at :
    (c : Controller) (p a v : ℕ)
    → translate c.machine p ≡ some a
    → write_register p v c
      ≡ some (tt, record c { words = put c.words a v; writes = (a, v) ∷ c.writes })
unfolding write_register
write_register-at c p a v e = rw e refl

pub record Enabled (c : Controller) (registers base : ℕ) (u : Controller) : Type 0 where
  pub tree : IsTree u.machine
  pub mapped : MapsRegisters u.machine registers base
  pub pages :
      (q : ℕ)
      → IsBelowWindow q
      → q / 4096 ≢ registers / 4096
      → translate u.machine q ≡ translate c.machine q
  pub software_enable : u.words (base + 0xF0) / 2 ^ 8 % 2 ≡ 1
  pub spurious_vector : u.words (base + 0xF0) % 2 ^ 8 ≡ 255
  pub spurious_rest : u.words (base + 0xF0) / 2 ^ 9 ≡ c.words (base + 0xF0) / 2 ^ 9
  pub flat_model : u.words (base + 0xE0) ≡ 0xFFFFFFFF
  pub others : (a : ℕ) → a ≢ base + 0xF0 → a ≢ base + 0xE0 → u.words a ≡ c.words a
  pub pics : (p : Pics) → AreMasked (pics_after u.ports p)

disable_pic-bytes :
    (c : Controller) → disable_pic c ≡ some (tt, record c { ports = pic_bytes c.ports })
unfolding disable_pic
disable_pic-bytes c = refl

-- A call of the page map, and what follows it.
Ensures-machine :
    {A B : Type 0} {P : A × Machine → Type 0} {Q : B × Controller → Type 0}
    {m : Option (A × Machine)} (c : Controller) (f : A → St Controller B)
    → Ensures P m
    → ((a : A) (s : Machine) → P (a, s) → Ensures Q (f a (record c { machine = s })))
    → Ensures Q (continue (with_machine c m) f)
Ensures-machine c f (ensures p) k = k _ _ p

spurious_bits :
    (a : ℕ)
    → (or_spurious a / 2 ^ 8 % 2 ≡ 1)
      × (or_spurious a % 2 ^ 8 ≡ 255)
      × (or_spurious a / 2 ^ 9 ≡ a / 2 ^ 9)
spurious_bits a = omega arith

module _ (c : Controller) (registers base : ℕ) (low : IsBelowWindow registers)
    (z : registers % 4096 ≡ 0) (aligned : base % 4096 ≡ 0) where
  -- The writes behind the mapping of the page.
  configure :
      (status : ℕ) (s : Machine)
      → Mapped c.machine registers base page_rw (status, s)
      → Ensures
          (λ r. Enabled c registers base r.1)
          ((do
            a ← read_register (registers + 0xF0)
            write_register (registers + 0xF0) (or_spurious a)
            write_register (registers + 0xE0) 0xFFFFFFFF)
            (record c { machine = s; ports = pic_bytes c.ports }))
  configure status s m =
      let at : MapsRegisters s registers base =
        λ k lt. translate-within s registers base k z lt (m.here ∙ ap some (omega (arith, z))) in
      let c1 : Controller = record c { machine = s; ports = pic_bytes c.ports } in
      let old = c.words (base + 0xF0) in
      let v = or_spurious old in
      let c2 : Controller = record c1 {
        words = put c.words (base + 0xF0) v;
        writes = (base + 0xF0, v) ∷ c.writes;
      } in
      let there : put (put c.words (base + 0xF0) v) (base + 0xE0) 0xFFFFFFFF (base + 0xF0) ≡ v =
        rw (ne→not-== (base + 0xF0) (base + 0xE0) (λ e. omega (arith, e)))
          (put-at c.words (base + 0xF0) v) in
      rw
        (
          read_register-at c1 (registers + 0xF0) (base + 0xF0) (at 0xF0 (omega arith)),
          write_register-at c1 (registers + 0xF0) (base + 0xF0) v (at 0xF0 (omega arith)),
          write_register-at c2 (registers + 0xE0) (base + 0xE0) 0xFFFFFFFF (at 0xE0 (omega arith)),
        )
        (ensures (record {
          tree = m.tree;
          mapped = at;
          pages = m.others;
          software_enable = ap (λ x. x / 2 ^ 8 % 2) there ∙ (spurious_bits old).0;
          spurious_vector = ap (λ x. x % 2 ^ 8) there ∙ (spurious_bits old).1;
          spurious_rest = ap (λ x. x / 2 ^ 9) there ∙ (spurious_bits old).2;
          flat_model = put-at (put c.words (base + 0xF0) v) (base + 0xE0) 0xFFFFFFFF;
          others = λ a n n'. rw (ne→not-== a (base + 0xE0) n', ne→not-== a (base + 0xF0) n) refl;
          pics = λ p. pic_bytes-AreMasked c.ports p;
        }))

pub apic_enable-Enabled :
    (c : Controller) (registers msr : ℕ)
    → IsTree c.machine
    → IsBelowWindow registers
    → registers % 4096 ≡ 0
    → msr < 2 ^ 32
    → IsReady c.machine registers
    → Ensures (λ r. Enabled c registers (msr / 4096 * 4096) r.1) (apic_enable registers msr c)
unfolding apic_enable
apic_enable-Enabled c registers msr h low z lt ready =
    let base : apic_base msr * 2 ^ 12 % 2 ^ 32 ≡ msr / 4096 * 4096 = omega (arith, lt) in
    rw (disable_pic-bytes c, base)
      (Ensures-machine (record c { ports = pic_bytes c.ports }) _
        (map_page-Mapped c.machine registers (msr / 4096 * 4096) page_rw h low (omega arith)
          (omega arith) ready)
        (configure c registers (msr / 4096 * 4096) low z (omega arith)))

-- Where the page tables are well formed and the page of `apic_registers` is below the window and can be
-- mapped, `initialize_interrupts` returns 0 with that page mapped to the base address that MSR_APIC_BASE
-- gives, and every other page translated as before. The controller is enabled with the spurious vector
-- 255, the upper bits of that register are kept, the destination format is flat, and no other register
-- is written. Both 8259 controllers have every line masked, and their vectors behind the exceptions,
-- from whatever state they were in. The value of MSR_APIC_BASE is below 2^32.
pub initialize_interrupts-Enabled :
    (c : Controller) (registers msr : ℕ)
    → IsTree c.machine
    → IsBelowWindow registers
    → registers % 4096 ≡ 0
    → msr < 2 ^ 32
    → IsReady c.machine registers
    → Ensures
        (λ r. (r.0 ≡ 0) × Enabled c registers (msr / 4096 * 4096) r.1)
        (initialize_interrupts registers msr c)
unfolding initialize_interrupts
initialize_interrupts-Enabled c registers msr h low z lt ready =
    Ensures-then (apic_enable-Enabled c registers msr h low z lt ready)
      λ status s e. ensures (refl, e)
