-- ===== src/Elf/Copy.antt =====
-- The copy of a part of the program into a frame.
use quark_kernel.Base.{
  ℕ, zero, suc, ◌+◌, ◌≤◌, ◌<◌, ◌≡◌, ◌≢◌, ◌⊎◌, inl, inr, Bool-cases, ◌∙◌, refl, ◌==◌, ==_iff,
  not-==→ne, ==_refl, ne→not-==, some, arith,
}
use quark_kernel.Base.Fault.{Ensures, ensures, Ensures-map}
use quark_kernel.Kernel.State.{put}
use quark_kernel.PageMap.Translate.{translate}
use quark_kernel.Elf.{Loader, copy_bytes}
use quark_kernel.Elf.Access.{read_byte-at, write_byte-at}

-- The bytes from the index `i` on are those of the source, and the memory outside is as before.
pub record Copied (ram : ℕ → ℕ) (frame i rounds : ℕ) (source : ℕ → ℕ) (ram' : ℕ → ℕ) : Type 0 where
  pub inside : (j : ℕ) → i ≤ j → j < i + rounds → ram' (frame + j) ≡ ram (source j)
  pub outside : (a : ℕ) → (a < frame + i) ⊎ (frame + i + rounds ≤ a) → ram' a ≡ ram a

put-other : (ram : ℕ → ℕ) (a v b : ℕ) → b ≢ a → put ram a v b ≡ ram b
put-other ram a v b ne = rw (ne→not-== b a ne) refl

put-same : (ram : ℕ → ℕ) (a v : ℕ) → put ram a v a ≡ v
put-same ram a v = rw (==_refl a) refl

module _ (dest src frame total : ℕ) (source : ℕ → ℕ)
    (apart : (j k : ℕ) → j < total → k < total → source j ≢ frame + k) where
  pub copy_bytes-Copied :
      (rounds i : ℕ) (l : Loader)
      → i + rounds ≤ total
      → ((j : ℕ) → j < total → translate l.machine (dest + j) ≡ some (frame + j))
      → ((j : ℕ) → j < total → translate l.machine (src + j) ≡ some (source j))
      → Ensures
          (λ (_, l').
            (ram' : ℕ → ℕ) × (l' ≡ record l { ram = ram' })
            × Copied l.ram frame i rounds source ram')
          (copy_bytes rounds dest src i l)
  unfolding copy_bytes
  copy_bytes-Copied zero i l le there from =
      ensures
        (l.ram, refl, record { inside = λ j a b. absurd (omega arith); outside = λ a h. refl })
  copy_bytes-Copied (suc rounds) i l le there from =
      let v = l.ram (source i) in
      let ram1 : ℕ → ℕ = put l.ram (frame + i) v in
      rw
        (
          read_byte-at l (src + i) (source i) (from i (omega arith)),
          write_byte-at l (dest + i) (frame + i) v (there i (omega arith)),
        )
        (Ensures-map
          (copy_bytes-Copied rounds (i + 1) (record l { ram = ram1 }) (omega (arith, le)) there
            from)
          λ (_, l') (ram', e, c). (
            ram',
            e,
            record {
              inside = inside ram' c;
              outside =
                  λ a h. c.outside a (around a h) ∙ put-other l.ram (frame + i) v a (beside a h);
            },
          ))
    where
      around :
          (a : ℕ)
          → (a < frame + i) ⊎ (frame + i + suc rounds ≤ a)
          → (a < frame + (i + 1)) ⊎ (frame + (i + 1) + rounds ≤ a)
      around a (inl lt) = inl (omega (arith, lt))
      around a (inr le) = inr (omega (arith, le))

      beside : (a : ℕ) → (a < frame + i) ⊎ (frame + i + suc rounds ≤ a) → a ≢ frame + i
      beside a (inl lt) e = omega (arith, lt, e)
      beside a (inr le) e = omega (arith, le, e)

      inside :
          (ram' : ℕ → ℕ)
          → Copied (put l.ram (frame + i) (l.ram (source i))) frame (i + 1) rounds source ram'
          → (j : ℕ) → i ≤ j
          → j < i + suc rounds
          → ram' (frame + j) ≡ l.ram (source j)
      inside ram' c j a b = elim (Bool-cases (j == i)) [
        | inl e ↦
            let same : j ≡ i = (==_iff j i).0 e in
            rw same (
              c.outside (frame + i) (inl (omega arith))
              ∙ put-same l.ram (frame + i) (l.ram (source i)))
        | inr e ↦
            let later : i + 1 ≤ j = omega (arith, a, not-==→ne j i e) in
            c.inside j later (omega (arith, b))
            ∙ put-other l.ram (frame + i) (l.ram (source i)) (source j)
                (apart j i (omega (arith, b, le)) (omega (arith, le)))
      ]
