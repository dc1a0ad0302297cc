-- ===== src/Apic/Pic.antt =====
-- The two 8259 controllers, as their manual has it: what they make of the bytes that are sent to their
-- ports.
use quark_kernel.Base.{ℕ, ◌/◌, ◌%◌, ◌≡◌, refl, List, [], ◌∷◌, ◌==◌, if◌then◌else◌}

-- What the data port takes next: the words of an initialisation, and then the mask.
pub data Expects : Type 0 where
  icw2 icw3 icw4 ocw1 : Expects

-- `first_vector` is the vector of the first line, `mask` has a 1 for each line that is masked.
pub record Pic : Type 0 where
  pub expects : Expects
  pub first_vector : ℕ
  pub mask : ℕ

-- An initialisation starts with the bit 4, and clears the mask.
abbrev command : ℕ → Pic → Pic
command v p = if v / 16 % 2 == 1 then record p { expects = icw2; mask = 0 } else p

abbrev data_word : Expects → ℕ → Pic → Pic
data_word icw2 v p = record p { expects = icw3; first_vector = v }
data_word icw3 v p = record p { expects = icw4 }
data_word icw4 v p = record p { expects = ocw1 }
data_word ocw1 v p = record p { mask = v }

pub record Pics : Type 0 where
  pub master : Pic
  pub slave : Pic

abbrev sent : ℕ → ℕ → Pics → Pics
sent port v p =
    if port == 0x20
    then record p { master = command v p.master }
    else if port == 0x21
    then record p { master = data_word p.master.expects v p.master }
    else if port == 0xA0
    then record p { slave = command v p.slave }
    else if port == 0xA1
    then record p { slave = data_word p.slave.expects v p.slave }
    else p

-- The controllers after the bytes, the last of which comes first.
unfoldable pub pics_after : List (ℕ × ℕ) → Pics → Pics
pics_after [] p = p
pics_after ((port, v) ∷ bytes) p = sent port v (pics_after bytes p)

-- Every line of both is masked, and their vectors are behind those of the exceptions.
pub record AreMasked (p : Pics) : Type 0 where
  pub master : p.master ≡ record { expects = ocw1; first_vector = 32; mask = 255 }
  pub slave : p.slave ≡ record { expects = ocw1; first_vector = 40; mask = 255 }

abbrev pub pic_bytes : List (ℕ × ℕ) → List (ℕ × ℕ)
pic_bytes old =
    (0x21, 0xFF)
    ∷ (0xA1, 0xFF)
    ∷ (0xA1, 0x01)
    ∷ (0x21, 0x01)
    ∷ (0xA1, 2)
    ∷ (0x21, 4)
    ∷ (0xA1, 0x28)
    ∷ (0x21, 0x20)
    ∷ (0xA0, 0x11)
    ∷ (0x20, 0x11)
    ∷ old

pub pic_bytes-AreMasked : (old : List (ℕ × ℕ)) (p : Pics) → AreMasked (pics_after (pic_bytes old) p)
unfolding pics_after
pic_bytes-AreMasked old p = record { master = refl; slave = refl }
