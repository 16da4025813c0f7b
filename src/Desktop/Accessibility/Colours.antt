-- ===== src/Desktop/Accessibility/Colours.antt =====
-- Colours in hexadecimal.
use Prim.Native.Char.{Char, code}
use Prim.Native.String.{[], ◌∷◌}
use agentunited.Prelude.{
  ℕ, ◌+◌, ◌-◌, ◌/◌, ◌%◌, ◌<◌, false, some, ltb, ◌==◌, if◌then◌else◌, ◌≡◌, ◌⊎◌, inl, inr, refl,
  arith,
}
use agentunited.Desktop.Accessibility.{hex_digit, hex_byte, hex_to_rgb, six_digits}

-- The characters of a digit below 16.
abbrev pub lower_digit : ℕ → ℕ
lower_digit n = if ltb n 10 then b'0' + n else b'a' + (n - 10)

abbrev pub upper_digit : ℕ → ℕ
upper_digit n = if ltb n 10 then b'0' + n else b'A' + (n - 10)

-- A character that writes a digit.
abbrev pub Writes : Char → ℕ → Type 0
Writes c n = (code c ≡ lower_digit n) ⊎ (code c ≡ upper_digit n)

hex_digit_lem :
    (c n : ℕ) → n < 16 → (c ≡ lower_digit n) ⊎ (c ≡ upper_digit n) → hex_digit c ≡ some n
unfolding hex_digit
hex_digit_lem c n small (inl e) = rw e (ground arith)
hex_digit_lem c n small (inr e) = rw e (ground arith)

hex_byte_lem :
    (c d : Char) (b : ℕ)
    → b < 256
    → Writes c (b / 16)
    → Writes d (b % 16)
    → hex_byte (code c) (code d) ≡ some b
unfolding hex_byte
hex_byte_lem c d b small high low =
    rw
      (
        hex_byte,
        hex_digit_lem (code c) (b / 16) (omega arith) high,
        hex_digit_lem (code d) (b % 16) (omega arith) low,
      )
      (ground arith)

digit_no_hash : (c : Char) (n : ℕ) → n < 16 → Writes c n → (code c == b'#') ≡ false
digit_no_hash c n small (inl e) = rw e (ground arith)
digit_no_hash c n small (inr e) = rw e (ground arith)

module _ (r g b : ℕ) (rh rl gh gl bh bl : Char) (r_small : r < 256) (g_small : g < 256)
    (b_small : b < 256) (writes_rh : Writes rh (r / 16)) (writes_rl : Writes rl (r % 16))
    (writes_gh : Writes gh (g / 16)) (writes_gl : Writes gl (g % 16))
    (writes_bh : Writes bh (b / 16)) (writes_bl : Writes bl (b % 16)) where
  six_digits_lem : six_digits (rh ∷ (rl ∷ (gh ∷ (gl ∷ (bh ∷ (bl ∷ [])))))) ≡ some (r, g, b)
  unfolding six_digits
  six_digits_lem =
      rw
        (
          hex_byte_lem rh rl r r_small writes_rh writes_rl,
          hex_byte_lem gh gl g g_small writes_gh writes_gl,
          hex_byte_lem bh bl b b_small writes_bh writes_bl,
        )
        refl

  -- A colour that is written in hexadecimal digits of either case, with or without a #, is read back.
  pub hex_to_rgb_lem :
      (hex_to_rgb (rh ∷ (rl ∷ (gh ∷ (gl ∷ (bh ∷ (bl ∷ [])))))) ≡ some (r, g, b))
      × (hex_to_rgb ("#" ∷ (rh ∷ (rl ∷ (gh ∷ (gl ∷ (bh ∷ (bl ∷ []))))))) ≡ some (r, g, b))
  unfolding hex_to_rgb
  hex_to_rgb_lem =
      (rw (digit_no_hash rh (r / 16) (omega arith) writes_rh) six_digits_lem, six_digits_lem)
