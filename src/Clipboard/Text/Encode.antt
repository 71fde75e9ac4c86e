-- ===== src/Clipboard/Text/Encode.antt =====
-- UTF-8 as its definition has it, independent of clipboard.c.
use termux_x11_virtualkeys.Base.{
  ℕ, ◌+◌, ◌/◌, ◌%◌, ◌≤◌, ◌<◌, ◌⊎◌, List, [], ◌∷◌, ◌++◌, ltb, if◌then◌else◌, length, arith,
}

-- A Unicode scalar value: a code point that is no surrogate.
abbrev pub IsScalar : ℕ → Type 0
IsScalar u = (u < 0x110000) × ((u < 0xd800) ⊎ (0xe000 ≤ u))

unfoldable pub encode : ℕ → List ℕ
encode u =
    if ltb u 0x80
    then u ∷ []
    else if ltb u 0x800
    then (0xc0 + u / 64) ∷ (0x80 + u % 64) ∷ []
    else if ltb u 0x10000
    then (0xe0 + u / 4096) ∷ (0x80 + u / 64 % 64) ∷ (0x80 + u % 64) ∷ []
    else (0xf0 + u / 262144) ∷ (0x80 + u / 4096 % 64) ∷ (0x80 + u / 64 % 64) ∷ (0x80 + u % 64) ∷ []

unfoldable pub encode_all : List ℕ → List ℕ
encode_all [] = []
encode_all (u ∷ us) = encode u ++ encode_all us

pub length-encode_bounds : (u : ℕ) → (1 ≤ length (encode u)) × (length (encode u) ≤ 4)
unfolding encode
length-encode_bounds u = ground arith
