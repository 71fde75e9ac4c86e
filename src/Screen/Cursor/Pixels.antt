-- ===== src/Screen/Cursor/Pixels.antt =====
-- Where the pixels of the cursor stand, and how many are written.
use termux_x11_virtualkeys.Base.{
  ℕ, zero, suc, ◌+◌, ◌*◌, ◌<◌, ◌≡◌, refl, ap, ◌∙◌, subst, Option, none, some, List, [], ◌∷◌, ◌++◌,
  length, length-append, arith,
}
use termux_x11_virtualkeys.Screen.Cursor.{
  Cursor, swap_pixel, mono_pixel, mono_row, mono_rows, argb_pixels, convert_cursor,
}

-- The item of a list at an index.
unfoldable pub item_at {ℓ} : {A : Type ℓ} → List A → ℕ → Option A
item_at [] i = none
item_at (x ∷ xs) zero = some x
item_at (x ∷ xs) (suc i) = item_at xs i

item_at-append_left {ℓ} :
    {A : Type ℓ} (xs ys : List A) (i : ℕ) → i < length xs → item_at (xs ++ ys) i ≡ item_at xs i
unfolding item_at
item_at-append_left [] ys i h = absurd (omega arith)
item_at-append_left (x ∷ xs) ys zero h = refl
item_at-append_left (x ∷ xs) ys (suc i) h = item_at-append_left xs ys i (omega arith)

item_at-append_right {ℓ} :
    {A : Type ℓ} (xs ys : List A) (i : ℕ) → item_at (xs ++ ys) (length xs + i) ≡ item_at ys i
unfolding item_at
item_at-append_right [] ys i = ap (item_at ys) (omega arith)
item_at-append_right {A = A} (x ∷ xs) ys i =
    subst (λ (k : ℕ). item_at (x ∷ (xs ++ ys)) k ≡ item_at ys i) {x = suc (length xs + i)}
      (omega arith) (item_at-append_right xs ys i)

argb_pixels-length : (argb : ℕ → ℕ) (rounds i : ℕ) → length (argb_pixels argb rounds i) ≡ rounds
unfolding argb_pixels
argb_pixels-length argb zero i = refl
argb_pixels-length argb (suc rounds) i = omega (arith, argb_pixels-length argb rounds (suc i))

argb_pixels-item :
    (argb : ℕ → ℕ) (rounds i k : ℕ)
    → k < rounds
    → item_at (argb_pixels argb rounds i) k ≡ some (swap_pixel (argb (i + k)))
unfolding argb_pixels item_at
argb_pixels-item argb zero i k h = absurd (omega arith)
argb_pixels-item argb (suc rounds) i zero h =
    ap (λ (n : ℕ). some (swap_pixel (argb n))) (omega arith)
argb_pixels-item argb (suc rounds) i (suc k) h =
    argb_pixels-item argb rounds (suc i) k (omega arith)
    ∙ ap (λ (n : ℕ). some (swap_pixel (argb n))) (omega arith)

module _ (bitmap_byte_pad : ℕ → ℕ) (c : Cursor) where
  mono_row-length : (rounds x y : ℕ) → length (mono_row bitmap_byte_pad c rounds x y) ≡ rounds
  unfolding mono_row
  mono_row-length zero x y = refl
  mono_row-length (suc rounds) x y = omega (arith, mono_row-length rounds (suc x) y)

  mono_rows-length :
      (rounds y : ℕ) → length (mono_rows bitmap_byte_pad c rounds y) ≡ rounds * c.width
  unfolding mono_rows
  mono_rows-length zero y = omega arith
  mono_rows-length (suc rounds) y =
      length-append (mono_row bitmap_byte_pad c c.width 0 y)
        (mono_rows bitmap_byte_pad c rounds (suc y))
      ∙ grind (arith, mono_row-length c.width 0 y, mono_rows-length rounds (suc y))

  mono_row-item :
      (rounds x y k : ℕ)
      → k < rounds
      → item_at (mono_row bitmap_byte_pad c rounds x y) k
        ≡ some (mono_pixel bitmap_byte_pad c (x + k) y)
  unfolding mono_row item_at
  mono_row-item zero x y k h = absurd (omega arith)
  mono_row-item (suc rounds) x y zero h =
      ap (λ (n : ℕ). some (mono_pixel bitmap_byte_pad c n y)) (omega arith)
  mono_row-item (suc rounds) x y (suc k) h =
      mono_row-item rounds (suc x) y k (omega arith)
      ∙ ap (λ (n : ℕ). some (mono_pixel bitmap_byte_pad c n y)) (omega arith)

  mono_rows-item :
      (rounds y row x : ℕ)
      → row < rounds
      → x < c.width
      → item_at (mono_rows bitmap_byte_pad c rounds y) (row * c.width + x)
        ≡ some (mono_pixel bitmap_byte_pad c x (y + row))
  unfolding mono_rows
  mono_rows-item zero y row x h w = absurd (omega arith)
  mono_rows-item (suc rounds) y zero x h w =
      ap (item_at (first ++ rest)) {y = x} (omega arith)
      ∙ item_at-append_left first rest x (omega (arith, mono_row-length c.width 0 y))
      ∙ mono_row-item c.width 0 y x w
      ∙ ap (λ (n : ℕ). some (mono_pixel bitmap_byte_pad c n y)) {y = x} (omega arith)
      ∙ ap (λ (n : ℕ). some (mono_pixel bitmap_byte_pad c x n)) (omega arith)
    where
      first : List ℕ
      first = mono_row bitmap_byte_pad c c.width 0 y

      rest : List ℕ
      rest = mono_rows bitmap_byte_pad c rounds (suc y)
  mono_rows-item (suc rounds) y (suc row) x h w =
      ap (item_at (first ++ rest)) {y = length first + (row * c.width + x)}
        (grind (arith, mono_row-length c.width 0 y))
      ∙ item_at-append_right first rest (row * c.width + x)
      ∙ mono_rows-item rounds (suc y) row x (omega arith) w
      ∙ ap (λ (n : ℕ). some (mono_pixel bitmap_byte_pad c x n)) (omega arith)
    where
      first : List ℕ
      first = mono_row bitmap_byte_pad c c.width 0 y

      rest : List ℕ
      rest = mono_rows bitmap_byte_pad c rounds (suc y)

-- The pixel of the cursor at a place: of its colours, or of its two bitmaps.
abbrev pub pixel : (ℕ → ℕ) → Cursor → (x y : ℕ) → ℕ
pixel bitmap_byte_pad c x y = elim c.argb [
  | some argb ↦ swap_pixel (argb (y * c.width + x))
  | none ↦ mono_pixel bitmap_byte_pad c x y
]

pub convert_cursor-length :
    (bitmap_byte_pad : ℕ → ℕ) (c : Cursor)
    → length (convert_cursor bitmap_byte_pad c) ≡ c.width * c.height
unfolding convert_cursor
convert_cursor-length bitmap_byte_pad c = go c.argb
  where
    go :
        (o : Option (ℕ → ℕ))
        → length (elim o as (λ _. List ℕ) [
          | some argb ↦ argb_pixels argb (c.width * c.height) 0
          | none ↦ mono_rows bitmap_byte_pad c c.height 0
        ])
          ≡ c.width * c.height
    go none = grind (arith, mono_rows-length bitmap_byte_pad c c.height 0)
    go (some argb) = argb_pixels-length argb (c.width * c.height) 0

-- The conversion writes the pixels row by row: that at column `x` and row `y` stands at `y * width + x`.
pub convert_cursor-pixel :
    (bitmap_byte_pad : ℕ → ℕ) (c : Cursor) (x y : ℕ)
    → x < c.width
    → y < c.height
    → item_at (convert_cursor bitmap_byte_pad c) (y * c.width + x)
      ≡ some (pixel bitmap_byte_pad c x y)
unfolding convert_cursor
convert_cursor-pixel bitmap_byte_pad c x y h k = go c.argb
  where
    go :
        (o : Option (ℕ → ℕ))
        → item_at
            (elim o as (λ _. List ℕ) [
              | some argb ↦ argb_pixels argb (c.width * c.height) 0
              | none ↦ mono_rows bitmap_byte_pad c c.height 0
            ])
            (y * c.width + x)
          ≡ some (elim o as (λ _. ℕ) [
            | some argb ↦ swap_pixel (argb (y * c.width + x))
            | none ↦ mono_pixel bitmap_byte_pad c x y
          ])
    go none =
        mono_rows-item bitmap_byte_pad c c.height 0 y x k h
        ∙ ap (λ (n : ℕ). some (mono_pixel bitmap_byte_pad c x n)) (omega arith)
    go (some argb) =
        argb_pixels-item argb (c.width * c.height) 0 (y * c.width + x) (grind arith)
        ∙ ap (λ (n : ℕ). some (swap_pixel (argb n))) (omega arith)
