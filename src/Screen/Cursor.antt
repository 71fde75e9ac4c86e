-- ===== src/Screen/Cursor.antt =====
-- The upload of the cursor: `lorieConvertCursor`, `lorieSetCursor` and `lorieMoveCursor` of InitOutput.c.
-- The mutex that is held around the upload is in Mutex.
use Prim.Native.Nat.{bit_and, bit_or}
use termux_x11_virtualkeys.Base.{
  ℕ, zero, suc, ◌+◌, ◌*◌, ◌/◌, ◌%◌, ◌^◌, ◌==◌, leb, not, ◌||◌, Bool, true, false, Option, none,
  some, List, [], ◌∷◌, ◌++◌, if◌then◌else◌,
}
pub mod Pixels
pub mod Sizes

-- A colour of the X server, in 16 bits for each part.
pub record Color : Type 0 where
  pub red : ℕ
  pub green : ℕ
  pub blue : ℕ

-- `CursorRec` with its `CursorBits`.
pub record Cursor : Type 0 where
  pub width : ℕ
  pub height : ℕ
  pub xhot : ℕ
  pub yhot : ℕ
  pub argb : Option (ℕ → ℕ)
  pub source : ℕ → ℕ
  pub mask : ℕ → ℕ
  pub fore : Color
  pub back : Color

-- `cursor` of `lorie_shared_server_state`; `bits` is what was written to it the last time.
pub record SharedCursor : Type 0 where
  pub x : ℕ
  pub y : ℕ
  pub xhot : ℕ
  pub yhot : ℕ
  pub width : ℕ
  pub height : ℕ
  pub bits : List ℕ
  pub updated : Bool
  pub moved : Bool

-- From BGRA to RGBA.
unfoldable pub swap_pixel : ℕ → ℕ
swap_pixel p =
    bit_or
      (bit_or (bit_or (bit_and p 0xff000000) (bit_and p 0x00ff0000 / 2 ^ 16))
        (bit_and p 0x0000ff00))
      (bit_and p 0x000000ff * 2 ^ 16)

-- `fg` and `bg`.
unfoldable pub packed : Color → ℕ
packed c = bit_or (bit_or (bit_and c.blue 0xff00 * 2 ^ 8) (bit_and c.green 0xff00)) (c.red / 2 ^ 8)

-- source[i] & bit
abbrev pub bit_set : ℕ → ℕ → Bool
bit_set byte x = not (bit_and byte (2 ^ bit_and x 7) == 0)

-- The loop over the pixels of a cursor in colour.
unfoldable pub argb_pixels : (ℕ → ℕ) → (rounds i : ℕ) → List ℕ
unfolding swap_pixel
argb_pixels argb zero i = []
argb_pixels argb (suc rounds) i = swap_pixel (argb i) ∷ argb_pixels argb rounds (suc i)

module _ (bitmap_byte_pad : ℕ → ℕ) (c : Cursor) where
  -- The pixel of a cursor in two colours.
  unfoldable pub mono_pixel : (x y : ℕ) → ℕ
  unfolding packed
  mono_pixel x y =
      let i = y * bitmap_byte_pad c.width + x / 8 in
      let d = if bit_set (c.source i) x then packed c.fore else packed c.back in
      if bit_set (c.mask i) x then bit_or d 0xff000000 else 0

  -- The loops over a row and over the rows, for the rounds left.
  unfoldable pub mono_row : (rounds x y : ℕ) → List ℕ
  mono_row zero x y = []
  mono_row (suc rounds) x y = mono_pixel x y ∷ mono_row rounds (suc x) y

  unfoldable pub mono_rows : (rounds y : ℕ) → List ℕ
  unfolding mono_row
  mono_rows zero y = []
  mono_rows (suc rounds) y = mono_row c.width 0 y ++ mono_rows rounds (suc y)

  -- `lorieConvertCursor`: the words from the first one on.
  unfoldable pub convert_cursor : List ℕ
  unfolding argb_pixels mono_rows
  convert_cursor = elim c.argb [
    | some argb ↦ argb_pixels argb (c.width * c.height) 0
    | none ↦ mono_rows c.height 0
  ]

-- `lorieMoveCursor`.
unfoldable pub move_cursor : (x y : ℕ) → SharedCursor → SharedCursor
move_cursor x y s = record s { x = x; y = y; moved = true }

abbrev pub too_big : Cursor → Bool
too_big c = leb 512 c.width || leb 512 c.height

-- The cursor that is drawn: the root cursor for one that is too big.
abbrev pub drawn : (root_cursor : Option Cursor) → Cursor → Option Cursor
drawn root_cursor c = if too_big c then root_cursor else some c

-- The branches of `lorieSetCursor`; the sizes are those of the cursor that was given.
abbrev pub upload : (ℕ → ℕ) → Cursor → Option Cursor → SharedCursor → SharedCursor
upload bitmap_byte_pad bits none s = record s {
  xhot = 0;
  yhot = 0;
  width = 0;
  height = 0;
  updated = true;
}
upload bitmap_byte_pad bits (some c) s = record s {
  xhot = bits.xhot;
  yhot = bits.yhot;
  width = bits.width;
  height = bits.height;
  bits = convert_cursor bitmap_byte_pad c;
  updated = true;
}

-- `lorieSetCursor`.
unfoldable pub set_cursor :
    (ℕ → ℕ) → (root_cursor cursor : Option Cursor) → (x0 y0 : ℕ) → SharedCursor → SharedCursor
unfolding move_cursor
set_cursor bitmap_byte_pad root_cursor none x0 y0 s =
    move_cursor x0 y0 (record s { xhot = 0; yhot = 0; width = 0; height = 0; updated = true })
set_cursor bitmap_byte_pad root_cursor (some c) x0 y0 s =
    move_cursor x0 y0 (upload bitmap_byte_pad c (drawn root_cursor c) s)
