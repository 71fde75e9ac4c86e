-- ===== src/Screen/Cursor/Sizes.antt =====
-- The sizes of a cursor after its upload, and the memory for its pixels, of InitOutput.c.
use termux_x11_virtualkeys.Base.{
  ℕ, ◌*◌, ◌≤◌, ◌<◌, ◌≡◌, refl, true, Bool-cases, Option, none, some, inl, inr, length, arith,
}
use termux_x11_virtualkeys.Screen.Cursor.{
  Cursor, SharedCursor, convert_cursor, move_cursor, too_big, drawn, upload, set_cursor,
}
use termux_x11_virtualkeys.Screen.Cursor.Pixels.{convert_cursor-length}

-- The words of `cursor.bits`.
abbrev pub capacity : ℕ
capacity = 512 * 512

abbrev pub IsSmallCursor : Option Cursor → Type 0
IsSmallCursor none = Unit
IsSmallCursor (some c) = (c.width < 512) × (c.height < 512)

area-lt : (w h : ℕ) → w < 512 → h < 512 → w * h ≤ capacity
area-lt w h a b = grind arith

convert_cursor-fits :
    (bitmap_byte_pad : ℕ → ℕ) (c : Cursor)
    → c.width < 512
    → c.height < 512
    → length (convert_cursor bitmap_byte_pad c) ≤ capacity
convert_cursor-fits bitmap_byte_pad c a b =
    omega (arith, convert_cursor-length bitmap_byte_pad c, area-lt c.width c.height a b)

upload-fits :
    (bitmap_byte_pad : ℕ → ℕ) (bits : Cursor) (o : Option Cursor) (s : SharedCursor)
    → IsSmallCursor o
    → length s.bits ≤ capacity
    → length (upload bitmap_byte_pad bits o s).bits ≤ capacity
upload-fits bitmap_byte_pad bits none s r h = h
upload-fits bitmap_byte_pad bits (some c) s r h = convert_cursor-fits bitmap_byte_pad c (r.0) (r.1)

drawn-IsSmallCursor :
    (root_cursor : Option Cursor) (c : Cursor)
    → IsSmallCursor root_cursor
    → IsSmallCursor (drawn root_cursor c)
drawn-IsSmallCursor root_cursor c r = elim (Bool-cases (too_big c)) [
  | inl e ↦ rw e r
  | inr e ↦ rw e (ground arith, ground arith)
]

-- Whatever the cursor, as many words as `cursor.bits` holds are written at most, where the root cursor
-- is less than 512 pixels wide and high.
pub set_cursor-fits :
    (bitmap_byte_pad : ℕ → ℕ) (root_cursor cursor : Option Cursor) (x0 y0 : ℕ) (s : SharedCursor)
    → IsSmallCursor root_cursor
    → length s.bits ≤ capacity
    → length (set_cursor bitmap_byte_pad root_cursor cursor x0 y0 s).bits ≤ capacity
unfolding set_cursor move_cursor
set_cursor-fits bitmap_byte_pad root_cursor none x0 y0 s r h = h
set_cursor-fits bitmap_byte_pad root_cursor (some c) x0 y0 s r h =
    upload-fits bitmap_byte_pad c (drawn root_cursor c) s (drawn-IsSmallCursor root_cursor c r) h

-- For a cursor that is at least 512 pixels wide and more than 512 high, the sizes that the renderer
-- reads by are those of the cursor, which are more words than the buffer has, while the words that are
-- written are those of the root cursor.
pub set_cursor_oversized :
    (bitmap_byte_pad : ℕ → ℕ) (root c : Cursor) (x0 y0 : ℕ) (s : SharedCursor)
    → 512 ≤ c.width
    → 512 < c.height
    → let s' = set_cursor bitmap_byte_pad (some root) (some c) x0 y0 s in
      (capacity < s'.width * s'.height) × (s'.bits ≡ convert_cursor bitmap_byte_pad root)
unfolding set_cursor move_cursor
set_cursor_oversized bitmap_byte_pad root c x0 y0 s a b = rw big (grind arith, refl)
  where
    big : too_big c ≡ true
    big = ground arith
