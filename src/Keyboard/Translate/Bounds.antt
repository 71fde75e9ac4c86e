-- ===== src/Keyboard/Translate/Bounds.antt =====
-- The column of a key and the symbols of the key, in `XkbTranslateKeyCode` of InputXKB.c.
use Prim.Native.Nat.{bit_and}
use termux_x11_virtualkeys.Base.{ℕ, suc, ◌+◌, ◌*◌, ◌<◌, List, [], ◌∷◌, arith, All}
use termux_x11_virtualkeys.Keyboard.Xkb.{Xkb, Entry}
use termux_x11_virtualkeys.Keyboard.Translate.{
  find_entry, level_of, group_in_range, entry_for, column,
}

module _ (xkb : Xkb) where
  group_in_range-lt :
      (key mods : ℕ) → 0 < xkb.num_groups key → group_in_range xkb key mods < xkb.num_groups key
  unfolding group_in_range
  group_in_range-lt key mods h = grind arith

  -- The levels of a type fit the width of the groups.
  abbrev pub Narrow : ℕ → Entry → Type 0
  Narrow width e = e.level < width

  find_entry-Narrow :
      (mods i width : ℕ) (es : List Entry)
      → 0 < width
      → All (Narrow width) es
      → level_of (find_entry mods i es) < width
  unfolding find_entry
  find_entry-Narrow mods i width [] h a = h
  find_entry-Narrow mods i width (e ∷ es) h a =
      ground (arith, find_entry-Narrow mods (suc i) width es)

-- The symbol and the action that are read for a key with groups stand within the groups of the key,
-- whatever the modifiers, where every level of the type is less than the width of a group.
pub column-lt :
    (xkb : Xkb) (key mods : ℕ)
    → 0 < xkb.num_groups key
    → 0 < xkb.groups_width key
    → All
        (Narrow xkb (xkb.groups_width key))
        (xkb.key_type key (group_in_range xkb key mods)).entries
    → column xkb key mods < xkb.num_groups key * xkb.groups_width key
unfolding column entry_for
column-lt xkb key mods g w a = in_table _ _ _ _ (group_in_range-lt xkb key mods g) (
    find_entry-Narrow xkb (bit_and mods (xkb.key_type key (group_in_range xkb key mods)).mods_mask)
      0 (xkb.groups_width key) _ w a)
  where
    in_table : (r c width n : ℕ) → r < n → c < width → r * width + c < n * width
    in_table r c width n h k = grind arith
