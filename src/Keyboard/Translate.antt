-- ===== src/Keyboard/Translate.antt =====
-- `XkbTranslateKeyCode`, `XkbKeyActionPtr` and `XkbKeyEffectiveGroup` of InputXKB.c.
use Prim.Native.Nat.{bit_and}
use termux_x11_virtualkeys.Base.{
  ℕ, suc, ◌+◌, ◌-◌, ◌*◌, ◌%◌, ◌<◌, ◌==◌, ltb, not, ◌&&◌, ◌||◌, Bool, true, false, Option, none,
  some, List, [], ◌∷◌, if◌then◌else◌,
}
use termux_x11_virtualkeys.Keyboard.Xkb.{
  Xkb, Entry, KeyType, Action, wraps, clamps, redirects, no_symbol, without,
}
pub mod Bounds

pub record Translation : Type 0 where
  pub valid : Bool
  pub mods : ℕ
  pub keysym : ℕ

-- The level and the index of the first active entry for the modifiers.
unfoldable pub find_entry : ℕ → ℕ → List Entry → Option (ℕ × ℕ)
find_entry mods i [] = none
find_entry mods i (e ∷ es) =
    let rest = find_entry mods (suc i) es in
    if e.active && mods == e.mask then some (e.level, i) else rest

abbrev pub level_of : Option (ℕ × ℕ) → ℕ
level_of none = 0
level_of (some (level, i)) = level

abbrev pub preserved : (ℕ → ℕ) → Option (ℕ × ℕ) → ℕ
preserved preserve none = 0
preserved preserve (some (level, i)) = preserve i

module _ (xkb : Xkb) where
  -- The key is one of the keyboard and has groups.
  abbrev pub usable : ℕ → Bool
  usable key = xkb.in_range key && not (xkb.num_groups key == 0)

  -- The group for the modifiers, brought into range as the key says.
  unfoldable pub group_in_range : ℕ → ℕ → ℕ
  group_in_range key mods =
      let n = xkb.num_groups key in
      let group = xkb.group_for_core_state mods in
      if ltb group n then group else elim (xkb.group_action key) [
        | wraps ↦ group % n
        | clamps ↦ n - 1
        | redirects ↦ let number = xkb.group_number key in if ltb number n then number else 0
      ]

  -- `XkbKeyEffectiveGroup`.
  unfoldable pub effective_group : ℕ → ℕ → ℕ
  unfolding group_in_range
  effective_group key mods = if usable key then group_in_range key mods else 0

  -- The entry of the key's type for the modifiers.
  unfoldable pub entry_for : ℕ → ℕ → Option (ℕ × ℕ)
  unfolding find_entry
  entry_for key mods =
      let type = xkb.key_type key (group_in_range key mods) in
      find_entry (bit_and mods type.mods_mask) 0 type.entries

  -- Where the symbol and the action for the modifiers stand.
  unfoldable pub column : ℕ → ℕ → ℕ
  unfolding entry_for
  column key mods = group_in_range key mods * xkb.groups_width key + level_of (entry_for key mods)

  -- `XkbTranslateKeyCode`.
  unfoldable pub translate : ℕ → ℕ → Translation
  unfolding column
  translate key mods =
      let type = xkb.key_type key (group_in_range key mods) in
      let sym = xkb.syms key (column key mods) in
      if not (usable key)
      then (record { valid = false; mods = 0; keysym = no_symbol })
      else (record {
        valid = not (sym == no_symbol);
        mods = without type.mods_mask (preserved type.preserve (entry_for key mods));
        keysym = sym;
      })

  -- `XkbKeyActionPtr`.
  unfoldable pub key_action : ℕ → ℕ → Option Action
  unfolding column
  key_action key mods =
      if not (xkb.has_actions key)
      then none
      else if not (usable key)
      then none
      else some (xkb.actions key (column key mods))
