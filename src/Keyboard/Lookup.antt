-- ===== src/Keyboard/Lookup.antt =====
-- `lorieKeysymToKeycode` and `lorieGetLevelThreeMask` of InputXKB.c.
use Prim.Native.Nat.{bit_and, bit_or}
use termux_x11_virtualkeys.Base.{
  ℕ, zero, suc, ◌+◌, ◌-◌, ◌==◌, not, ◌&&◌, ◌||◌, Bool, true, false, Option, none, some, List, [],
  ◌∷◌, if◌then◌else◌,
}
use termux_x11_virtualkeys.Keyboard.Xkb.{
  Xkb, Action, set_mods, lock_mods, other_action, no_symbol, shift_mask, lock_mask,
  xk_iso_level3_shift, xk_mode_switch, has, without, flipped,
}
use termux_x11_virtualkeys.Keyboard.Translate.{translate, key_action}
pub mod Found

-- `fakeKeys`.
unfoldable pub is_fake_key : ℕ → Bool
is_fake_key key =
    key == 92 || (key == 203 || (key == 204 || (key == 205 || (key == 206 || key == 207))))

module _ (xkb : Xkb) where
  -- The keysym of a key, in upper case where a lock is not consumed.
  unfoldable pub keysym_of : ℕ → ℕ → ℕ
  keysym_of state key =
      let t = translate xkb key state in
      if has (without state t.mods) lock_mask then (xkb.convert_case t.keysym).1 else t.keysym

  -- The key gives the keysym in that state.
  unfoldable pub produces : (keysym state key : ℕ) → Bool
  unfolding keysym_of
  produces keysym state key =
      not ((translate xkb key state).keysym == no_symbol) && keysym_of state key == keysym

  -- The loop over the keys from `key` on, for the rounds left.
  unfoldable pub search_key : (keysym state rounds key fallback : ℕ) → ℕ
  search_key keysym state zero key fallback = fallback
  search_key keysym state (suc rounds) key fallback =
      let match = produces keysym state key in
      let fallback' = if match && (is_fake_key key && fallback == 0) then key else fallback in
      let rest = search_key keysym state rounds (suc key) fallback' in
      if match && not (is_fake_key key) then key else rest

  abbrev pub all_rounds : ℕ
  all_rounds = xkb.max_key_code + 1 - xkb.min_key_code

  -- `lorieKeysymToKeycode` where `new_state` is `NULL`.
  unfoldable pub lookup_key : (keysym state : ℕ) → ℕ
  unfolding search_key
  lookup_key keysym state = search_key keysym state all_rounds xkb.min_key_code 0

  -- act->mods, by the modifier map of the key where the action says so.
  abbrev pub action_mask : ℕ → Action → ℕ
  action_mask key act = if act.uses_modmap then xkb.modmap key else act.mask

  -- The mask of an action that sets modifiers; 0 for any other.
  abbrev pub set_mods_mask : ℕ → Option Action → ℕ
  set_mods_mask key none = 0
  set_mods_mask key (some act) = elim act.type [
    | set_mods ↦ action_mask key act
    | lock_mods ↦ 0
    | other_action ↦ 0
  ]

  -- The key that shifts to level three in a state.
  unfoldable pub level_three_key : ℕ → ℕ
  level_three_key state =
      let key = lookup_key xk_iso_level3_shift state in
      if key == 0 then lookup_key xk_mode_switch state else key

  -- `lorieGetLevelThreeMask`, in the state of the keyboard.
  unfoldable pub level_three_mask : ℕ → ℕ
  unfolding level_three_key
  level_three_mask state =
      let groups = without state 0xff in
      let key = level_three_key groups in
      if key == 0 then 0 else set_mods_mask key (key_action xkb key groups)

  -- The states that are tried, one after the other.
  abbrev pub shifted : ℕ → ℕ
  shifted state = bit_or (without state shift_mask) (flipped state shift_mask)

  abbrev pub levelled : ℕ → ℕ → ℕ
  levelled mask state = bit_or (without state mask) (flipped state mask)

  abbrev pub shifted_levelled : ℕ → ℕ → ℕ
  shifted_levelled mask state =
      bit_or (bit_or (without state (bit_or shift_mask mask)) (flipped state shift_mask))
        (flipped state mask)

  -- The last two states, where there is a level three.
  unfoldable pub lookup_levelled : (keysym state mask : ℕ) → ℕ × ℕ
  lookup_levelled keysym state mask =
      if mask == 0
      then (0, shifted state)
      else (let key = lookup_key keysym (levelled mask state) in
          if key == 0
          then (lookup_key keysym (shifted_levelled mask state), shifted_levelled mask state)
          else (key, levelled mask state))

  -- `lorieKeysymToKeycode`: the key and the state it needs. `kstate` is the state of the keyboard.
  unfoldable pub keysym_to_keycode : (kstate keysym state : ℕ) → ℕ × ℕ
  unfolding lookup_levelled
  keysym_to_keycode kstate keysym state =
      let key = lookup_key keysym state in
      let key' = lookup_key keysym (shifted state) in
      if not (key == 0)
      then (key, state)
      else if not (key' == 0)
      then (key', shifted state)
      else lookup_levelled keysym state (level_three_mask kstate)
