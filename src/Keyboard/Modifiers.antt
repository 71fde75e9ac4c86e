-- ===== src/Keyboard/Modifiers.antt =====
-- The keys that shift: `loriePressShift`, `lorieReleaseShift`, `loriePressLevelThree`,
-- `lorieReleaseLevelThree` and `lorieIsAffectedByNumLock` of InputXKB.c. The keys that are to be
-- released go to an array of the caller; nothing is released where it is too small.
use termux_x11_virtualkeys.Base.{
  ℕ, zero, suc, ◌==◌, leb, not, ◌&&◌, Bool, true, false, Option, none, some, List, [], ◌∷◌, ◌++◌,
  if◌then◌else◌, length,
}
use termux_x11_virtualkeys.Keyboard.Xkb.{
  Xkb, Action, set_mods, lock_mods, other_action, shift_mask, xk_num_lock, has, without,
}
use termux_x11_virtualkeys.Keyboard.Translate.{key_action, effective_group}
use termux_x11_virtualkeys.Keyboard.Lookup.{
  lookup_key, all_rounds, action_mask, set_mods_mask, level_three_key, level_three_mask,
}

-- The first key that passes the test, or 0.
unfoldable pub first_key : (ℕ → Bool) → (rounds key : ℕ) → ℕ
first_key test zero key = 0
first_key test (suc rounds) key =
    let rest = first_key test rounds (suc key) in if test key then key else rest

-- The keys that pass the test; none where there are more than `max`.
unfoldable pub collect : (ℕ → Bool) → (max rounds key : ℕ) → List ℕ → List ℕ
collect test max zero key keys = keys
collect test max (suc rounds) key keys =
    let keys' = if test key then keys ++ (key ∷ []) else keys in
    let rest = collect test max rounds (suc key) keys' in
    if test key && leb max (length keys) then [] else rest

module _ (xkb : Xkb) where
  -- The action of the key in the state sets a modifier of the mask.
  abbrev pub sets : (state mask key : ℕ) → Bool
  sets state mask key = has (set_mods_mask xkb key (key_action xkb key state)) mask

  -- `loriePressShift`.
  unfoldable pub press_shift : ℕ → ℕ
  press_shift state =
      if has state shift_mask
      then 0
      else first_key (sets state shift_mask) (all_rounds xkb) xkb.min_key_code

  -- The loop of `lorieReleaseShift` and `lorieReleaseLevelThree`: the keys that are down and set the mask.
  unfoldable pub keys_down : (ℕ → Bool) → (state mask max : ℕ) → List ℕ
  keys_down down state mask max =
      collect (λ key. down key && sets state mask key) max (all_rounds xkb) xkb.min_key_code []

  -- `lorieReleaseShift`.
  unfoldable pub release_shift : (ℕ → Bool) → (state max : ℕ) → List ℕ
  unfolding keys_down
  release_shift down state max =
      if has state shift_mask then keys_down down state shift_mask max else []

  -- An action that sets modifiers.
  abbrev pub is_set_mods : Option Action → Bool
  is_set_mods none = false
  is_set_mods (some act) = elim act.type [
    | set_mods ↦ true
    | lock_mods ↦ false
    | other_action ↦ false
  ]

  -- `loriePressLevelThree`.
  unfoldable pub press_level_three : ℕ → ℕ
  press_level_three state =
      let mask = level_three_mask xkb state in
      let key = level_three_key xkb state in
      if mask == 0
      then 0
      else if has state mask
      then 0
      else if key == 0
      then 0
      else if is_set_mods (key_action xkb key state)
      then key
      else 0

  -- `lorieReleaseLevelThree`.
  unfoldable pub release_level_three : (ℕ → Bool) → (state max : ℕ) → List ℕ
  unfolding keys_down
  release_level_three down state max =
      let mask = level_three_mask xkb state in
      if mask == 0 then [] else if has state mask then keys_down down state mask max else []

  -- The mask that an action of `Num_Lock` locks; the modifier map is read at `keycode`.
  abbrev pub locked_mask : ℕ → Option Action → ℕ
  locked_mask keycode none = 0
  locked_mask keycode (some act) = elim act.type [
    | lock_mods ↦ action_mask xkb keycode act
    | set_mods ↦ 0
    | other_action ↦ 0
  ]

  -- `lorieIsAffectedByNumLock`.
  unfoldable pub is_affected_by_num_lock : (kstate keycode : ℕ) → Bool
  is_affected_by_num_lock kstate keycode =
      let state = without kstate 0xff in
      let num_lock = lookup_key xkb xk_num_lock state in
      let type = xkb.key_type keycode (effective_group xkb keycode state) in
      not (num_lock == 0)
      && has type.mods_mask (locked_mask keycode (key_action xkb num_lock state))
