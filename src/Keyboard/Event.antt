-- ===== src/Keyboard/Event.antt =====
-- `lorieKeysymKeyboardEvent` of InputXKB.c, between the two calls of `mieqProcessInputEvents`: the state
-- of the keyboard and the keys that are down stay as they are, and the events are queued.
use Prim.Native.Nat.{bit_or}
use termux_x11_virtualkeys.Base.{
  ℕ, zero, suc, ◌==◌, not, ◌&&◌, ◌||◌, Bool, true, false, Option, none, some, List, [], ◌∷◌, ◌++◌,
  map, if◌then◌else◌,
}
use termux_x11_virtualkeys.Keyboard.Xkb.{Xkb, no_symbol, shift_mask, xk_tab, has, without}
use termux_x11_virtualkeys.Keyboard.Lookup.{keysym_to_keycode, level_three_mask}
use termux_x11_virtualkeys.Keyboard.Modifiers.{
  press_shift, release_shift, press_level_three, release_level_three, is_affected_by_num_lock,
}
use termux_x11_virtualkeys.Keyboard.Added.{Added, on_key_used, add_keysym}
pub mod Balance
pub mod Release

-- `QueueKeyboardEvents`.
pub data KeyEvent : Type 0 where
  press release : ℕ → KeyEvent

-- The keyboard, `addedKeysyms` and `pressedKeys`.
pub record Keys : Type 0 where
  pub xkb : Xkb
  pub added : List Added
  pub pressed : ℕ → ℕ

-- The state and the keys that are down, and what the X server and `malloc` answer.
pub record Env : Type 0 where
  pub kstate : ℕ
  pub is_down : ℕ → Bool
  pub change_types : ℕ → Xkb → Xkb
  pub allocates : Bool

-- `altKeysym`.
abbrev pub alt_keysyms : List (ℕ × ℕ)
alt_keysyms =
    (0xffe1, 0xffe2)
    ∷ (0xffe3, 0xffe4)
    ∷ (0xffe7, 0xffe8)
    ∷ (0xffe9, 0xffea)
    ∷ (0xffeb, 0xffec)
    ∷ (0xffed, 0xffee)
    ∷ (0xff80, 0x20)
    ∷ (0xff89, 0xff09)
    ∷ (0xff8d, 0xff0d)
    ∷ (0xff91, 0xffbe)
    ∷ (0xff92, 0xffbf)
    ∷ (0xff93, 0xffc0)
    ∷ (0xff94, 0xffc1)
    ∷ (0xff95, 0xff50)
    ∷ (0xff96, 0xff51)
    ∷ (0xff97, 0xff52)
    ∷ (0xff98, 0xff53)
    ∷ (0xff99, 0xff54)
    ∷ (0xff9a, 0xff55)
    ∷ (0xff9b, 0xff56)
    ∷ (0xff9c, 0xff57)
    ∷ (0xff9d, 0xff58)
    ∷ (0xff9e, 0xff63)
    ∷ (0xff9f, 0xffff)
    ∷ (0xffbd, 0x3d)
    ∷ (0xffaa, 0x2a)
    ∷ (0xffab, 0x2b)
    ∷ (0xffac, 0x2c)
    ∷ (0xffad, 0x2d)
    ∷ (0xffae, 0x2e)
    ∷ (0xffaf, 0x2f)
    ∷ (0xffb0, 0x30)
    ∷ (0xffb1, 0x31)
    ∷ (0xffb2, 0x32)
    ∷ (0xffb3, 0x33)
    ∷ (0xffb4, 0x34)
    ∷ (0xffb5, 0x35)
    ∷ (0xffb6, 0x36)
    ∷ (0xffb7, 0x37)
    ∷ (0xffb8, 0x38)
    ∷ (0xffb9, 0x39)
    ∷ (0xfe03, 0xff7e)
    ∷ []

-- The first key that is accepted among those for the other keysyms of the pairs that `keysym` stands in.
unfoldable pub alternative : (ℕ → ℕ × ℕ) → (ℕ × ℕ → Bool) → ℕ → List (ℕ × ℕ) → Option (ℕ × ℕ)
alternative find accepts keysym [] = none
alternative find accepts keysym ((a, b) ∷ pairs) =
    let rest = alternative find accepts keysym pairs in
    let found = find (if a == keysym then b else a) in
    if (a == keysym || b == keysym) && accepts found then some found else rest

abbrev pub is_found : ℕ × ℕ → Bool
is_found found = not (found.0 == 0)

-- The state has shift and the other has not, or the other way round.
abbrev pub shift_differs : ℕ → ℕ → Bool
shift_differs a b = if has a shift_mask then not (has b shift_mask) else has b shift_mask

-- The key of an added keysym, once the keyboard has it.
unfoldable pub find_added : Env → Keys → ℕ → (ℕ × ℕ) × Keys
find_added env keys keysym =
    let (key, (xkb, added)) =
      add_keysym env.change_types env.allocates keysym keys.xkb keys.added in
    let keys' = record keys { xkb = xkb; added = added } in
    if key == 0
    then ((0, 0), keys')
    else (keysym_to_keycode xkb env.kstate keysym env.kstate, keys')

-- The key for the keysym, by its own or an equivalent keysym, or by adding it.
unfoldable pub find_keycode : Env → Keys → ℕ → (ℕ × ℕ) × Keys
unfolding alternative find_added
find_keycode env keys keysym =
    let find = λ (sym : ℕ). keysym_to_keycode keys.xkb env.kstate sym env.kstate in
    if is_found (find keysym)
    then (find keysym, keys)
    else elim (alternative find is_found keysym alt_keysyms) [
      | some found ↦ (found, keys)
      | none ↦ find_added env keys keysym
    ]

-- Another keysym in place of a fake shift on the numeric pad.
unfoldable pub avoid_fake_shift : Env → Xkb → ℕ → ℕ × ℕ → ℕ × ℕ
unfolding alternative
avoid_fake_shift env xkb keysym found =
    let find = λ (sym : ℕ). keysym_to_keycode xkb env.kstate sym env.kstate in
    let needs_shift =
      λ (f : ℕ × ℕ). shift_differs env.kstate f.1 && is_affected_by_num_lock xkb env.kstate f.0 in
    if not (needs_shift found)
    then found
    else elim (alternative find (λ f. is_found f && not (needs_shift f)) keysym alt_keysyms) [
      | some other ↦ other
      | none ↦ found
    ]

-- What is done about a modifier around the key.
pub data Fake : Type 0 where
  none_needed impossible : Fake
  presses : ℕ → Fake
  releases : List ℕ → Fake

-- The key to press, or the keys to release.
abbrev pub press_fake : ℕ → Fake
press_fake zero = impossible
press_fake (suc key) = presses (suc key)

abbrev pub release_fake : List ℕ → Fake
release_fake [] = impossible
release_fake (key ∷ keys) = releases (key ∷ keys)

-- `state` has the modifier or not, and so the state that is needed.
abbrev pub fake : (now needed : Bool) → ℕ → List ℕ → Fake
fake false true key keys = press_fake key
fake true false key keys = release_fake keys
fake false false key keys = none_needed
fake true true key keys = none_needed

abbrev pub max_release : ℕ
max_release = 8

abbrev pub before : Fake → List KeyEvent
before none_needed = []
before impossible = []
before (presses key) = press key ∷ []
before (releases keys) = map release keys

abbrev pub after : Fake → List KeyEvent
after none_needed = []
after impossible = []
after (presses key) = release key ∷ []
after (releases keys) = map press keys

abbrev pub is_impossible : Fake → Bool
is_impossible impossible = true
is_impossible none_needed = false
is_impossible (presses key) = false
is_impossible (releases keys) = false

-- `pressedKeys` once the key stands for the keysym, and no other key does.
unfoldable pub remember : (keycode keysym : ℕ) → (ℕ → ℕ) → ℕ → ℕ
remember keycode keysym pressed i =
    if i == keycode then keysym else if pressed i == keysym then no_symbol else pressed i

module _ (env : Env) where
  -- The state that the key needs, with the shift of a tab left as it is.
  abbrev pub needed_state : (keysym new_state : ℕ) → ℕ
  needed_state keysym new_state =
      if keysym == xk_tab && has env.kstate shift_mask
      then bit_or new_state shift_mask
      else new_state

  abbrev pub needed_mask : Xkb → ℕ → ℕ
  needed_mask xkb new_state =
      if without new_state shift_mask == without env.kstate shift_mask
      then 0
      else level_three_mask xkb env.kstate

  unfoldable pub fake_shift : Xkb → ℕ → Fake
  fake_shift xkb new_state =
      fake (has env.kstate shift_mask) (has new_state shift_mask) (press_shift xkb env.kstate)
        (release_shift xkb env.is_down env.kstate max_release)

  unfoldable pub fake_level_three : Xkb → ℕ → Fake
  fake_level_three xkb new_state =
      let mask = needed_mask xkb new_state in
      fake (has env.kstate mask) (has new_state mask) (press_level_three xkb env.kstate)
        (release_level_three xkb env.is_down env.kstate max_release)

  -- The key with its modifiers. A press that can not be made returns with what is queued so far.
  unfoldable pub send_key : Keys → (keysym keycode : ℕ) → Fake → Fake → List KeyEvent × Keys
  unfolding remember
  send_key keys keysym keycode shift level_three =
      if is_impossible shift
      then ([], keys)
      else if is_impossible level_three
      then (before shift, keys)
      else (
        before shift
            ++ (before level_three ++ (press keycode ∷ (after level_three ++ after shift))),
        record keys {
          added = on_key_used keycode keys.added;
          pressed = remember keycode keysym keys.pressed;
        },
      )

  -- A press, with the key and the state that were found for it.
  unfoldable pub press_found : ℕ → ℕ × ℕ → Keys → List KeyEvent × Keys
  unfolding send_key fake_shift fake_level_three
  press_found keysym found keys =
      let (keycode, new_state) = avoid_fake_shift env keys.xkb keysym found in
      let needed = needed_state keysym new_state in
      send_key keys keysym keycode (fake_shift keys.xkb needed) (fake_level_three keys.xkb needed)

  -- `lorieKeysymKeyboardEvent` for a press.
  unfoldable pub press_keysym : ℕ → Keys → List KeyEvent × Keys
  unfolding find_keycode press_found
  press_keysym keysym keys =
      let (found, keys') = find_keycode env keys keysym in
      if found.0 == 0 then ([], keys') else press_found keysym found keys'

-- The loop over `pressedKeys` for a release: the first key that stands for the keysym.
unfoldable pub pressed_key : (ℕ → ℕ) → (keysym rounds i : ℕ) → Option ℕ
pressed_key pressed keysym zero i = none
pressed_key pressed keysym (suc rounds) i =
    let rest = pressed_key pressed keysym rounds (suc i) in
    if pressed i == keysym then some i else rest

-- `lorieKeysymKeyboardEvent` for a release.
unfoldable pub release_keysym : ℕ → Keys → List KeyEvent × Keys
unfolding pressed_key
release_keysym keysym keys = elim (pressed_key keys.pressed keysym 256 0) [
  | none ↦ ([], keys)
  | some i ↦
      (release i ∷ [], record keys { pressed = λ k. if k == i then no_symbol else keys.pressed k })
]
