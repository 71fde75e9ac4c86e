-- ===== src/Input.antt =====
-- The events of the mouse and of the keyboard in `handleLorieEvents` of cmdentrypoint.c.
use termux_x11_virtualkeys.Base.{
  ℕ, zero, suc, ◌==◌, ltb, leb, not, ◌&&◌, ◌||◌, Bool, true, false, Option, none, some, List, [],
  ◌∷◌, ◌++◌, if◌then◌else◌,
}
use termux_x11_virtualkeys.Keyboard.Event.{
  KeyEvent, press, release, Keys, Env, press_keysym, release_keysym,
}
pub mod Typing
pub mod Motion
mod Examples

-- The floating point numbers of the events, as far as the code computes with them.
pub record Floats (N : Type 0) : Type 0 where
  pub of_nat : ℕ → N
  pub less : N → N → Bool
  pub is_zero : N → Bool
  pub div_120 : N → N

-- `EVENT_MOUSE`.
pub record MouseEvent (N : Type 0) : Type 0 where
  pub x : N
  pub y : N
  pub detail : ℕ
  pub down : Bool
  pub relative : Bool

-- `QueuePointerEvents` for the mouse: a motion to a place or by a distance, a wheel by a distance on an
-- axis, a button.
pub data PointerEvent (N : Type 0) : Type 0 where
  moves_to moves_by : (x y : N) → PointerEvent N
  scrolls : (axis : ℕ) → N → PointerEvent N
  presses_button releases_button : ℕ → PointerEvent N

module _ {N : Type 0} (floats : Floats N) where
  -- max(0, min(a, size))
  unfoldable pub within : N → ℕ → N
  within a size =
      let b = if floats.less a (floats.of_nat size) then a else floats.of_nat size in
      if floats.less b (floats.of_nat 0) then floats.of_nat 0 else b

  -- A motion, a button, and the wheel.
  unfoldable pub move : (width height : ℕ) → MouseEvent N → PointerEvent N
  unfolding within
  move width height e =
      if e.relative then moves_by e.x e.y else moves_to (within e.x width) (within e.y height)

  abbrev pub scroll : (axis : ℕ) → N → List (PointerEvent N)
  scroll axis d = if floats.is_zero d then [] else scrolls axis (floats.div_120 d) ∷ []

  -- The branch for `EVENT_MOUSE`.
  unfoldable pub handle_mouse : (width height : ℕ) → MouseEvent N → List (PointerEvent N)
  unfolding move
  handle_mouse width height e =
      if e.detail == 0
      then move width height e ∷ []
      else if e.detail == 4
      then scroll 2 e.x ++ scroll 3 e.y
      else if ltb 4 e.detail
      then []
      else (if e.down then presses_button e.detail else releases_button e.detail) ∷ []

-- The branch for `EVENT_KEY`.
unfoldable pub handle_key : (state : ℕ) → (key : ℕ) → KeyEvent
handle_key state key = if state == 0 then release key else press key

-- The branch for `EVENT_UNICODE`, for the keysym of the code.
unfoldable pub handle_unicode : Env → ℕ → Keys → List KeyEvent × Keys
handle_unicode env keysym keys =
    let (es, keys') = press_keysym env keysym keys in
    let (fs, keys'') = release_keysym keysym keys' in (es ++ fs, keys'')
