-- ===== src/Stylus.antt =====
-- EVENT_STYLUS in `handleLorieEvents` of cmdentrypoint.c: the device and the buttons. The axes of the
-- motion are in Wire/Server. The bitwise operations of the source are written for each bit.
use termux_x11_virtualkeys.Base.{
  ◌⊎◌, ℕ, ◌+◌, ◌/◌, ◌%◌, ◌^◌, ◌==◌, sym, not, ◌&&◌, Bool, true, false, Option, none, some, List, [],
  ◌∷◌, ◌++◌, if◌then◌else◌,
}
mod Examples

pub data Device : Type 0 where
  mouse pen eraser : Device

-- Which devices there are.
pub record Devices : Type 0 where
  pub has_mouse : Bool
  pub has_pen : Bool
  pub has_eraser : Bool

pub record StylusEvent : Type 0 where
  pub buttons : ℕ
  pub is_eraser : Bool
  pub is_mouse : Bool

-- A call of `QueuePointerEvents`.
pub data PointerEvent : Type 0 where
  motion : Device → PointerEvent
  button_release button_press : Device → ℕ → PointerEvent

abbrev pub bit : ℕ → ℕ → Bool
bit i b = b / 2 ^ i % 2 == 1

-- diff & ~buttons and diff & buttons, with diff = buttons_prev ^ buttons.
abbrev pub released : Bool → Bool → Bool
released prev now = prev && not now

abbrev pub pressed : Bool → Bool → Bool
pressed prev now = not prev && now

-- One round of the loop.
unfoldable pub button_events : Device → ℕ → (prev now : Bool) → List PointerEvent
button_events device i prev now =
    (if released prev now then (button_release device (i + 1)) ∷ [] else [])
    ++ (if pressed prev now then (button_press device (i + 1)) ∷ [] else [])

abbrev pub chosen : StylusEvent → Device
chosen e = if e.is_mouse then mouse else if e.is_eraser then eraser else pen

abbrev pub present : Devices → Device → Bool
present d mouse = d.has_mouse
present d pen = d.has_pen
present d eraser = d.has_eraser

-- The static `buttons_prev` and what is queued.
unfoldable pub handle_stylus : Devices → StylusEvent → ℕ → List PointerEvent × ℕ
unfolding button_events
handle_stylus d e prev = if not (present d (chosen e)) then ([], prev) else (
  motion (chosen e)
      ∷ (button_events (chosen e) 0 (bit 0 prev) (bit 0 e.buttons)
          ++ (button_events (chosen e) 1 (bit 1 prev) (bit 1 e.buttons)
              ++ button_events (chosen e) 2 (bit 2 prev) (bit 2 e.buttons))),
  e.buttons,
)

-- Whether button `n` is down after events, where `down` says whether it was before.
pub replay : ℕ → List PointerEvent → Bool → Bool
replay n [] down = down
replay n (motion device ∷ es) down = replay n es down
replay n (button_release device k ∷ es) down =
    let rest = replay n es in if k == n then rest false else rest down
replay n (button_press device k ∷ es) down =
    let rest = replay n es in if k == n then rest true else rest down

unfoldable pub handle_all_stylus : Devices → List StylusEvent → ℕ → List PointerEvent × ℕ
handle_all_stylus d [] prev = ([], prev)
handle_all_stylus d (e ∷ es) prev =
    let (events, prev') = handle_stylus d e prev in
    let (more, last) = handle_all_stylus d es prev' in (events ++ more, last)
