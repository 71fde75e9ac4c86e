-- ===== src/Input/Typing.antt =====
-- EVENT_UNICODE of cmdentrypoint.c: what the press and the release of a code point queue together.
use termux_x11_virtualkeys.Base.{
  ℕ, ◌<◌, ◌≡◌, refl, ap, sym, ◌∙◌, none, true, false, List, [], ◌∷◌, ◌++◌, subst, ◌==◌,
}
use mathlib.Core.List.{append-nil}
use termux_x11_virtualkeys.Keyboard.Event.{
  KeyEvent, press, release, Keys, Env, Fake, before, after, is_impossible, find_keycode,
  avoid_fake_shift, needed_state, fake_shift, fake_level_three, press_keysym, pressed_key,
  release_keysym,
}
use termux_x11_virtualkeys.Keyboard.Event.Release.{
  Pressed, no_key, no_shift, no_level_three, was_pressed, IsSmall, KeepsKeys, press_keysym-Pressed,
}
use termux_x11_virtualkeys.Input.{handle_unicode}

-- The events of a code point, by the key that was found, the key that is sent, and the modifiers
-- around it.
pub data Typed (found keycode : ℕ) (shift level_three : Fake) : List KeyEvent → Type 0 where
  without_key : found ≡ 0 → Typed found keycode shift level_three []
  without_shift : is_impossible shift ≡ true → Typed found keycode shift level_three []
  without_level_three :
      is_impossible level_three ≡ true → Typed found keycode shift level_three (before shift)
  typed :
      (found == 0) ≡ false
      → is_impossible shift ≡ false
      → is_impossible level_three ≡ false
      → Typed found keycode shift level_three (
          (before shift
            ++ (before level_three ++ (press keycode ∷ (after level_three ++ after shift))))
          ++ (release keycode ∷ []))

-- The events, and that no key stands for the keysym afterwards.
abbrev pub TypedAs : Env → ℕ → Keys → List KeyEvent × Keys → Type 0
TypedAs env keysym keys r =
    let (found, keys') = find_keycode env keys keysym in
    let (keycode, new_state) = avoid_fake_shift env keys'.xkb keysym found in
    let needed = needed_state env keysym new_state in
    Typed found.0 keycode (fake_shift env keys'.xkb needed) (fake_level_three env keys'.xkb needed)
      r.0
    × (pressed_key r.1.pressed keysym 256 0 ≡ none)

-- A keysym that no key stands for is released without an event.
release_keysym-none :
    (keysym : ℕ) (keys : Keys)
    → pressed_key keys.pressed keysym 256 0 ≡ none
    → release_keysym keysym keys ≡ ([], keys)
unfolding release_keysym
release_keysym-none keysym keys n = rw (n, release_keysym) refl

module _ (keysym found keycode : ℕ) (shift level_three : Fake) (pressed : ℕ → ℕ) where
  abbrev Events : List KeyEvent → Type 0
  Events es = Typed found keycode shift level_three es

  given_up :
      (es : List KeyEvent) (keys' : Keys)
      → pressed_key pressed keysym 256 0 ≡ none
      → keys'.pressed ≡ pressed
      → Events es
      → Events (es ++ (release_keysym keysym keys').0)
        × (pressed_key (release_keysym keysym keys').1.pressed keysym 256 0 ≡ none)
  given_up es keys' n p t = (
    subst Events
        (sym (append-nil es)
          ∙ ap (λ (r : List KeyEvent × Keys). es ++ r.0)
              (sym (release_keysym-none keysym keys' n')))
        t,
    ap (λ (r : List KeyEvent × Keys). pressed_key r.1.pressed keysym 256 0)
          (release_keysym-none keysym keys' n')
        ∙ n',
  )
    where
      n' : pressed_key keys'.pressed keysym 256 0 ≡ none
      n' = ap (λ (t : ℕ → ℕ). pressed_key t keysym 256 0) p ∙ n

  release-Typed :
      (r : List KeyEvent × Keys)
      → pressed_key pressed keysym 256 0 ≡ none
      → Pressed keysym found keycode shift level_three pressed r
      → Events (r.0 ++ (release_keysym keysym r.1).0)
        × (pressed_key (release_keysym keysym r.1).1.pressed keysym 256 0 ≡ none)
  release-Typed r n (no_key keys' e p) = given_up [] keys' n p (without_key e)
  release-Typed r n (no_shift keys' e p) = given_up [] keys' n p (without_shift e)
  release-Typed r n (no_level_three keys' e p) =
      given_up (before shift) keys' n p (without_level_three e)
  release-Typed r n (was_pressed keys' g e e' released gone) = (
    subst
        (λ (gs : List KeyEvent). Events (
          (before shift
            ++ (before level_three ++ (press keycode ∷ (after level_three ++ after shift))))
          ++ gs))
        (sym released) (typed g e e'),
    gone,
  )

-- Where no key stands for a keysym other than 0, on a keyboard whose keys are bytes and stay what
-- they are where types change, a code point queues one of three things: nothing, where no key is
-- found or Shift is needed and can not be had; what was faked for Shift, where the modifier for
-- level three can not be had; or the events of the press of the key, and as the last event its
-- release. In each case no key stands for the keysym afterwards.
pub handle_unicode-Typed :
    (env : Env) (keys : Keys) (keysym : ℕ)
    → 0 < keysym
    → IsSmall keys.xkb
    → KeepsKeys env.change_types
    → pressed_key keys.pressed keysym 256 0 ≡ none
    → TypedAs env keysym keys (handle_unicode env keysym keys)
unfolding handle_unicode
handle_unicode-Typed env keys keysym p s c n =
    release-Typed keysym _ _ _ _ keys.pressed (press_keysym env keysym keys) n
      (press_keysym-Pressed env keys keysym p s c)
