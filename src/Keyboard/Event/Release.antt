-- ===== src/Keyboard/Event/Release.antt =====
-- The table of pressed keys, from a press of a keysym to its release, of InputXKB.c.
use termux_x11_virtualkeys.Base.{
  ℕ, zero, suc, ◌+◌, ◌==◌, ==_iff, ◌≡◌, refl, sym, ◌∙◌, subst, not, ◌&&◌, ◌≤◌, ◌<◌, Bool,
  if_property, true, false, Bool-cases, inl, inr, ap, Option, none, some, List, [], ◌∷◌, ◌++◌,
  if◌then◌else◌, arith,
}
use termux_x11_virtualkeys.Keyboard.Xkb.{Xkb, no_symbol}
use termux_x11_virtualkeys.Keyboard.Lookup.{keysym_to_keycode}
use termux_x11_virtualkeys.Keyboard.Lookup.Found.{keysym_to_keycode-produces}
use termux_x11_virtualkeys.Keyboard.Added.{Added, add_keysym, on_key_used, new_key, name_key}
use termux_x11_virtualkeys.Keyboard.Modifiers.{is_affected_by_num_lock}
use termux_x11_virtualkeys.Keyboard.Event.{
  KeyEvent, press, release, Keys, Env, Fake, before, after, is_impossible, remember, pressed_key,
  alternative, is_found, alt_keysyms, find_added, find_keycode, shift_differs, avoid_fake_shift,
  send_key, fake_shift, fake_level_three, needed_state, press_found, press_keysym, release_keysym,
}

-- The loop finds the key where it stands alone for the keysym.
pressed_key-remember :
    (pressed : ℕ → ℕ) (keysym keycode rounds i : ℕ)
    → 0 < keysym
    → i ≤ keycode
    → keycode < i + rounds
    → pressed_key (remember keycode keysym pressed) keysym rounds i ≡ some keycode
unfolding pressed_key remember
pressed_key-remember pressed keysym keycode zero i p a b = absurd (omega arith)
pressed_key-remember pressed keysym keycode (suc rounds) i p a b =
    ground (arith, pressed_key-remember pressed keysym keycode rounds (suc i))

pressed_key-none :
    (pressed : ℕ → ℕ) (keysym rounds i : ℕ)
    → ((k : ℕ) → (pressed k == keysym) ≡ false)
    → pressed_key pressed keysym rounds i ≡ none
unfolding pressed_key
pressed_key-none pressed keysym zero i h = refl
pressed_key-none pressed keysym (suc rounds) i h =
    rw (h i, pressed_key) (pressed_key-none pressed keysym rounds (suc i) h)

-- What a press leads to, by the key that was found, the key that is sent, and the modifiers around it.
-- A press is given up where there is no key or a modifier can not be had, with the table as it was.
-- Else the release of the keysym queues the release of the key, and then no key stands for it.
pub data Pressed (keysym found keycode : ℕ) (shift level_three : Fake) (pressed : ℕ → ℕ)
    : List KeyEvent × Keys → Type 0 where
  no_key :
      (keys' : Keys)
      → found ≡ 0
      → keys'.pressed ≡ pressed
      → Pressed keysym found keycode shift level_three pressed ([], keys')
  no_shift :
      (keys' : Keys)
      → is_impossible shift ≡ true
      → keys'.pressed ≡ pressed
      → Pressed keysym found keycode shift level_three pressed ([], keys')
  no_level_three :
      (keys' : Keys)
      → is_impossible level_three ≡ true
      → keys'.pressed ≡ pressed
      → Pressed keysym found keycode shift level_three pressed (before shift, keys')
  was_pressed :
      (keys' : Keys)
      → (found == 0) ≡ false
      → is_impossible shift ≡ false
      → is_impossible level_three ≡ false
      → (release_keysym keysym keys').0 ≡ release keycode ∷ []
      → pressed_key (release_keysym keysym keys').1.pressed keysym 256 0 ≡ none
      → Pressed keysym found keycode shift level_three pressed (
        before shift
            ++ (before level_three ++ (press keycode ∷ (after level_three ++ after shift))),
        keys',
      )

module _ (keysym keycode : ℕ) (keys : Keys) (added : List Added) where
  abbrev sent : Keys
  sent = record keys { added = added; pressed = remember keycode keysym keys.pressed }

  abbrev cleared : ℕ → ℕ
  cleared k = if k == keycode then no_symbol else remember keycode keysym keys.pressed k

  cleared-other : 0 < keysym → (k : ℕ) → (cleared k == keysym) ≡ false
  unfolding remember
  cleared-other p k = ground arith

  release_keysym-remember :
      0 < keysym
      → keycode < 256
      → release_keysym keysym sent ≡ (release keycode ∷ [], record sent { pressed = cleared })
  unfolding release_keysym
  release_keysym-remember p h =
      rw (pressed_key-remember keys.pressed keysym keycode 256 0 p (omega arith) h, release_keysym)
        refl

send_key-Pressed :
    (env : Env) (keys : Keys) (keysym found keycode : ℕ) (shift level_three : Fake)
    → 0 < keysym
    → keycode < 256
    → (found == 0) ≡ false
    → Pressed keysym found keycode shift level_three keys.pressed
        (send_key env keys keysym keycode shift level_three)
unfolding send_key
send_key-Pressed env keys keysym found keycode shift level_three p h g =
    elim (Bool-cases (is_impossible shift)) [
      | inl e ↦ rw (e, send_key) (no_shift keys e refl)
      | inr e ↦ elim (Bool-cases (is_impossible level_three)) [
        | inl e' ↦ rw (e, e', send_key) (no_level_three keys e' refl)
        | inr e' ↦
            rw (e, e', send_key)
              (was_pressed (sent keysym keycode keys added) g e e'
                (ap (λ (r : List KeyEvent × Keys). r.0) released)
                (ap (λ (r : List KeyEvent × Keys). pressed_key r.1.pressed keysym 256 0) released
                  ∙ pressed_key-none (cleared keysym keycode keys added) keysym 256 0
                      (cleared-other keysym keycode keys added p)))
      ]
    ]
  where
    added : List Added
    added = on_key_used keycode keys.added

    released : release_keysym keysym (sent keysym keycode keys added) ≡ (
      release keycode ∷ [],
      record (sent keysym keycode keys added) { pressed = cleared keysym keycode keys added },
    )
    released = release_keysym-remember keysym keycode keys added p h

-- The keys of the keyboard are bytes, and stay what they are where the types of a key change.
abbrev pub IsSmall : Xkb → Type 0
IsSmall xkb = (xkb.min_key_code ≤ xkb.max_key_code) × (xkb.max_key_code < 256)

abbrev pub KeepsKeys : (ℕ → Xkb → Xkb) → Type 0
KeepsKeys change =
    (key : ℕ) (xkb : Xkb)
    → ((change key xkb).min_key_code ≡ xkb.min_key_code)
      × ((change key xkb).max_key_code ≡ xkb.max_key_code)

keysym_to_keycode-lt :
    (xkb : Xkb) (kstate keysym state : ℕ)
    → IsSmall xkb
    → (keysym_to_keycode xkb kstate keysym state).0 < 256
keysym_to_keycode-lt xkb kstate keysym state s =
    ground (arith, keysym_to_keycode-produces xkb kstate keysym state (s.0))

alternative-lt :
    (find : ℕ → ℕ × ℕ) (accepts : ℕ × ℕ → Bool) (keysym : ℕ) (pairs : List (ℕ × ℕ)) (found : ℕ × ℕ)
    → ((sym : ℕ) → (find sym).0 < 256)
    → alternative find accepts keysym pairs ≡ some found
    → found.0 < 256
unfolding alternative
alternative-lt find accepts keysym [] found h e = cc
alternative-lt find accepts keysym ((a, b) ∷ pairs) found h e =
    ground
      (arith, h (if a == keysym then b else a), alternative-lt find accepts keysym pairs found h)

avoid_fake_shift-lt :
    (env : Env) (xkb : Xkb) (keysym : ℕ) (found : ℕ × ℕ)
    → IsSmall xkb
    → found.0 < 256
    → (avoid_fake_shift env xkb keysym found).0 < 256
unfolding avoid_fake_shift
avoid_fake_shift-lt env xkb keysym found s h =
    if_property (λ (f : ℕ × ℕ). f.0 < 256) (not (needs_shift found)) h
      (other accepted (alternative find accepted keysym alt_keysyms) refl)
  where
    find : ℕ → ℕ × ℕ
    find sym = keysym_to_keycode xkb env.kstate sym env.kstate

    needs_shift : ℕ × ℕ → Bool
    needs_shift f = shift_differs env.kstate f.1 && is_affected_by_num_lock xkb env.kstate f.0

    accepted : ℕ × ℕ → Bool
    accepted f = is_found f && not (needs_shift f)

    other :
        (accepts : ℕ × ℕ → Bool) (o : Option (ℕ × ℕ))
        → alternative find accepts keysym alt_keysyms ≡ o
        → (elim o as (λ _. ℕ × ℕ) [ some f ↦ f | none ↦ found ]).0 < 256
    other accepts none e = h
    other accepts (some f) e =
        alternative-lt find accepts keysym alt_keysyms f
          (λ sym. keysym_to_keycode-lt xkb env.kstate sym env.kstate s) e

-- What is found: a key that is a byte, on a keyboard whose keys are bytes, with the table unchanged.
abbrev Sound : Keys → (ℕ × ℕ) × Keys → Type 0
Sound keys (found, keys') = (found.0 < 256) × (IsSmall keys'.xkb × (keys'.pressed ≡ keys.pressed))

add_keysym-IsSmall :
    (change : ℕ → Xkb → Xkb) (allocates : Bool) (keysym : ℕ) (xkb : Xkb) (added : List Added)
    → KeepsKeys change
    → IsSmall xkb
    → IsSmall (add_keysym change allocates keysym xkb added).1.0
unfolding add_keysym
add_keysym-IsSmall change allocates keysym xkb added c s =
    if_property (λ (r : ℕ × (Xkb × List Added)). IsSmall r.1.0) (key == 0) s (ground (arith, kept))
  where
    key : ℕ
    key = (new_key xkb added).0

    kept :
        ((change key (record xkb { names = name_key key xkb.names })).min_key_code
          ≡ xkb.min_key_code)
        × ((change key (record xkb { names = name_key key xkb.names })).max_key_code
            ≡ xkb.max_key_code)
    kept = c key (record xkb { names = name_key key xkb.names })

find_added-Sound :
    (env : Env) (keys : Keys) (keysym : ℕ)
    → KeepsKeys env.change_types
    → IsSmall keys.xkb
    → Sound keys (find_added env keys keysym)
unfolding find_added
find_added-Sound env keys keysym c s =
    if_property (Sound keys) (added.0 == 0) (omega arith, (small, refl))
      (keysym_to_keycode-lt added.1.0 env.kstate keysym env.kstate small, (small, refl))
  where
    added : ℕ × (Xkb × List Added)
    added = add_keysym env.change_types env.allocates keysym keys.xkb keys.added

    small : IsSmall added.1.0
    small = add_keysym-IsSmall env.change_types env.allocates keysym keys.xkb keys.added c s

find_keycode-Sound :
    (env : Env) (keys : Keys) (keysym : ℕ)
    → KeepsKeys env.change_types
    → IsSmall keys.xkb
    → Sound keys (find_keycode env keys keysym)
unfolding find_keycode
find_keycode-Sound env keys keysym c s =
    if_property (Sound keys) (is_found (find keysym))
      (keysym_to_keycode-lt keys.xkb env.kstate keysym env.kstate s, (s, refl))
      (other (alternative find is_found keysym alt_keysyms) refl)
  where
    find : ℕ → ℕ × ℕ
    find sym = keysym_to_keycode keys.xkb env.kstate sym env.kstate

    other :
        (o : Option (ℕ × ℕ))
        → alternative find is_found keysym alt_keysyms ≡ o
        → Sound keys (elim o as (λ _. (ℕ × ℕ) × Keys) [
          | some f ↦ (f, keys)
          | none ↦ find_added env keys keysym
        ])
    other none e = find_added-Sound env keys keysym c s
    other (some f) e = (
      alternative-lt find is_found keysym alt_keysyms f
          (λ sym. keysym_to_keycode-lt keys.xkb env.kstate sym env.kstate s) e,
      (s, refl),
    )

-- `Pressed` of a result, by what is found for the keysym.
abbrev pub PressedAs : Env → ℕ → Keys → List KeyEvent × Keys → Type 0
PressedAs env keysym keys r =
    let (found, keys') = find_keycode env keys keysym in
    let (keycode, new_state) = avoid_fake_shift env keys'.xkb keysym found in
    let needed = needed_state env keysym new_state in
    Pressed keysym found.0 keycode (fake_shift env keys'.xkb needed)
      (fake_level_three env keys'.xkb needed) keys.pressed r

-- After the press of a keysym other than 0, on a keyboard whose keys are bytes and stay what they
-- are where types change: where no key is found, or Shift is needed and can not be had, nothing is
-- queued; where the modifier for level three can not be had, what is queued is what was faked for
-- Shift; and in these cases the table of pressed keys is as it was. Otherwise the key is pressed
-- between the events of the faked modifiers, the release of the keysym then queues the release of
-- exactly that key, and after it no key stands for the keysym.
pub press_keysym-Pressed :
    (env : Env) (keys : Keys) (keysym : ℕ)
    → 0 < keysym
    → IsSmall keys.xkb
    → KeepsKeys env.change_types
    → PressedAs env keysym keys (press_keysym env keysym keys)
unfolding press_keysym press_found
press_keysym-Pressed env keys keysym p s c =
    subst
      (λ (pressed : ℕ → ℕ).
        Pressed keysym found.0 keycode shift level_three pressed (press_keysym env keysym keys))
      (sound.1.1)
      (elim (Bool-cases (found.0 == 0)) [
        | inl e ↦ rw (e, press_keysym) (no_key keys' ((==_iff found.0 0).0 e) refl)
        | inr e ↦
            rw (e, press_keysym, press_found)
              (send_key-Pressed env keys' keysym found.0 keycode shift level_three p
                (avoid_fake_shift-lt env keys'.xkb keysym found (sound.1.0) (sound.0)) e)
      ])
  where
    found : ℕ × ℕ
    found = (find_keycode env keys keysym).0

    keys' : Keys
    keys' = (find_keycode env keys keysym).1

    keycode : ℕ
    keycode = (avoid_fake_shift env keys'.xkb keysym found).0

    needed : ℕ
    needed = needed_state env keysym (avoid_fake_shift env keys'.xkb keysym found).1

    shift : Fake
    shift = fake_shift env keys'.xkb needed

    level_three : Fake
    level_three = fake_level_three env keys'.xkb needed

    sound : Sound keys (find_keycode env keys keysym)
    sound = find_keycode-Sound env keys keysym c s
