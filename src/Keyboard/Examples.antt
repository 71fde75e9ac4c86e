-- ===== src/Keyboard/Examples.antt =====
-- A keyboard with a letter, a Shift, a free key and a Num_Lock, and one key press.
use termux_x11_virtualkeys.Base.{
  ℕ, ◌-◌, ◌*◌, ◌≤◌, ◌==◌, leb, ◌&&◌, ◌≡◌, refl, ◌⊎◌, true, false, none, List, [], ◌∷◌,
  if◌then◌else◌, arith,
}
use termux_x11_virtualkeys.Keyboard.Xkb.{Xkb, KeyType, wraps, set_mods}
use termux_x11_virtualkeys.Keyboard.Translate.{group_in_range, translate, key_action}
use termux_x11_virtualkeys.Keyboard.Lookup.{
  lookup_key, keysym_to_keycode, produces, is_fake_key, level_three_mask,
}
use termux_x11_virtualkeys.Keyboard.Lookup.Found.{keysym_to_keycode-produces}
use termux_x11_virtualkeys.Keyboard.Added.{Added, add_keysym}
use termux_x11_virtualkeys.Keyboard.Modifiers.{
  press_shift, release_shift, first_key, collect, is_affected_by_num_lock,
}
use termux_x11_virtualkeys.Keyboard.Event.{
  Env, Keys, avoid_fake_shift, press, release, send_key, fake_shift, fake_level_three, press_keysym,
  release_keysym,
}
use termux_x11_virtualkeys.Keyboard.Event.Balance.{replay, send_key-restores, send_key_keeps_up}
use termux_x11_virtualkeys.Keyboard.Event.Release.{PressedAs, press_keysym-Pressed}

abbrev two_levels : KeyType
two_levels = record {
  mods_mask = 1;
  entries = (record { active = true; mask = 1; level = 1 }) ∷ [];
  preserve = λ i. 0;
}

-- Key 9 is the letter, key 10 the Shift, key 12 the Num_Lock.
abbrev keyboard : Xkb
keyboard = record {
  min_key_code = 9;
  max_key_code = 12;
  in_range = λ k. leb 9 k && leb k 12;
  num_groups = λ k. if k == 11 then 0 else 1;
  groups_width = λ k. 2;
  group_action = λ k. wraps;
  group_number = λ k. 0;
  key_type = λ k g. two_levels;
  syms = λ k i. if k == 9 then 97 - 32 * i else if k == 10 then 0xffe1 else 0xff7f;
  has_actions = λ k. k == 10;
  actions = λ k i. record { type = set_mods; uses_modmap = false; mask = 1 };
  modmap = λ k. 0;
  names = none;
  group_for_core_state = λ mods. 0;
  convert_case = λ sym. (sym, sym);
}

-- A key whose types change has one group.
abbrev one_group : ℕ → Xkb → Xkb
one_group key xkb = record xkb { num_groups = λ k. if k == key then 1 else xkb.num_groups k }

abbrev idle : Env
idle = record { kstate = 0; is_down = λ k. false; change_types = one_group; allocates = true }

abbrev nothing_pressed : Keys
nothing_pressed = record { xkb = keyboard; added = []; pressed = λ k. 0 }

-- The capital letter is sent with a Shift around it.
press_capital : (press_keysym idle 65 nothing_pressed).0 ≡ press 10 ∷ press 9 ∷ release 10 ∷ []
unfolding press_keysym keysym_to_keycode lookup_key produces translate group_in_range is_fake_key
    avoid_fake_shift is_affected_by_num_lock key_action press_shift first_key
press_capital = refl

release_capital : (release_keysym 65 (press_keysym idle 65 nothing_pressed).1).0 ≡ release 9 ∷ []
unfolding press_keysym release_keysym keysym_to_keycode lookup_key produces translate group_in_range
    is_fake_key avoid_fake_shift is_affected_by_num_lock key_action press_shift first_key
release_capital = refl

-- A keysym that no key has takes the free key.
press_added : (press_keysym idle 0x20ac nothing_pressed).0 ≡ press 11 ∷ []
unfolding press_keysym keysym_to_keycode lookup_key produces translate group_in_range is_fake_key
    avoid_fake_shift level_three_mask add_keysym
press_added = refl

press_keysym-Pressed_example :
    PressedAs idle 65 nothing_pressed (press_keysym idle 65 nothing_pressed)
press_keysym-Pressed_example =
    press_keysym-Pressed idle nothing_pressed 65 (omega arith) (omega arith, omega arith)
      (λ key xkb. (refl, refl))

-- The Shift is held while the small letter is sent.
abbrev shifting : Env
shifting = record idle { kstate = 1; is_down = λ k. k == 10 }

send_key-restores_example :
    replay 10
      (send_key shifting nothing_pressed 97 9
        (fake_shift shifting keyboard 0)
        (fake_level_three shifting keyboard 0)).0
      true
    ≡ true
unfolding fake_shift fake_level_three release_shift collect key_action
send_key-restores_example =
    send_key-restores shifting nothing_pressed 97 9 0 10 refl refl refl refl refl

keysym_to_keycode-produces_example :
    ((keysym_to_keycode keyboard 0 65 0).0 ≡ 0)
    ⊎ ((produces keyboard 65
            (keysym_to_keycode keyboard 0 65 0).1
            (keysym_to_keycode keyboard 0 65 0).0
          ≡ true)
        × ((9 ≤ (keysym_to_keycode keyboard 0 65 0).0)
            × ((keysym_to_keycode keyboard 0 65 0).0 ≤ 12)))
keysym_to_keycode-produces_example = keysym_to_keycode-produces keyboard 0 65 0 (omega arith)

-- Three added keysyms, of which another client has changed the oldest.
abbrev three_added : List Added
three_added =
    (record { keysym = 0xff7f; keycode = 12 })
    ∷ (record { keysym = 97; keycode = 9 })
    ∷ (record { keysym = 98; keycode = 10 })
    ∷ []

-- Key 10, the Shift, is pressed for the capital letter.
send_key_keeps_up_example :
    replay 10
      (send_key idle nothing_pressed 65 9
        (fake_shift idle keyboard 1)
        (fake_level_three idle keyboard 1)).0
      false
    ≡ false
unfolding fake_shift fake_level_three press_shift first_key key_action
send_key_keeps_up_example = send_key_keeps_up idle nothing_pressed 65 9 1 10 refl refl refl refl
