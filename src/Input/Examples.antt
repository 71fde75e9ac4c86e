-- ===== src/Input/Examples.antt =====
-- A letter that is typed and a motion of the mouse, with floating point cut to whole numbers.
use termux_x11_virtualkeys.Base.{ℕ, ◌/◌, ◌==◌, ltb, refl, true, false, none, [], arith}
use termux_x11_virtualkeys.Keyboard.Xkb.{wraps, set_mods}
use termux_x11_virtualkeys.Keyboard.Event.{Env, Keys, pressed_key}
use termux_x11_virtualkeys.Input.{Floats, MouseEvent, handle_unicode}
use termux_x11_virtualkeys.Input.Typing.{TypedAs, handle_unicode-Typed}
use termux_x11_virtualkeys.Input.Motion.{Ordered}

-- A keyboard with one key, for the letter a.
abbrev one_key : Keys
one_key = record {
  xkb = record {
    min_key_code = 9;
    max_key_code = 9;
    in_range = λ k. k == 9;
    num_groups = λ k. 1;
    groups_width = λ k. 1;
    group_action = λ k. wraps;
    group_number = λ k. 0;
    key_type = λ k g. record { mods_mask = 0; entries = []; preserve = λ i. 0 };
    syms = λ k i. 97;
    has_actions = λ k. false;
    actions = λ k i. record { type = set_mods; uses_modmap = false; mask = 0 };
    modmap = λ k. 0;
    names = none;
    group_for_core_state = λ mods. 0;
    convert_case = λ sym. (sym, sym);
  };
  added = [];
  pressed = λ k. 0;
}

abbrev at_rest : Env
at_rest = record { kstate = 0; is_down = λ k. false; change_types = λ k xkb. xkb; allocates = true }

handle_unicode-Typed_example : TypedAs at_rest 97 one_key (handle_unicode at_rest 97 one_key)
unfolding pressed_key
handle_unicode-Typed_example =
    handle_unicode-Typed at_rest one_key 97 (omega arith) (omega arith, omega arith)
      (λ key xkb. (refl, refl)) refl

abbrev whole : Floats ℕ
whole = record {
  of_nat = λ n. n;
  less = λ a b. ltb a b;
  is_zero = λ a. a == 0;
  div_120 = λ a. a / 120;
}

whole-Ordered : Ordered whole
whole-Ordered = record {
  irreflexive = λ a. ground arith;
  positive = λ n. ground arith;
  asymmetric = λ a b h. ground arith;
}

abbrev beyond : MouseEvent ℕ
beyond = record { x = 5000; y = 10; detail = 0; down = false; relative = false }
