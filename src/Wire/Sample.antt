-- ===== src/Wire/Sample.antt =====
-- A layout of `lorieEvent` for the examples: eleven numbers, the first of which is the type.
use termux_x11_virtualkeys.Wire.{
  LorieEvent, shared_server_state, add_buffer, remove_buffer, screen_size, touch, mouse, key,
  stylus, stylus_enable, unicode, clipboard_enable, clipboard_announce, clipboard_request,
  clipboard_send, window_focus_changed, other, Codec, IsCodec,
}
use termux_x11_virtualkeys.Base.Words.{to_int}
use termux_x11_virtualkeys.Base.{
  ℕ, zero, suc, ◌==◌, Bool, true, false, List, [], ◌∷◌, if◌then◌else◌, length, ◌≡◌, refl, arith,
}

-- Eleven numbers, of which the last ones are 0.
abbrev pad : ℕ → List ℕ → List ℕ
pad zero xs = []
pad (suc n) [] = 0 ∷ pad n []
pad (suc n) (x ∷ xs) = x ∷ pad n xs

abbrev field : ℕ → List ℕ → ℕ
field n [] = 0
field zero (x ∷ xs) = x
field (suc n) (x ∷ xs) = field n xs

abbrev flag : ℕ → Bool
flag n = n == 1

abbrev fields : LorieEvent ℕ → List ℕ
fields shared_server_state = 1 ∷ []
fields add_buffer = 2 ∷ []
fields (remove_buffer id) = 3 ∷ id ∷ []
fields (screen_size w h f n) = 4 ∷ w ∷ h ∷ f ∷ n ∷ []
fields (touch type id x y) = 5 ∷ type ∷ id ∷ x ∷ y ∷ []
fields (mouse e) = 6 ∷ e.x ∷ e.y ∷ e.detail ∷ to_int e.down ∷ to_int e.relative ∷ []
fields (key code state) = 7 ∷ code ∷ state ∷ []
fields (stylus p) =
    8
    ∷ p.x
    ∷ p.y
    ∷ p.pressure
    ∷ p.tilt_x
    ∷ p.tilt_y
    ∷ p.orientation
    ∷ p.tool.buttons
    ∷ to_int p.tool.is_eraser
    ∷ to_int p.tool.is_mouse
    ∷ []
fields (stylus_enable b) = 9 ∷ to_int b ∷ []
fields (unicode code) = 10 ∷ code ∷ []
fields (clipboard_enable b) = 11 ∷ to_int b ∷ []
fields clipboard_announce = 12 ∷ []
fields clipboard_request = 13 ∷ []
fields (clipboard_send n) = 14 ∷ n ∷ []
fields window_focus_changed = 15 ∷ []
fields (other type) = 16 ∷ type ∷ []

abbrev event_of : ℕ → (ℕ → ℕ) → LorieEvent ℕ
event_of t f =
    if t == 1
    then shared_server_state
    else if t == 2
    then add_buffer
    else if t == 3
    then remove_buffer (f 1)
    else if t == 4
    then screen_size (f 1) (f 2) (f 3) (f 4)
    else if t == 5
    then touch (f 1) (f 2) (f 3) (f 4)
    else if t == 6
    then mouse (record { x = f 1; y = f 2; detail = f 3; down = flag (f 4); relative = flag (f 5) })
    else if t == 7
    then key (f 1) (f 2)
    else if t == 8
    then stylus (record {
      x = f 1;
      y = f 2;
      pressure = f 3;
      tilt_x = f 4;
      tilt_y = f 5;
      orientation = f 6;
      tool = record { buttons = f 7; is_eraser = flag (f 8); is_mouse = flag (f 9) };
    })
    else if t == 9
    then stylus_enable (flag (f 1))
    else if t == 10
    then unicode (f 1)
    else if t == 11
    then clipboard_enable (flag (f 1))
    else if t == 12
    then clipboard_announce
    else if t == 13
    then clipboard_request
    else if t == 14
    then clipboard_send (f 1)
    else if t == 15
    then window_focus_changed
    else other (f 1)

abbrev pub numbers : Codec ℕ ℕ
numbers = record {
  size = 11;
  encode = λ e. pad 11 (fields e);
  decode = λ xs. event_of (field 0 xs) (λ n. field n xs);
}

length-pad : (n : ℕ) (xs : List ℕ) → length (pad n xs) ≡ n
length-pad zero xs = refl
length-pad (suc n) [] = omega (arith, length-pad n [])
length-pad (suc n) (x ∷ xs) = omega (arith, length-pad n xs)

flag-to_int : (b : Bool) → flag (to_int b) ≡ b
flag-to_int true = refl
flag-to_int false = refl

read_back : (e : LorieEvent ℕ) → numbers.decode (numbers.encode e) ≡ e
read_back shared_server_state = refl
read_back add_buffer = refl
read_back (remove_buffer id) = refl
read_back (screen_size w h f n) = refl
read_back (touch type id x y) = refl
read_back (mouse e) = rw (flag-to_int e.down, flag-to_int e.relative) refl
read_back (key code state) = refl
read_back (stylus p) = rw (flag-to_int p.tool.is_eraser, flag-to_int p.tool.is_mouse) refl
read_back (stylus_enable b) = rw (flag-to_int b) refl
read_back (unicode code) = refl
read_back (clipboard_enable b) = rw (flag-to_int b) refl
read_back clipboard_announce = refl
read_back clipboard_request = refl
read_back (clipboard_send n) = refl
read_back window_focus_changed = refl
read_back (other type) = refl

pub numbers-IsCodec : IsCodec numbers
numbers-IsCodec = record {
  size_positive = omega arith;
  length-encode = λ e. length-pad 11 (fields e);
  decode-encode = read_back;
}
