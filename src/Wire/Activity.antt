-- ===== src/Wire/Activity.antt =====
-- What the activity writes to the server: the functions of activity.c that are called from Java while
-- there is a connection. An `int` of Java is its 32 bit word.
use termux_x11_virtualkeys.Clipboard.Text.{c_string}
use termux_x11_virtualkeys.Wire.{
  LorieEvent, Codec, screen_size, touch, mouse, key, stylus, stylus_enable, unicode,
  clipboard_enable, clipboard_announce, clipboard_send,
}
use termux_x11_virtualkeys.Wire.Framing.{Message, serialize_all}
use termux_x11_virtualkeys.Base.Words.{to_int}
use termux_x11_virtualkeys.Base.{
  ℕ, zero, suc, ◌+◌, ◌-◌, ◌%◌, ◌^◌, ◌==◌, ltb, leb, not, ◌&&◌, ◌||◌, Bool, Option, none, some, List,
  [], ◌∷◌, ◌++◌, if◌then◌else◌, length, drop, Run, ok, fault, out_of_fuel, ◌>>=◌,
}

-- A call from Java with its arguments.
pub data Send (N : Type 0) : Type 0 where
  set_clipboard_sync_enabled : (enable : Bool) → Send N
  send_clipboard_announce : Send N
  send_clipboard_event : (text : Option (List ℕ)) → Send N
  send_window_change : (width height framerate : ℕ) → (name : Option (List ℕ)) → Send N
  send_mouse_event : (x y : N) → (which_button : ℕ) → (down relative : Bool) → Send N
  send_touch_event : (action id x y : ℕ) → Send N
  send_stylus_event :
      (x y : N)
      → (pressure tilt_x tilt_y orientation buttons : ℕ) → (eraser is_mouse : Bool) → Send N
  request_stylus_enabled : (enabled : Bool) → Send N
  send_key_event : (scan_code key_code : ℕ) → (down : Bool) → Send N
  send_text_event : (text : Option (List ℕ)) → (behind : List ℕ) → Send N

-- The table `android_to_linux_keycode`, which has 304 entries, and `mbrtowc` from its initial state: the
-- code point and the number of bytes it took, and none where these are no character.
pub record Locale : Type 0 where
  pub android_to_linux_keycode : ℕ → ℕ
  pub mbrtowc : List ℕ → Option (ℕ × ℕ)

-- The variable `conn_fd` of the activity, the bytes written, and how often the keyboard was reset.
pub record Link : Type 0 where
  pub conn_fd : Option ℕ
  pub sent : List ℕ
  pub ime_resets : ℕ

-- An int is positive.
abbrev pub is_positive : ℕ → Bool
is_positive n = ltb 0 n && ltb n (2 ^ 31)

-- The name that goes with a window: one that has a size.
abbrev pub name_of : (width height : ℕ) → Option (List ℕ) → List ℕ
name_of width height none = []
name_of width height (some name) =
    if not (is_positive width) || not (is_positive height) then [] else c_string name

-- `scan_code ?: android_to_linux_keycode[key_code]`
unfoldable pub linux_code : Locale → (scan_code key_code : ℕ) → Run ℕ
linux_code l scan_code key_code =
    if not (scan_code == 0)
    then ok scan_code
    else if ltb key_code 304
    then ok (l.android_to_linux_keycode key_code)
    else fault

module _ {N : Type 0} where
  abbrev pub alone : LorieEvent N → Message ℕ N
  alone e = record { event = e; extra = [] }

  -- `sendClipboardEvent`, for a text that is not null.
  unfoldable pub clipboard_message : List ℕ → Message ℕ N
  clipboard_message text = record { event = clipboard_send (length text % 2 ^ 32); extra = text }

  -- `sendWindowChange`.
  unfoldable pub window_message : (width height framerate : ℕ) → Option (List ℕ) → Message ℕ N
  window_message width height framerate jname =
      let name = name_of width height jname in
      record {
        event = screen_size (width % 2 ^ 16) (height % 2 ^ 16) (framerate % 2 ^ 16) (length name);
        extra = name;
      }

  module _ (l : Locale) where
    -- The loop of `sendTextEvent` over the bytes that can be read at `p`, `offset` bytes from the start.
    unfoldable pub text_loop : ℕ → (length offset : ℕ) → List ℕ → Run (List (Message ℕ N))
    text_loop zero length offset p = out_of_fuel
    text_loop (suc fuel) length offset [] = fault
    text_loop (suc fuel) length offset (b ∷ p) =
        if b == 0 then ok [] else elim (l.mbrtowc (b ∷ p)) [
          | none ↦ ok []
          | some (wc, len) ↦
              let more = text_loop fuel length (offset + len) (drop len (b ∷ p)) in
              if len == 0
              then ok []
              else if leb length (offset + len)
              then ok (alone (unicode wc) ∷ [])
              else (do rest ← more; ok (alone (unicode wc) ∷ rest))
        ]

    -- `sendTextEvent`, for a text that is not null; what is in memory behind the text can be read, too.
    unfoldable pub text_messages : List ℕ → (behind : List ℕ) → Run (List (Message ℕ N))
    text_messages [] behind = ok []
    text_messages (b ∷ text) behind =
        text_loop (length (b ∷ text)) (length (b ∷ text)) 0 ((b ∷ text) ++ behind)

    -- What a call writes where there is a connection.
    unfoldable pub messages : Send N → Run (List (Message ℕ N))
    messages (set_clipboard_sync_enabled enable) = ok (alone (clipboard_enable enable) ∷ [])
    messages send_clipboard_announce = ok (alone clipboard_announce ∷ [])
    messages (send_clipboard_event none) = ok []
    messages (send_clipboard_event (some text)) = ok (clipboard_message text ∷ [])
    messages (send_window_change width height framerate name) =
        ok (window_message width height framerate name ∷ [])
    messages (send_mouse_event x y which_button down relative) = ok (
        alone (
          mouse (record {
            x = x;
            y = y;
            detail = which_button % 2 ^ 8;
            down = down;
            relative = relative;
          }))
        ∷ [])
    messages (send_touch_event action id x y) =
        if action == 2 ^ 32 - 1
        then ok []
        else ok (alone (touch (action % 2 ^ 16) (id % 2 ^ 16) (x % 2 ^ 16) (y % 2 ^ 16)) ∷ [])
    messages (send_stylus_event x y pressure tilt_x tilt_y orientation buttons eraser is_mouse) =
        ok (
          alone (
            stylus (record {
              x = x;
              y = y;
              pressure = pressure % 2 ^ 16;
              tilt_x = tilt_x % 2 ^ 8;
              tilt_y = tilt_y % 2 ^ 8;
              orientation = orientation % 2 ^ 16;
              tool = record { buttons = buttons % 2 ^ 8; is_eraser = eraser; is_mouse = is_mouse };
            }))
          ∷ [])
    messages (request_stylus_enabled enabled) = ok (alone (stylus_enable enabled) ∷ [])
    messages (send_key_event scan_code key_code down) = do
      code ← linux_code l scan_code key_code
      ok (alone (key ((code + 8) % 2 ^ 16) (to_int down)) ∷ [])
    messages (send_text_event none behind) = ok []
    messages (send_text_event (some text) behind) = text_messages text behind

    -- The calls of `resetIme`.
    abbrev pub ime_resets_of : Send N → ℕ
    ime_resets_of (send_mouse_event x y which_button down relative) =
        to_int (is_positive which_button)
    ime_resets_of
          (send_stylus_event x y pressure tilt_x tilt_y orientation buttons eraser is_mouse) =
        1
    ime_resets_of s = 0

    module _ (c : Codec ℕ N) where
      -- A call from Java.
      unfoldable pub perform : Send N → Link → Run Link
      perform s link = elim link.conn_fd [
        | none ↦ ok link
        | some fd ↦ (do
          ms ← messages s
          ok (record link {
            sent = link.sent ++ serialize_all c ms;
            ime_resets = link.ime_resets + ime_resets_of s;
          }))
      ]

      unfoldable pub perform_all : List (Send N) → Link → Run Link
      perform_all [] link = ok link
      perform_all (s ∷ ss) link = do link' ← perform s link; perform_all ss link'
