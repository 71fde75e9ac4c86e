-- ===== src/Wire/Examples.antt =====
-- Both ends of the socket at concrete inputs, with the layout of Sample and whole numbers for floating
-- point ones.
use termux_x11_virtualkeys.Clipboard.Text.{c_string, utf8_to_ucs4}
use termux_x11_virtualkeys.Clipboard.Text.Encode.{encode_all, length-encode_bounds}
use termux_x11_virtualkeys.Clipboard.Text.Decode.{utf8_to_ucs4-encode}
use termux_x11_virtualkeys.Buffer.Alloc.{LorieBuffer, fd_backed}
use termux_x11_virtualkeys.Registry.{Server, Call, registers, unregisters, connects, run, told}
use termux_x11_virtualkeys.Registry.Ids.{ids}
use termux_x11_virtualkeys.Registry.Told.{Orderly, Known}
use termux_x11_virtualkeys.Renderer.Buffers.{Texture}
use termux_x11_virtualkeys.Renderer.Thread.{Renderer, no_surface}
use termux_x11_virtualkeys.Input.{MouseEvent}
use termux_x11_virtualkeys.Wire.{
  LorieEvent, again, shared_server_state, add_buffer, remove_buffer, screen_size, touch, mouse, key,
  stylus, stylus_enable, unicode, clipboard_enable, clipboard_announce, clipboard_request,
  clipboard_send, window_focus_changed, other,
}
use termux_x11_virtualkeys.Wire.Framing.{Message}
use termux_x11_virtualkeys.Wire.Delivery.{Delivered, poll}
use termux_x11_virtualkeys.Wire.Server.{
  Handler, Setting, no_axes, server_reader, fresh_mask, behind_event,
}
use termux_x11_virtualkeys.Wire.Activity.{
  Send, send_clipboard_event, send_touch_event, send_key_event, send_window_change, send_text_event,
  Locale, Link, perform_all, messages,
}
use termux_x11_virtualkeys.Wire.Messages.{StaysInside}
use termux_x11_virtualkeys.Wire.History.{all_messages, perform_all-Delivered}
use termux_x11_virtualkeys.Wire.Typed.{DecodesUtf8, unicode_messages, text_messages-encode_all}
use termux_x11_virtualkeys.Wire.Receive.{
  Activity, Ancillary, activity_reader, java_call, set_clipboard_text,
}
use termux_x11_virtualkeys.Wire.Receive.Letters.{Envelope, Matches}
use termux_x11_virtualkeys.Wire.Receive.Whole.{wire_bytes, nothing_written}
use termux_x11_virtualkeys.Wire.Receive.Mirror.{texture_ids, Holds, run_mirrored}
use termux_x11_virtualkeys.Wire.Receive.Overread.{clipboard_overread}
use termux_x11_virtualkeys.Wire.Sample.{numbers, numbers-IsCodec}
use termux_x11_virtualkeys.Base.{
  ap, inl, ℕ, ◌+◌, ◌/◌, ◌≤◌, ◌==◌, ltb, true, false, Option, none, some, List, [], ◌∷◌, ◌++◌,
  length, Run, ok, fault, out_of_fuel, Returns, ◌≡◌, refl, arith, length-drop,
}

abbrev whole : Setting ℕ
whole = record {
  floats = record { of_nat = λ n. n; less = ltb; is_zero = λ n. n == 0; div_120 = λ n. n / 120 };
  of_signed = λ bits w. w;
  width = 800;
  height = 600;
  ucs2keysym = λ u. u;
}

abbrev idle : Handler ℕ
idle = record {
  mask = no_axes;
  buttons_prev = 0;
  devices = record { has_mouse = true; has_pen = false; has_eraser = false };
  calls = [];
}

-- A locale whose characters are bytes.
abbrev one_byte : List ℕ → Option (ℕ × ℕ)
one_byte [] = none
one_byte (b ∷ s) = some (b, 1)

abbrev bytes_locale : Locale
bytes_locale = record { android_to_linux_keycode = λ k. k + 100; mbrtowc = one_byte }

abbrev length_of : Option (ℕ × ℕ) → ℕ
length_of none = 0
length_of (some p) = p.1

bytes_locale-StaysInside : StaysInside bytes_locale
bytes_locale-StaysInside [] wc len e = omega (arith, ap length_of e)
bytes_locale-StaysInside (b ∷ s) wc len e = omega (arith, ap length_of e)

-- A UTF-8 locale.
abbrev decoded : Run (ℕ × ℕ) → Option (ℕ × ℕ)
decoded (ok p) = some p
decoded fault = none
decoded out_of_fuel = none

abbrev utf8_locale : Locale
utf8_locale = record {
  android_to_linux_keycode = λ k. k;
  mbrtowc = λ s. decoded (utf8_to_ucs4 s 4);
}

utf8_locale-DecodesUtf8 : DecodesUtf8 utf8_locale
utf8_locale-DecodesUtf8 u rest s h =
    rw (utf8_to_ucs4-encode u 4 rest s ((length-encode_bounds u).1)) refl

-- A window, a touch, a text of the clipboard, a key by its code and by the table, and letters.
abbrev morning : List (Send ℕ)
morning =
    send_window_change 800 600 60 (some (0x61 ∷ 0x62 ∷ []))
    ∷ send_touch_event 18 1 10 20
    ∷ send_clipboard_event (some (0x68 ∷ 0x69 ∷ []))
    ∷ send_key_event 30 0 true
    ∷ send_key_event 0 29 false
    ∷ send_text_event (some (0x68 ∷ 0x69 ∷ [])) (0 ∷ [])
    ∷ []

abbrev new_link : Link
new_link = record { conn_fd = some 5; sent = []; ime_resets = 0 }

perform_all-Delivered_example :
    Returns
      (λ (link' : Link).
        (ms : List (Message ℕ ℕ)) × (all_messages bytes_locale morning ≡ ok ms)
        × Delivered numbers
            (server_reader whole)
            fresh_mask
            ms
            idle
            (poll numbers (server_reader whole) fresh_mask 2 link'.sent idle))
      (perform_all bytes_locale numbers morning new_link)
perform_all-Delivered_example =
    perform_all-Delivered whole bytes_locale numbers numbers-IsCodec bytes_locale-StaysInside 5
      morning new_link idle refl refl
      (tt, (tt, (omega arith, ((λ e. absurd (omega (arith, e))), ((λ e. omega arith), (tt, tt))))))

text_messages-encode_all_example :
    messages {N = ℕ} utf8_locale
      (send_text_event (some (encode_all (0x68 ∷ 0x20ac ∷ []))) (0x99 ∷ []))
    ≡ ok (unicode_messages (0x68 ∷ 0x20ac ∷ []))
text_messages-encode_all_example =
    text_messages-encode_all utf8_locale utf8_locale-DecodesUtf8 (0x68 ∷ 0x20ac ∷ []) (0x99 ∷ []) (
      ((omega arith, inl (omega arith)), omega arith),
      (((omega arith, inl (omega arith)), omega arith), tt),
    )

server_Shrinks : (e : LorieEvent ℕ) (s : List ℕ) → length ((behind_event whole e s).1) ≤ length s
unfolding behind_event
server_Shrinks shared_server_state s = omega arith
server_Shrinks add_buffer s = omega arith
server_Shrinks (remove_buffer id) s = omega arith
server_Shrinks (screen_size w h f n) s = omega (arith, length-drop n s)
server_Shrinks (touch type id x y) s = omega arith
server_Shrinks (mouse e) s = omega arith
server_Shrinks (key code state) s = omega arith
server_Shrinks (stylus p) s = omega arith
server_Shrinks (stylus_enable b) s = omega arith
server_Shrinks (unicode code) s = omega arith
server_Shrinks (clipboard_enable b) s = omega arith
server_Shrinks clipboard_announce s = omega arith
server_Shrinks clipboard_request s = omega arith
server_Shrinks (clipboard_send n) s = omega (arith, length-drop n s)
server_Shrinks window_focus_changed s = omega arith
server_Shrinks (other type) s = omega arith

-- A stream of numbers where a descriptor is a number, and a buffer is three.
abbrev plain : Envelope ℕ
plain = record { with_fd = λ fd. fd; with_buffer = λ t. t.id ∷ t.width ∷ t.height ∷ [] }

abbrev first : List ℕ → Option ℕ
first [] = none
first (x ∷ xs) = some x

abbrev three : List ℕ → Option Texture
three (id ∷ (w ∷ (h ∷ []))) = some (record { id = id; width = w; height = h })
three xs = none

abbrev plain_ancillary : Ancillary ℕ
plain_ancillary = record {
  char_of = λ b. b;
  fd_of = first;
  buffer_size = λ s. 3;
  buffer_of = three;
  mmap = λ fd. none;
}

plain-Matches : Matches plain plain_ancillary
plain-Matches = record {
  fd_of-with_fd = λ fd. refl;
  buffer_size-with_buffer = λ t s. refl;
  buffer_of-with_buffer = λ t. refl;
}

abbrev no_renderer : Renderer
no_renderer = record {
  queues = record {
    added = [];
    buffers = [];
    removed = [];
    attached = [];
    released = [];
    released_in_gl = [];
  };
  state = none;
  pending_state = none;
  state_changed = false;
  window_changed = false;
  pending_win = none;
  win = 1;
  sfc = no_surface;
  expected_w = 0;
  expected_h = 0;
  waiting_for_buffers = false;
  last_requested = 0;
  released_wins = [];
  unmapped = [];
}

abbrev activity : Activity
activity = record {
  conn_fd = some 5;
  watched = some 5;
  closed = [];
  renderer = no_renderer;
  java = [];
}

abbrev block : ℕ → LorieBuffer
block id = record {
  address = 64;
  refcount = 1;
  padding = 0;
  desc = record {
    width = 64;
    height = 32;
    stride = 64;
    format = 5;
    type = fd_backed;
    id = id;
    buffer = none;
    pixels = some 4096;
  };
  locked = false;
  locked_data = none;
  fd = some 7;
  size = 8192;
  offset = 0;
  texture = none;
  image = none;
}

abbrev started : Server
started = record {
  connection = record { conn_fd = none; wire = [] };
  clipboard_sync = true;
  registered = [];
}

-- A root window, two buffers, and one of them withdrawn.
abbrev session : List Call
session =
    connects 5 6 (some (block 1))
    ∷ registers (some (block 2))
    ∷ registers (some (block 3))
    ∷ unregisters (some (block 2))
    ∷ []

started-Known : Known started
unfolding ids told
started-Known = (refl, (tt, refl))

session-Orderly : Orderly session started
unfolding Orderly
session-Orderly = (refl, tt)

activity-Holds : Holds [] activity
unfolding texture_ids
activity-Holds = (refl, refl)

run_mirrored_example : Returns (Holds (ids ((run session started).registered))) (
    poll numbers
      (activity_reader plain_ancillary)
      (λ a. a)
      2
      (wire_bytes numbers plain (λ b. b) ((run session started).connection.wire))
      activity)
run_mirrored_example =
    run_mirrored numbers plain (λ b. b) plain_ancillary numbers-IsCodec plain-Matches session
      started activity started-Known nothing_written session-Orderly activity-Holds

-- "hi", and the first byte of what follows.
clipboard_overread_example :
    again numbers
      (activity_reader plain_ancillary)
      2
      (numbers.encode (clipboard_send 2) ++ ((0x68 ∷ 0x69 ∷ []) ++ (13 ∷ 0 ∷ 0 ∷ [])))
      activity
    ≡ ok (java_call (set_clipboard_text (0x68 ∷ 0x69 ∷ [])) activity, 0 ∷ 0 ∷ [])
unfolding c_string
clipboard_overread_example =
    clipboard_overread numbers plain_ancillary numbers-IsCodec 1 (0x68 ∷ 0x69 ∷ []) 13 (0 ∷ 0 ∷ [])
      activity (omega arith)

abbrev wheel : MouseEvent ℕ
wheel = record { x = 0; y = 240; detail = 4; down = false; relative = false }

abbrev motion : MouseEvent ℕ
motion = record { x = 10; y = 20; detail = 0; down = false; relative = false }
