-- ===== src/Wire/Messages.antt =====
-- The messages that a call of Java in the activity writes, and the server's reader on them.
use termux_x11_virtualkeys.Wire.{unicode, read}
use termux_x11_virtualkeys.Wire.Framing.{
  Message, AllFramed, IsFramed, framed, no_more, take-length_append,
}
use termux_x11_virtualkeys.Wire.Server.{Setting, server_reader, behind_event}
use termux_x11_virtualkeys.Wire.Activity.{
  Send, set_clipboard_sync_enabled, send_clipboard_announce, send_clipboard_event,
  send_window_change, send_mouse_event, send_touch_event, send_stylus_event, request_stylus_enabled,
  send_key_event, send_text_event, Locale, name_of, linux_code, alone, clipboard_message,
  window_message, text_loop, text_messages, messages,
}
use termux_x11_virtualkeys.Base.{
  ℕ, zero, suc, ◌+◌, ◌-◌, ◌%◌, ◌^◌, ◌≤◌, ◌<◌, ◌==◌, ltb, leb, true, false, Option, none, some, List,
  [], ◌∷◌, ◌++◌, length, drop, ok, Returns, Returns-bind, ◌≡◌, refl, arith, Bool-cases,
  Option-cases, if_property, length-append, inl, inr, length-drop, drop-length_append,
}

-- `mbrtowc` takes no more bytes than there are.
abbrev pub StaysInside : Locale → Type 0
StaysInside l = (s : List ℕ) (wc len : ℕ) → l.mbrtowc s ≡ some (wc, len) → len ≤ length s

read-append : (xs ys : List ℕ) → read (length xs) (xs ++ ys) ≡ (xs, ys)
read-append xs ys = rw (take-length_append xs ys, drop-length_append xs ys) refl

small_mod : (n : ℕ) → n < 2 ^ 32 → n % 2 ^ 32 ≡ n
small_mod n h = omega (arith, h)

positive : (n : ℕ) → (n == 0) ≡ false → 0 < n
positive n h = ground (arith, h)

not_past : (a b : ℕ) → a < b → ltb a b ≡ true
not_past a b h = ground (arith, h)

module _ {N : Type 0} where
  -- A text whose length is a `uint32_t`, and a key that is in the table.
  abbrev pub IsSafe : Send N → Type 0
  IsSafe (send_clipboard_event (some text)) = length text < 2 ^ 32
  IsSafe (send_key_event scan_code key_code down) = scan_code ≡ 0 → key_code < 304
  IsSafe s = Unit

  abbrev pub AllSafe : List (Send N) → Type 0
  AllSafe [] = Unit
  AllSafe (s ∷ ss) = IsSafe s × AllSafe ss

  module _ (setting : Setting N) where
    abbrev pub Framed : List (Message ℕ N) → Type 0
    Framed ms = AllFramed (server_reader setting) ms

    one : (m : Message ℕ N) → IsFramed (server_reader setting) m → Framed (m ∷ [])
    one m f = framed f no_more

    window_message-IsFramed :
        (width height framerate : ℕ) (name : Option (List ℕ))
        → IsFramed (server_reader setting) (window_message width height framerate name)
    unfolding behind_event window_message
    window_message-IsFramed width height framerate name tail =
        read-append (name_of width height name) tail

    clipboard_message-IsFramed :
        (text : List ℕ)
        → length text < 2 ^ 32
        → IsFramed (server_reader setting) (clipboard_message text)
    unfolding behind_event clipboard_message
    clipboard_message-IsFramed text h tail = rw (small_mod (length text) h) (read-append text tail)

    module _ (l : Locale) (inside : StaysInside l) where
      text_loop-Returns :
          (fuel size offset : ℕ) (p : List ℕ)
          → offset < size
          → size ≤ offset + fuel
          → size ≤ offset + length p
          → Returns Framed (text_loop l fuel size offset p)
      unfolding text_loop behind_event
      text_loop-Returns zero size offset p h i j = absurd (omega (arith, h, i))
      text_loop-Returns (suc fuel) size offset [] h i j = absurd (omega (arith, h, j))
      text_loop-Returns (suc fuel) size offset (b ∷ p) h i j = elim (Bool-cases (b == 0)) [
        | inl y ↦ rw y no_more
        | inr y ↦ rw y (elim (Option-cases (l.mbrtowc (b ∷ p))) [
          | inl e ↦ rw e no_more
          | inr (wl, e) ↦ rw e (elim (Bool-cases (wl.1 == 0)) [
            | inl z ↦ rw z no_more
            | inr z ↦ rw z (elim (Bool-cases (leb size (offset + wl.1))) [
              | inl w ↦ rw w (framed (λ tail. refl) no_more)
              | inr w ↦ rw w (
                  Returns-bind Framed Framed
                    (text_loop l fuel size (offset + wl.1) (drop (wl.1) (b ∷ p)))
                    (λ rest. ok (alone (unicode wl.0) ∷ rest))
                    (text_loop-Returns fuel size (offset + wl.1) (drop (wl.1) (b ∷ p))
                      (ground (arith, w)) (omega (arith, i, positive (wl.1) z))
                      (omega (arith, j, inside (b ∷ p) wl.0 wl.1 e, length-drop (wl.1) (b ∷ p))))
                    (λ ms f. framed (λ tail. refl) f))
            ])
          ])
        ])
      ]

      linux_code-Returns :
          (scan_code key_code : ℕ)
          → (scan_code ≡ 0 → key_code < 304)
          → Returns (λ (k : ℕ). Unit) (linux_code l scan_code key_code)
      unfolding linux_code
      linux_code-Returns zero key_code h = rw (not_past key_code 304 (h refl)) tt
      linux_code-Returns (suc n) key_code h = elim (Bool-cases (suc n == 0)) [
        | inl y ↦ absurd (ground (arith, y))
        | inr y ↦ rw y tt
      ]

      pub messages-Returns : (s : Send N) → IsSafe s → Returns Framed (messages l s)
      unfolding messages behind_event text_messages
      messages-Returns (set_clipboard_sync_enabled enable) h = framed (λ tail. refl) no_more
      messages-Returns send_clipboard_announce h = framed (λ tail. refl) no_more
      messages-Returns (send_clipboard_event none) h = no_more
      messages-Returns (send_clipboard_event (some text)) h =
          framed (clipboard_message-IsFramed text h) no_more
      messages-Returns (send_window_change width height framerate name) h =
          framed (window_message-IsFramed width height framerate name) no_more
      messages-Returns (send_mouse_event x y which_button down relative) h =
          framed (λ tail. refl) no_more
      messages-Returns (send_touch_event action id x y) h =
          if_property (Returns Framed) (action == 2 ^ 32 - 1) no_more
            (framed (λ tail. refl) no_more)
      messages-Returns
            (send_stylus_event x y pressure tilt_x tilt_y orientation buttons eraser is_mouse) h =
          framed (λ tail. refl) no_more
      messages-Returns (request_stylus_enabled enabled) h = framed (λ tail. refl) no_more
      messages-Returns (send_key_event scan_code key_code down) h =
          Returns-bind (λ (k : ℕ). Unit) Framed (linux_code l scan_code key_code) _
            (linux_code-Returns scan_code key_code h) (λ k u. framed (λ tail. refl) no_more)
      messages-Returns (send_text_event none behind) h = no_more
      messages-Returns (send_text_event (some []) behind) h = no_more
      messages-Returns (send_text_event (some (b ∷ text)) behind) h =
          text_loop-Returns (length (b ∷ text)) (length (b ∷ text)) 0 ((b ∷ text) ++ behind)
            (omega arith) (omega arith) (omega (arith, length-append {A = ℕ} (b ∷ text) behind))
