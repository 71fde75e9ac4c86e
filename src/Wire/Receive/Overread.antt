-- ===== src/Wire/Receive/Overread.antt =====
-- The text of the clipboard at the activity, in `xcallback` of activity.c.
use termux_x11_virtualkeys.Clipboard.Text.{c_string}
use termux_x11_virtualkeys.Wire.{read, Codec, IsCodec, again, clipboard_send}
use termux_x11_virtualkeys.Wire.Framing.{IsFramed, take-length_append, Message, again_step}
use termux_x11_virtualkeys.Wire.Receive.{
  Activity, Ancillary, java_call, set_clipboard_text, activity_reader, behind_packet, handle_packet,
}
use termux_x11_virtualkeys.Base.{
  false, append_assoc, ℕ, suc, ◌<◌, ◌==◌, ltb, List, [], ◌∷◌, ◌++◌, if◌then◌else◌, length, map, ok,
  ◌≡◌, refl, sym, ap, ◌∙◌, arith,
}

nonzero : (n : ℕ) → 0 < n → (n == 0) ≡ false
nonzero n h = ground (arith, h)

read_past :
    {B : Type 0} (xs : List B) (b : B) (ys : List B)
    → read (suc (length xs)) ((xs ++ (b ∷ [])) ++ ys) ≡ (xs ++ (b ∷ []), ys)
read_past [] b ys = refl
read_past (x ∷ xs) b ys = ap (λ p. (x ∷ p.0, p.1)) (read_past xs b ys)

module _ {B N : Type 0} (c : Codec B N) (anc : Ancillary B) where
  abbrev overread_message : List B → B → Message B N
  overread_message text b = record {
    event = clipboard_send (length text);
    extra = text ++ (b ∷ []);
  }

  overread-IsFramed :
      (text : List B) (b : B)
      → (length text == 0) ≡ false
      → IsFramed (activity_reader anc) (overread_message text b)
  unfolding behind_packet
  overread-IsFramed text b h tail = rw h (read_past text b tail)

  -- A text of the clipboard that is not empty reaches Java as it was sent, up to a NUL, but with it
  -- the reader takes the first byte of what was written next: it goes on one byte behind the start
  -- of the next packet, where events are read as they were written.
  pub clipboard_overread :
      IsCodec c
      → (fuel : ℕ) (text : List B) (b : B) (rest : List B) (a : Activity) → 0 < length text
      → again c
          (activity_reader anc)
          (suc fuel)
          (c.encode (clipboard_send (length text)) ++ (text ++ (b ∷ rest)))
          a
        ≡ (let a' = java_call (set_clipboard_text (c_string (map anc.char_of text))) a in
            if ltb c.size (length rest)
            then again c (activity_reader anc) fuel rest a'
            else ok (a', rest))
  unfolding handle_packet
  clipboard_overread law fuel text b rest a h =
      ap
        (λ t.
          again c (activity_reader anc) (suc fuel) (c.encode (clipboard_send (length text)) ++ t) a)
        (sym (append_assoc text (b ∷ []) rest))
      ∙ again_step c law (activity_reader anc) fuel (overread_message text b) rest a
          (overread-IsFramed text b (nonzero (length text) h))
      ∙ rw (nonzero (length text) h, take-length_append text (b ∷ [])) refl
