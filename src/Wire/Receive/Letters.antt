-- ===== src/Wire/Receive/Letters.antt =====
-- What the activity makes of the messages of the server, except the text of the clipboard.
use termux_x11_virtualkeys.Renderer.Buffers.{Texture}
use termux_x11_virtualkeys.Renderer.Thread.{set_shared_state}
use termux_x11_virtualkeys.Wire.{
  Codec, IsCodec, clipboard_request, shared_server_state, add_buffer, remove_buffer,
  window_focus_changed,
}
use termux_x11_virtualkeys.Wire.Framing.{
  Message, serialize_all, AllFramed, IsFramed, framed, no_more, take-length_append, handle_messages,
  handle_messages-append,
}
use termux_x11_virtualkeys.Wire.Delivery.{
  Delivered, nothing, at_once, and_last, poll, poll-Delivered,
}
use termux_x11_virtualkeys.Wire.Receive.{
  Activity, Ancillary, java_call, request_clipboard, reset_ime, activity_reader, behind_packet,
  handle_packet, on_renderer, on_queues,
}
use termux_x11_virtualkeys.Base.{
  ℕ, some, List, [], ◌∷◌, ◌++◌, length, Run, ok, ◌≡◌, refl, ap, ◌∙◌, arith, drop-length_append,
}

-- What the server tells the activity.
pub data Letter : Type 0 where
  state : (fd : ℕ) → Letter
  buffer : Texture → Letter
  removed : (id : ℕ) → Letter
  requested focus_changed : Letter

-- How descriptors and buffers are put on the stream.
pub record Envelope (B : Type 0) : Type 0 where
  pub with_fd : ℕ → B
  pub with_buffer : Texture → List B

-- What is received is what was sent: one byte with a descriptor, and as much of the stream as a buffer
-- took.
pub record Matches {B : Type 0} (v : Envelope B) (anc : Ancillary B) : Type 0 where
  pub fd_of-with_fd : (fd : ℕ) → anc.fd_of (v.with_fd fd ∷ []) ≡ some fd
  pub buffer_size-with_buffer :
      (t : Texture) (s : List B) → anc.buffer_size (v.with_buffer t ++ s) ≡ length (v.with_buffer t)
  pub buffer_of-with_buffer : (t : Texture) → anc.buffer_of (v.with_buffer t) ≡ some t

-- What a letter asks for.
unfoldable pub heed : {B : Type 0} → Ancillary B → Letter → Activity → Activity
heed anc (state fd) a =
    let a' = on_renderer (set_shared_state (anc.mmap fd)) a in record a' { closed = fd ∷ a'.closed }
heed anc (buffer t) a = on_queues (termux_x11_virtualkeys.Renderer.Buffers.add_buffer t) a
heed anc (removed id) a = on_queues (termux_x11_virtualkeys.Renderer.Buffers.remove_buffer id) a
heed anc requested a = java_call request_clipboard a
heed anc focus_changed a = java_call reset_ime a

unfoldable pub heed_all : {B : Type 0} → Ancillary B → List Letter → Activity → Activity
heed_all anc [] a = a
heed_all anc (x ∷ xs) a = heed_all anc xs (heed anc x a)

module _ {B N : Type 0} (v : Envelope B) where
  unfoldable pub post : Letter → Message B N
  post (state fd) = record { event = shared_server_state; extra = v.with_fd fd ∷ [] }
  post (buffer t) = record { event = add_buffer; extra = v.with_buffer t }
  post (removed id) = record { event = remove_buffer id; extra = [] }
  post requested = record { event = clipboard_request; extra = [] }
  post focus_changed = record { event = window_focus_changed; extra = [] }

  unfoldable pub post_all : List Letter → List (Message B N)
  post_all [] = []
  post_all (x ∷ xs) = post x ∷ post_all xs

module _ {B : Type 0} (N : Type 0) (v : Envelope B) (anc : Ancillary B) (m : Matches v anc) where
  post-IsFramed : (x : Letter) → IsFramed (activity_reader {N = N} anc) (post v x)
  unfolding post behind_packet
  post-IsFramed (state fd) tail = refl
  post-IsFramed (buffer t) tail =
      rw
        (
          m.buffer_size-with_buffer t tail,
          take-length_append (v.with_buffer t) tail,
          drop-length_append (v.with_buffer t) tail,
        )
        refl
  post-IsFramed (removed id) tail = refl
  post-IsFramed requested tail = refl
  post-IsFramed focus_changed tail = refl

  post_all-AllFramed : (xs : List Letter) → AllFramed (activity_reader {N = N} anc) (post_all v xs)
  unfolding post_all
  post_all-AllFramed [] = no_more
  post_all-AllFramed (x ∷ xs) = framed (post-IsFramed x) (post_all-AllFramed xs)

  handle_packet-heed :
      (x : Letter) (a : Activity)
      → handle_packet {N = N} anc ((post {N = N} v x).event) ((post {N = N} v x).extra) a
        ≡ heed anc x a
  unfolding post handle_packet heed
  handle_packet-heed (state fd) a = rw (m.fd_of-with_fd fd) refl
  handle_packet-heed (buffer t) a = rw (m.buffer_of-with_buffer t) refl
  handle_packet-heed (removed id) a = refl
  handle_packet-heed requested a = refl
  handle_packet-heed focus_changed a = refl

  handle_messages-heed_all :
      (xs : List Letter) (a : Activity)
      → handle_messages {N = N} (activity_reader anc) (post_all v xs) a ≡ heed_all anc xs a
  unfolding handle_messages post_all heed_all
  handle_messages-heed_all [] a = refl
  handle_messages-heed_all (x ∷ xs) a =
      ap (handle_messages (activity_reader anc) (post_all v xs)) (handle_packet-heed x a)
      ∙ handle_messages-heed_all xs (heed anc x a)

  -- A reader that resets nothing between its calls makes the same of messages in one call or two.
  Delivered-handle_messages :
      (c : Codec B N) (ms : List (Message B N)) (a : Activity) (o : Run Activity)
      → Delivered c (activity_reader anc) (λ a. a) ms a o
      → o ≡ ok (handle_messages (activity_reader anc) ms a)
  unfolding handle_messages
  Delivered-handle_messages c ms a o (nothing e) = rw e refl
  Delivered-handle_messages c ms a o (at_once done e) = rw e refl
  Delivered-handle_messages c ms a o (and_last done last e) =
      rw (e, handle_messages-append (activity_reader anc) done (last ∷ []) a) refl

  -- Whatever the server tells the activity, except the text of the clipboard, all of it is heeded,
  -- each once and in its order, within two calls of `xcallback`, where what is sent with a
  -- descriptor is received as it was sent.
  pub poll-heed_all :
      (c : Codec B N)
      → IsCodec c
      → (xs : List Letter) (a : Activity)
      → poll c (activity_reader anc) (λ a. a) 2 (serialize_all c (post_all v xs)) a
        ≡ ok (heed_all anc xs a)
  poll-heed_all c law xs a =
      Delivered-handle_messages c (post_all v xs) a _ (
        poll-Delivered c (activity_reader anc) (λ a. a) law (post_all v xs) 2 a (omega arith)
          (post_all-AllFramed xs))
      ∙ ap ok (handle_messages-heed_all xs a)
