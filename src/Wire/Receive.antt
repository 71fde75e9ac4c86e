-- ===== src/Wire/Receive.antt =====
-- The activity's reader of packets, `xcallback` of activity.c, and `connect_`. What the calls on
-- renderer.c do is Renderer; the calls of Java are kept in order. The stream is made of bytes, of which
-- some carry a descriptor.
use termux_x11_virtualkeys.Clipboard.Text.{c_string}
use termux_x11_virtualkeys.Renderer.Buffers.{Texture, Queues}
use termux_x11_virtualkeys.Renderer.Thread.{Mapped, Renderer, set_shared_state}
use termux_x11_virtualkeys.Wire.{
  LorieEvent, Codec, Reader, read, clipboard_send, clipboard_request, shared_server_state,
  add_buffer, remove_buffer, window_focus_changed,
}
use termux_x11_virtualkeys.Wire.Delivery.{call}
use termux_x11_virtualkeys.Base.{
  ℕ, suc, ◌==◌, Bool, Option, none, some, List, [], ◌∷◌, ◌++◌, if◌then◌else◌, take, map, Run, ok,
}
pub mod Overread
pub mod Letters
pub mod Whole
pub mod Mirror

-- A call of the activity's Java part.
pub data JavaCall : Type 0 where
  set_clipboard_text : List ℕ → JavaCall
  request_clipboard reset_ime client_connected_state_changed : JavaCall

-- `conn_fd`, the descriptor that the looper watches, those that were closed, the renderer, and the calls.
pub record Activity : Type 0 where
  pub conn_fd : Option ℕ
  pub watched : Option ℕ
  pub closed : List ℕ
  pub renderer : Renderer
  pub java : List JavaCall

-- What the stream carries: the byte, the descriptor that `ancil_recv_fd` gets, how much of it
-- `LorieBuffer_recvHandleFromUnixSocket` takes and the buffer that it gets, and how a state is mapped.
pub record Ancillary (B : Type 0) : Type 0 where
  pub char_of : B → ℕ
  pub fd_of : List B → Option ℕ
  pub buffer_size : List B → ℕ
  pub buffer_of : List B → Option Texture
  pub mmap : ℕ → Option Mapped

abbrev pub on_renderer : (Renderer → Renderer) → Activity → Activity
on_renderer change a = record a { renderer = change a.renderer }

abbrev pub on_queues : (Queues → Queues) → Activity → Activity
on_queues change a = on_renderer (λ r. record r { queues = change r.queues }) a

abbrev pub java_call : JavaCall → Activity → Activity
java_call j a = record a { java = a.java ++ (j ∷ []) }

-- What is left of the connection when it is given up.
unfoldable pub forget_server : Activity → Activity
forget_server a =
    on_queues termux_x11_virtualkeys.Renderer.Buffers.remove_all_buffers
      (on_renderer (set_shared_state none) a)

abbrev pub close_conn : Activity → Activity
close_conn a = elim a.conn_fd [ none ↦ a | some fd ↦ record a { closed = fd ∷ a.closed } ]

-- The first branch of `xcallback`; there is an activity to tell or not.
unfoldable pub hang_up : (instance_exists : Bool) → Activity → Activity
unfolding forget_server
hang_up instance_exists a =
    let told = if instance_exists then java_call client_connected_state_changed a else a in
    forget_server (record (close_conn told) { watched = none; conn_fd = none })

-- `connect_`.
unfoldable pub connect : Option ℕ → Activity → Activity
unfolding forget_server
connect fd a =
    let a' : Activity = elim a.conn_fd as (λ _. Activity) [
      | none ↦ a
      | some old ↦ forget_server (record (close_conn a) { watched = none })
    ] in
    record a' { conn_fd = fd; watched = fd }

-- `EVENT_SHARED_SERVER_STATE`, and `EVENT_ADD_BUFFER`, for what was received.
abbrev pub take_state : {B : Type 0} → Ancillary B → Option ℕ → Activity → Activity
take_state anc none a = a
take_state anc (some fd) a =
    let a' = on_renderer (set_shared_state (anc.mmap fd)) a in record a' { closed = fd ∷ a'.closed }

abbrev pub take_buffer : Option Texture → Activity → Activity
take_buffer none a = a
take_buffer (some t) a = on_queues (termux_x11_virtualkeys.Renderer.Buffers.add_buffer t) a

module _ {B N : Type 0} (anc : Ancillary B) where
  -- What the switch reads behind an event. The array for a text has a byte for the NUL, and as much as
  -- the array holds is read.
  unfoldable pub behind_packet : LorieEvent N → List B → List B × List B
  behind_packet (clipboard_send count) bytes =
      if count == 0 then ([], bytes) else read (suc count) bytes
  behind_packet shared_server_state bytes = read 1 bytes
  behind_packet add_buffer bytes = read (anc.buffer_size bytes) bytes
  behind_packet e bytes = ([], bytes)

  -- The switch over the type of an event, with what was read behind it.
  unfoldable pub handle_packet : LorieEvent N → List B → Activity → Activity
  handle_packet (clipboard_send count) extra a =
      if count == 0
      then a
      else java_call (set_clipboard_text (c_string (map anc.char_of (take count extra)))) a
  handle_packet clipboard_request extra a = java_call request_clipboard a
  handle_packet shared_server_state extra a = take_state anc (anc.fd_of extra) a
  handle_packet add_buffer extra a = take_buffer (anc.buffer_of extra) a
  handle_packet (remove_buffer id) extra a =
      on_queues (termux_x11_virtualkeys.Renderer.Buffers.remove_buffer id) a
  handle_packet window_focus_changed extra a = java_call reset_ime a
  handle_packet e extra a = a

  abbrev pub activity_reader : Reader B N Activity
  activity_reader = record { behind = behind_packet; handle = handle_packet }

  -- `xcallback`, for an error or a hangup, or for something to read.
  unfoldable pub xcallback :
      Codec B N → (hangup instance_exists : Bool) → List B → Activity → Run (Activity × List B)
  unfolding hang_up
  xcallback c hangup instance_exists bytes a =
      if hangup then ok (hang_up instance_exists a, bytes) else elim a.conn_fd [
        | none ↦ ok (a, bytes)
        | some fd ↦ call c activity_reader (λ a. a) bytes a
      ]
