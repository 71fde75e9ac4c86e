-- ===== src/Connection.antt =====
-- The server's side of the socket to the activity: the variable `conn_fd` and the functions of
-- app/src/main/cpp/lorie/cmdentrypoint.c that write to it. `wire` is what has been written, the
-- newest first.
use termux_x11_virtualkeys.Buffer.Transfer.{Sent}
use termux_x11_virtualkeys.Base.{ℕ, ◌%◌, ◌^◌, Option, none, some, List, ◌∷◌, length}

-- What one `write` or `ancil_send_fd` puts on the socket: a `lorieEvent`, or what follows one.
pub data Packet : Type 0 where
  shared_server_state : Packet
  add_buffer : Packet
  remove_buffer : ℕ → Packet
  clipboard_request : Packet
  clipboard_send : ℕ → Packet
  window_focus_changed : Packet
  payload : List ℕ → Packet
  descriptor : ℕ → Packet
  buffer_handle : Sent → Packet

pub record Connection : Type 0 where
  pub conn_fd : Option ℕ
  pub wire : List Packet

-- `write` on `conn_fd`, where there is one.
abbrev pub write_if_connected : List Packet → Connection → Connection
write_if_connected wire c = elim c.conn_fd [ none ↦ c | some fd ↦ record c { wire = wire } ]

-- `lorieSendClipboardData`. The count is a `uint32_t`; all the bytes are written.
unfoldable pub send_clipboard_data : List ℕ → Connection → Connection
send_clipboard_data text c =
    write_if_connected (payload text ∷ clipboard_send (length text % 2 ^ 32) ∷ c.wire) c

-- `lorieRequestClipboard`.
unfoldable pub request_clipboard : Connection → Connection
request_clipboard c = write_if_connected (clipboard_request ∷ c.wire) c

-- `lorieSendSharedServerState`.
unfoldable pub send_shared_server_state : ℕ → Connection → Connection
send_shared_server_state memfd c =
    write_if_connected (descriptor memfd ∷ shared_server_state ∷ c.wire) c

-- `DDXNotifyFocusChanged`.
pub notify_focus_changed : Connection → Connection
notify_focus_changed c = write_if_connected (window_focus_changed ∷ c.wire) c
