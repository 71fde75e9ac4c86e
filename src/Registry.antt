-- ===== src/Registry.antt =====
-- The buffers that the activity has been told of: `registeredBuffers` of cmdentrypoint.c, the
-- functions on it, the start of a connection (with `lorieActivityConnected` of InitOutput.c) and its
-- loss.
use termux_x11_virtualkeys.Base.{
  ℕ, ◌==◌, ◌≡◌, refl, Bool, true, false, Option, none, some, List, [], ◌∷◌, map, if◌then◌else◌,
  arith,
}
use termux_x11_virtualkeys.Connection.{
  Connection, Packet, buffer_handle, add_buffer, remove_buffer, shared_server_state,
  clipboard_request, clipboard_send, window_focus_changed, payload, descriptor,
  send_shared_server_state,
}
use termux_x11_virtualkeys.Buffer.Alloc.{LorieBuffer}
use termux_x11_virtualkeys.Buffer.Transfer.{Sent, send}
use termux_x11_virtualkeys.Buffer.Os.{remove}
pub mod Ids
pub mod Told
mod Examples

-- The newest buffer is first in the list.
pub record Server : Type 0 where
  pub connection : Connection
  pub clipboard_sync : Bool
  pub registered : List LorieBuffer

-- `LorieBuffer_description(buffer)->id`.
abbrev pub id_of : LorieBuffer → ℕ
id_of b = b.desc.id

abbrev pub description_id : Option LorieBuffer → ℕ
description_id none = 0
description_id (some b) = id_of b

-- `LorieBufferList_findById`.
unfoldable pub find_by_id : ℕ → List LorieBuffer → Option LorieBuffer
find_by_id id [] = none
find_by_id id (b ∷ bs) = let rest = find_by_id id bs in if id_of b == id then some b else rest

-- `LorieBuffer_removeFromList`, of the buffer in the list that has the identifier.
unfoldable pub remove_from_list : ℕ → List LorieBuffer → List LorieBuffer
remove_from_list id [] = []
remove_from_list id (b ∷ bs) =
    let rest = remove_from_list id bs in if id_of b == id then bs else b ∷ rest

-- `lorieRegisterBuffer`.
unfoldable pub register_buffer : Option LorieBuffer → Server → Server
register_buffer buffer s = elim s.connection.conn_fd [
  | none ↦ s
  | some fd ↦ elim (find_by_id (description_id buffer) s.registered) [
    | some b ↦ s
    | none ↦ elim buffer [
      | none ↦ s
      | some b ↦ record s {
        connection = record (s.connection) {
          wire = buffer_handle (send b) ∷ add_buffer ∷ s.connection.wire;
        };
        registered = b ∷ s.registered;
      }
    ]
  ]
]

-- `lorieUnregisterBuffer`.
unfoldable pub unregister_buffer : Option LorieBuffer → Server → Server
unregister_buffer none s = s
unregister_buffer (some b) s = elim (find_by_id (id_of b) s.registered) [
  | none ↦ s
  | some found ↦ elim s.connection.conn_fd [
    | none ↦ s
    | some fd ↦ record s {
      connection = record (s.connection) { wire = remove_buffer (id_of b) ∷ s.connection.wire };
      registered = remove_from_list (id_of b) s.registered;
    }
  ]
]

-- `addFd`: nothing has been written on the new socket. The shared state and the buffer of the root
-- window are sent first.
unfoldable pub add_fd : (fd memfd : ℕ) → Option LorieBuffer → Server → Server
unfolding register_buffer
add_fd fd memfd root s =
    let c : Connection = record { conn_fd = some fd; wire = [] } in
    register_buffer root (record s { connection = send_shared_server_state memfd c })

-- `handleLorieEvents` on an error of the socket: the list is emptied from its head.
unfoldable pub empty_list : List LorieBuffer → List LorieBuffer
empty_list [] = []
empty_list (b ∷ bs) = empty_list bs

unfoldable pub lose_connection : Server → Server
lose_connection s = record s {
  connection = record { conn_fd = none; wire = [] };
  clipboard_sync = false;
  registered = empty_list s.registered;
}

pub data Call : Type 0 where
  registers : Option LorieBuffer → Call
  unregisters : Option LorieBuffer → Call
  connects : (fd memfd : ℕ) → Option LorieBuffer → Call
  loses : Call

unfoldable pub step : Call → Server → Server
step (registers b) s = register_buffer b s
step (unregisters b) s = unregister_buffer b s
step (connects fd memfd root) s = add_fd fd memfd root s
step loses s = lose_connection s

unfoldable pub run : List Call → Server → Server
run [] s = s
run (call ∷ calls) s = run calls (step call s)

-- What the packets on the socket, the newest first, have told the activity that it has.
unfoldable pub told : List Packet → List ℕ
told [] = []
told (buffer_handle sent ∷ ps) = id_of (sent.bytes) ∷ told ps
told (remove_buffer id ∷ ps) = remove id (told ps)
told (shared_server_state ∷ ps) = told ps
told (add_buffer ∷ ps) = told ps
told (clipboard_request ∷ ps) = told ps
told (clipboard_send n ∷ ps) = told ps
told (window_focus_changed ∷ ps) = told ps
told (payload bytes ∷ ps) = told ps
told (descriptor fd ∷ ps) = told ps
