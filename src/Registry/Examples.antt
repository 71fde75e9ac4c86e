-- ===== src/Registry/Examples.antt =====
-- Tests of the registry and its theorems at concrete inputs.
use termux_x11_virtualkeys.Base.{ℕ, ◌≡◌, refl, true, false, none, some, List, [], ◌∷◌, ◌++◌}
use termux_x11_virtualkeys.Connection.{send_shared_server_state}
use termux_x11_virtualkeys.Buffer.Alloc.{LorieBuffer, fd_backed}
use termux_x11_virtualkeys.Buffer.Os.{remove}
use termux_x11_virtualkeys.Buffer.Transfer.{send}
use termux_x11_virtualkeys.Registry.{
  step, remove_from_list, lose_connection, empty_list, Server, Call, registers, unregisters,
  connects, loses, find_by_id, register_buffer, unregister_buffer, add_fd, run, told,
}
use termux_x11_virtualkeys.Registry.Ids.{ids, mem}
use termux_x11_virtualkeys.Registry.Told.{Orderly, Known, run-Known}

abbrev buffer_with_id : ℕ → LorieBuffer
buffer_with_id id = record {
  address = 64;
  refcount = 1;
  padding = 0;
  desc = record {
    width = 64;
    height = 32;
    stride = 64;
    format = 5;
    type = fd_backed;
    id = id;
    buffer = none;
    pixels = some 4096;
  };
  locked = false;
  locked_data = none;
  fd = some 7;
  size = 8192;
  offset = 0;
  texture = none;
  image = none;
}

-- Before the first connection.
abbrev started : Server
started = record {
  connection = record { conn_fd = none; wire = [] };
  clipboard_sync = true;
  registered = [];
}

abbrev session : List Call
session =
    registers (some (buffer_with_id 8))
    ∷ connects 5 6 (some (buffer_with_id 1))
    ∷ registers (some (buffer_with_id 2))
    ∷ registers (some (buffer_with_id 2))
    ∷ unregisters (some (buffer_with_id 1))
    ∷ []

-- The activity is left with the second buffer alone.
session-told : told ((run session started).connection.wire) ≡ 2 ∷ []
unfolding run step told ids mem find_by_id remove_from_list register_buffer unregister_buffer add_fd
    lose_connection empty_list send_shared_server_state remove send Orderly
session-told = refl

run-Known_example : Known (run (session ++ (loses ∷ session)) started)
unfolding run step told ids mem find_by_id remove_from_list register_buffer unregister_buffer add_fd
    lose_connection empty_list send_shared_server_state remove send Orderly
run-Known_example =
    run-Known (session ++ (loses ∷ session)) started (refl, (tt, refl)) (refl, (refl, tt))
