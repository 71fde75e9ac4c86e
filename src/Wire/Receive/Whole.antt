-- ===== src/Wire/Receive/Whole.antt =====
-- What cmdentrypoint.c writes of its buffers, as bytes and as letters.
use termux_x11_virtualkeys.Buffer.Alloc.{LorieBuffer}
use termux_x11_virtualkeys.Buffer.Transfer.{Sent}
use termux_x11_virtualkeys.Connection.{
  Packet, descriptor, buffer_handle, payload, send_shared_server_state,
}
use termux_x11_virtualkeys.Registry.{
  Server, Call, registers, unregisters, connects, loses, id_of, description_id, find_by_id,
  register_buffer, unregister_buffer, add_fd, lose_connection, step, run,
}
use termux_x11_virtualkeys.Renderer.Buffers.{Texture}
use termux_x11_virtualkeys.Wire.{Codec, LorieEvent}
use termux_x11_virtualkeys.Wire.Framing.{serialize_all}
use termux_x11_virtualkeys.Wire.Receive.Letters.{
  post, Letter, state, buffer, removed, requested, focus_changed, Envelope, post_all,
}
use termux_x11_virtualkeys.Base.{
  Option-cases, ℕ, ◌==◌, Bool-cases, Option, none, some, List, [], ◌∷◌, ◌++◌, if◌then◌else◌, Run,
  ok, Returns, ◌≡◌, refl, sym, ap, ◌∙◌, subst, inl, inr, arith, append-nil, append_assoc,
}

-- Packets, the newest first, that are whole messages and no texts of the clipboard.
pub data IsWhole : List Packet → Type 0 where
  nothing_written : IsWhole []
  state_written :
      {fd : ℕ} {ps : List Packet}
      → IsWhole ps
      → IsWhole (descriptor fd ∷ (Packet.shared_server_state ∷ ps))
  buffer_written :
      {s : Sent} {ps : List Packet}
      → IsWhole ps
      → IsWhole (buffer_handle s ∷ (Packet.add_buffer ∷ ps))
  removal_written :
      {id : ℕ} {ps : List Packet} → IsWhole ps → IsWhole (Packet.remove_buffer id ∷ ps)

-- The texture of a buffer that is received.
abbrev pub texture_of : Sent → Texture
texture_of s = record {
  id = s.bytes.desc.id;
  width = s.bytes.desc.width;
  height = s.bytes.desc.height;
}

-- What the packets say, the oldest first.
unfoldable pub letters : List Packet → List Letter
letters [] = []
letters (descriptor fd ∷ ps) = letters ps ++ (state fd ∷ [])
letters (buffer_handle s ∷ ps) = letters ps ++ (buffer (texture_of s) ∷ [])
letters (Packet.remove_buffer id ∷ ps) = letters ps ++ (removed id ∷ [])
letters (Packet.clipboard_request ∷ ps) = letters ps ++ (requested ∷ [])
letters (Packet.window_focus_changed ∷ ps) = letters ps ++ (focus_changed ∷ [])
letters (Packet.shared_server_state ∷ ps) = letters ps
letters (Packet.add_buffer ∷ ps) = letters ps
letters (Packet.clipboard_send n ∷ ps) = letters ps
letters (payload bytes ∷ ps) = letters ps

module _ {B N : Type 0} (c : Codec B N) (v : Envelope B) (byte : ℕ → B) where
  -- A packet on the stream.
  unfoldable pub packet_bytes : Packet → List B
  packet_bytes Packet.shared_server_state = c.encode LorieEvent.shared_server_state
  packet_bytes (descriptor fd) = v.with_fd fd ∷ []
  packet_bytes Packet.add_buffer = c.encode LorieEvent.add_buffer
  packet_bytes (buffer_handle s) = v.with_buffer (texture_of s)
  packet_bytes (Packet.remove_buffer id) = c.encode (LorieEvent.remove_buffer id)
  packet_bytes Packet.clipboard_request = c.encode LorieEvent.clipboard_request
  packet_bytes (Packet.clipboard_send n) = c.encode (LorieEvent.clipboard_send n)
  packet_bytes Packet.window_focus_changed = c.encode LorieEvent.window_focus_changed
  packet_bytes (payload bytes) = termux_x11_virtualkeys.Base.map byte bytes

  -- The stream after packets, the newest first.
  unfoldable pub wire_bytes : List Packet → List B
  wire_bytes [] = []
  wire_bytes (p ∷ ps) = wire_bytes ps ++ packet_bytes p

  post_all-append :
      (xs ys : List Letter)
      → serialize_all c (post_all v (xs ++ ys))
        ≡ serialize_all c (post_all v xs) ++ serialize_all c (post_all v ys)
  unfolding serialize_all post_all
  post_all-append [] ys = refl
  post_all-append (x ∷ xs) ys =
      let front = c.encode (post {N = N} v x).event in
      let extra = (post {N = N} v x).extra in
      let middle = serialize_all c (post_all v xs) in
      let rest = serialize_all c (post_all v ys) in
      ap (λ t. front ++ (extra ++ t)) (post_all-append xs ys)
      ∙ ap (λ t. front ++ t) (sym (append_assoc extra middle rest))
      ∙ sym (append_assoc front (extra ++ middle) rest)

  -- One letter more.
  post_all_snoc :
      (s : List B) (ls : List Letter) (x : Letter)
      → s ≡ serialize_all c (post_all v ls)
      → (s ++ c.encode ((post {N = N} v x).event)) ++ (post {N = N} v x).extra
        ≡ serialize_all c (post_all v (ls ++ (x ∷ [])))
  unfolding serialize_all post_all
  post_all_snoc s ls x e =
      let front = c.encode (post {N = N} v x).event in
      let extra = (post {N = N} v x).extra in
      append_assoc s front extra
      ∙ ap (λ t. t ++ (front ++ extra)) e
      ∙ ap (λ t. serialize_all c (post_all v ls) ++ (front ++ t)) (sym (append-nil extra))
      ∙ sym (post_all-append ls (x ∷ []))

  pub wire_bytes-letters :
      (ps : List Packet) → IsWhole ps → wire_bytes ps ≡ serialize_all c (post_all v (letters ps))
  unfolding wire_bytes packet_bytes letters serialize_all post_all post
  wire_bytes-letters [] nothing_written = refl
  wire_bytes-letters ps (state_written {fd = fd} {ps = qs} w) =
      post_all_snoc (wire_bytes qs) (letters qs) (state fd) (wire_bytes-letters qs w)
  wire_bytes-letters ps (buffer_written {s = s} {ps = qs} w) =
      post_all_snoc (wire_bytes qs) (letters qs) (buffer (texture_of s)) (wire_bytes-letters qs w)
  wire_bytes-letters ps (removal_written {id = id} {ps = qs} w) =
      sym (append-nil _)
      ∙ post_all_snoc (wire_bytes qs) (letters qs) (removed id) (wire_bytes-letters qs w)

-- The server writes whole messages.
abbrev pub WritesWhole : Server → Type 0
WritesWhole s = IsWhole s.connection.wire

register_buffer-WritesWhole :
    (b : Option LorieBuffer) (s : Server) → WritesWhole s → WritesWhole (register_buffer b s)
unfolding register_buffer
register_buffer-WritesWhole b s w =
    go (s.connection.conn_fd) refl (find_by_id (description_id b) s.registered) refl b refl
  where
    go :
        (c : Option ℕ)
        → s.connection.conn_fd ≡ c
        → (f : Option LorieBuffer) → find_by_id (description_id b) s.registered ≡ f
        → (b' : Option LorieBuffer) → b ≡ b'
        → WritesWhole (register_buffer b s)
    go none e f g b' h = rw (e, register_buffer) w
    go (some fd) e (some x) g b' h = rw (e, g, register_buffer) w
    go (some fd) e none g none h = rw (e, g, h, register_buffer) w
    go (some fd) e none g (some b') h = rw (e, g, h, register_buffer) (buffer_written w)

unregister_buffer-WritesWhole :
    (b : Option LorieBuffer) (s : Server) → WritesWhole s → WritesWhole (unregister_buffer b s)
unfolding unregister_buffer
unregister_buffer-WritesWhole none s w = w
unregister_buffer-WritesWhole (some b) s w =
    go (s.connection.conn_fd) refl (find_by_id (id_of b) s.registered) refl
  where
    go :
        (c : Option ℕ)
        → s.connection.conn_fd ≡ c
        → (f : Option LorieBuffer) → find_by_id (id_of b) s.registered ≡ f
        → WritesWhole (unregister_buffer (some b) s)
    go c e none g = rw (g, unregister_buffer) w
    go none e (some x) g = rw (g, e, unregister_buffer) w
    go (some fd) e (some x) g = rw (g, e, unregister_buffer) (removal_written w)

step-WritesWhole : (call : Call) (s : Server) → WritesWhole s → WritesWhole (step call s)
unfolding step add_fd send_shared_server_state lose_connection
step-WritesWhole (registers b) s w = register_buffer-WritesWhole b s w
step-WritesWhole (unregisters b) s w = unregister_buffer-WritesWhole b s w
step-WritesWhole (connects fd memfd root) s w =
    register_buffer-WritesWhole root
      (record s {
        connection = record {
          conn_fd = some fd;
          wire = descriptor memfd ∷ (Packet.shared_server_state ∷ []);
        };
      })
      (state_written nothing_written)
step-WritesWhole loses s w = nothing_written

pub run-WritesWhole : (calls : List Call) (s : Server) → WritesWhole s → WritesWhole (run calls s)
unfolding run
run-WritesWhole [] s w = w
run-WritesWhole (call ∷ calls) s w = run-WritesWhole calls (step call s) (step-WritesWhole call s w)
