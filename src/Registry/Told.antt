-- ===== src/Registry/Told.antt =====
-- The list of registered buffers of cmdentrypoint.c and what the activity has been told, over histories
-- of calls.
use termux_x11_virtualkeys.Base.{
  ℕ, ◌≡◌, refl, sym, ap, ◌∙◌, subst, true, false, Option, none, some, List, [], ◌∷◌,
}
use termux_x11_virtualkeys.Connection.{send_shared_server_state, descriptor, shared_server_state}
use termux_x11_virtualkeys.Buffer.Alloc.{
  LorieBuffer, BufferType, regular, unknown, fd_backed, hardware,
}
use termux_x11_virtualkeys.Buffer.Transfer.{send}
use termux_x11_virtualkeys.Buffer.Os.{remove}
use termux_x11_virtualkeys.Registry.Ids.{
  ids, mem, Distinct, find_by_id-mem, ids-remove_from_list, remove-Distinct, mem-remove,
  find_by_id-found, mem-head,
}
use termux_x11_virtualkeys.Registry.{
  Server, Call, registers, unregisters, connects, loses, id_of, description_id, find_by_id,
  register_buffer, unregister_buffer, add_fd, empty_list, lose_connection, step, run, told,
}

-- No buffer is registered without a connection.
abbrev pub Idle : Option ℕ → List LorieBuffer → Type 0
Idle none bs = bs ≡ []
Idle (some fd) bs = Unit

-- The registered buffers are those that the activity was told it has, each once.
abbrev pub Known : Server → Type 0
Known s =
    (ids s.registered ≡ told s.connection.wire)
    × (Distinct (ids s.registered) × Idle s.connection.conn_fd s.registered)

-- A new connection comes only when the one before it is lost.
unfoldable pub Orderly : List Call → Server → Type 0
Orderly [] s = Unit
Orderly (registers b ∷ calls) s = Orderly calls (step (registers b) s)
Orderly (unregisters b ∷ calls) s = Orderly calls (step (unregisters b) s)
Orderly (loses ∷ calls) s = Orderly calls (step loses s)
Orderly (connects fd memfd root ∷ calls) s =
    (s.connection.conn_fd ≡ none) × Orderly calls (step (connects fd memfd root) s)

empty : (bs : List LorieBuffer) → empty_list bs ≡ []
unfolding empty_list
empty [] = refl
empty (b ∷ bs) = empty bs

sent_id : (b : LorieBuffer) (t : BufferType) → b.desc.type ≡ t → id_of ((send b).bytes) ≡ id_of b
unfolding send
sent_id b regular e = rw (e, send) refl
sent_id b unknown e = rw (e, send) refl
sent_id b hardware e = rw (e, send) refl
sent_id b fd_backed e = rw (e, send) refl

busy : (c : Option ℕ) (fd : ℕ) (bs : List LorieBuffer) → c ≡ some fd → Idle c bs
busy c fd bs e = subst (λ q. Idle q bs) (sym e) tt

register_buffer-Known :
    (b : Option LorieBuffer) (s : Server) → Known s → Known (register_buffer b s)
unfolding register_buffer ids told
register_buffer-Known b s k =
    go (s.connection.conn_fd) refl (find_by_id (description_id b) s.registered) refl b refl
  where
    go :
        (c : Option ℕ)
        → s.connection.conn_fd ≡ c
        → (f : Option LorieBuffer) → find_by_id (description_id b) s.registered ≡ f
        → (b' : Option LorieBuffer) → b ≡ b'
        → Known (register_buffer b s)
    go none e f g b' h = rw (e, register_buffer) k
    go (some fd) e (some x) g b' h = rw (e, g, register_buffer) k
    go (some fd) e none g none h = rw (e, g, h, register_buffer) k
    go (some fd) e none g (some b') h =
        rw (e, g, h, register_buffer)
          (
            ap (λ rest. id_of b' ∷ rest) (k.0)
                ∙ ap (λ i. i ∷ told s.connection.wire) (sym (sent_id b' (b'.desc.type) refl)),
            (
              (
                find_by_id-mem (id_of b') s.registered
                    (subst (λ q. find_by_id (description_id q) s.registered ≡ none) h g),
                k.1.0,
              ),
              busy _ fd _ e,
            ),
          )

unregister_buffer-Known :
    (b : Option LorieBuffer) (s : Server) → Known s → Known (unregister_buffer b s)
unfolding unregister_buffer told
unregister_buffer-Known none s k = k
unregister_buffer-Known (some b) s k =
    go (s.connection.conn_fd) refl (find_by_id (id_of b) s.registered) refl
  where
    go :
        (c : Option ℕ)
        → s.connection.conn_fd ≡ c
        → (f : Option LorieBuffer) → find_by_id (id_of b) s.registered ≡ f
        → Known (unregister_buffer (some b) s)
    go c e none g = rw (g, unregister_buffer) k
    go none e (some x) g = rw (g, e, unregister_buffer) k
    go (some fd) e (some x) g =
        rw (g, e, unregister_buffer)
          (
            ids-remove_from_list (id_of b) s.registered ∙ ap (remove (id_of b)) (k.0),
            (
              subst Distinct (sym (ids-remove_from_list (id_of b) s.registered))
                  (remove-Distinct (id_of b) _ (k.1.0)),
              busy _ fd _ e,
            ),
          )

lose_connection-Known : (s : Server) → Known (lose_connection s)
unfolding lose_connection told ids empty_list
lose_connection-Known s = rw (empty s.registered) (refl, (tt, refl))

add_fd-Known :
    (fd memfd : ℕ) (root : Option LorieBuffer) (s : Server)
    → s.connection.conn_fd ≡ none
    → Known s
    → Known (add_fd fd memfd root s)
unfolding add_fd send_shared_server_state told ids
add_fd-Known fd memfd root s e k =
    register_buffer-Known root
      (record s {
        connection = record {
          conn_fd = some fd;
          wire = descriptor memfd ∷ shared_server_state ∷ [];
        };
      })
      (ap ids (subst (λ c. Idle c s.registered) e (k.1.1)), (k.1.0, tt))

-- In every history of registrations, withdrawals, new and lost connections, where a connection comes
-- only when the one before it is lost, the list of registered buffers stays what the packets on the
-- present socket have told the activity that it has, each buffer once, and is empty while there is
-- no connection; it has to be so at the start.
pub run-Known : (calls : List Call) (s : Server) → Known s → Orderly calls s → Known (run calls s)
unfolding run step Orderly
run-Known [] s k o = k
run-Known (registers b ∷ calls) s k o = run-Known calls _ (register_buffer-Known b s k) o
run-Known (unregisters b ∷ calls) s k o = run-Known calls _ (unregister_buffer-Known b s k) o
run-Known (loses ∷ calls) s k o = run-Known calls _ (lose_connection-Known s) o
run-Known (connects fd memfd root ∷ calls) s k o =
    run-Known calls _ (add_fd-Known fd memfd root s (o.0) k) (o.1)

-- On a connection, the activity has a buffer once it is registered, be it new or known already, and
-- has it no longer once it is withdrawn; the list has to agree with what was told before.
pub register-unregister_told :
    (b : LorieBuffer) (fd : ℕ) (s : Server)
    → s.connection.conn_fd ≡ some fd
    → Known s
    → (mem (id_of b) (told ((register_buffer (some b) s).connection.wire)) ≡ true)
      × (mem (id_of b) (told ((unregister_buffer (some b) s).connection.wire)) ≡ false)
unfolding register_buffer unregister_buffer told
register-unregister_told b fd s e k = go (find_by_id (id_of b) s.registered) refl
  where
    go :
        (f : Option LorieBuffer)
        → find_by_id (id_of b) s.registered ≡ f
        → (mem (id_of b) (told ((register_buffer (some b) s).connection.wire)) ≡ true)
          × (mem (id_of b) (told ((unregister_buffer (some b) s).connection.wire)) ≡ false)
    go none g = (
      rw (e, g, register_buffer)
          (subst (λ i. mem (id_of b) (i ∷ told s.connection.wire) ≡ true)
            (sym (sent_id b (b.desc.type) refl)) (mem-head (id_of b) _)),
      rw (g, unregister_buffer)
          (subst (λ q. mem (id_of b) q ≡ false) (k.0) (find_by_id-mem (id_of b) _ g)),
    )
    go (some x) g = (
      rw (e, g, register_buffer)
          (subst (λ q. mem (id_of b) q ≡ true) (k.0) (find_by_id-found (id_of b) _ x g)),
      rw (g, e, unregister_buffer)
          (subst (λ q. mem (id_of b) (remove (id_of b) q) ≡ false) (k.0)
            (mem-remove (id_of b) _ (k.1.0))),
    )

-- A connection that comes before the loss of the other is noticed, when the buffer of the root
-- window is registered, tells the new activity of no buffer.
pub add_fd_untold :
    (fd memfd : ℕ) (root x : LorieBuffer) (s : Server)
    → find_by_id (id_of root) s.registered ≡ some x
    → told ((add_fd fd memfd (some root) s).connection.wire) ≡ []
unfolding add_fd register_buffer send_shared_server_state told
add_fd_untold fd memfd root x s e = rw (e, add_fd, register_buffer) refl
