-- ===== src/Screen/Import.antt =====
-- `loriePixmapFromFds` of InitOutput.c: a pixmap on a descriptor of a client, or on the hardware buffer
-- that it sends. The marks `imported` and `flipped` of a pixmap are left out, as is what EXA does.
use termux_x11_virtualkeys.Base.{
  ◌∷◌, ℕ, ◌/◌, ◌==◌, ltb, not, ◌&&◌, ◌||◌, Bool, true, false, Option, none, some, if◌then◌else◌,
  ◌≡◌, refl, sym, ap, ◌∙◌, subst, if_property, arith,
}
use termux_x11_virtualkeys.Buffer.Os.{Os, Res, take_block, free_block, take_ahb}
use termux_x11_virtualkeys.Buffer.Alloc.{
  LorieBuffer, World, wrap_file_descriptor, wrap_hardware_buffer,
}
use termux_x11_virtualkeys.Buffer.Leaks.{Balanced}
use termux_x11_virtualkeys.Buffer.Wrap.{
  wrap_file_descriptor-Balanced, wrap_hardware_buffer-Balanced,
}
use termux_x11_virtualkeys.Registry.{Server}
use termux_x11_virtualkeys.Screen.Pixmap.Life.{
  Private, no_pixels, GivesBack, destroy_pixmap-freed, alike, free_block-take_block,
}

-- RAW_MMAPPABLE_FD, DRM_FORMAT_MOD_INVALID, DRM_FORMAT_MOD_LINEAR, AHARDWAREBUFFER_SOCKET_FD,
-- AHARDWAREBUFFER_FLIPPED_SOCKET_FD, and any other number.
pub data Modifier : Type 0 where
  raw_mmappable invalid linear socket flipped_socket : Modifier
  unknown_modifier : ℕ → Modifier

-- The arguments, of which the first descriptor, stride and offset are read.
pub record Import : Type 0 where
  pub num_fds : ℕ
  pub fd : ℕ
  pub width : ℕ
  pub height : ℕ
  pub stride : ℕ
  pub offset : ℕ
  pub modifier : Modifier

-- The socket of a client: whether it is one, whether it can be written to, and the hardware buffer that
-- is received, if any.
pub record Peer : Type 0 where
  pub is_socket : Bool
  pub written : Bool
  pub received : Option ℕ

-- AHARDWAREBUFFER_FORMAT_B8G8R8A8_UNORM
abbrev pub b8g8r8a8 : ℕ
b8g8r8a8 = 5

-- R8G8B8A8, R8G8B8X8 or B8G8R8A8.
abbrev pub is_import_format : ℕ → Bool
is_import_format f = f == 1 || (f == 2 || f == b8g8r8a8)

-- The label `fail`, and the buffer put in the pixmap where there is one.
abbrev pub fail_import : ℕ → World → Option Private × World
fail_import a w = (none, record w { res = free_block a w.res })

abbrev pub with_wrapped : ℕ → Option LorieBuffer × World → Option Private × World
with_wrapped a (none, w) = fail_import a w
with_wrapped a (some b, w) =
    (some (record { address = a; pixmap = record no_pixels { buffer = some b } }), w)

open_peer : (a b : Bool) → (a && b) ≡ true → (not a || not b) ≡ false
open_peer true b e = rw e refl
open_peer false b e = ground (arith, e)

module _ (os : Os) where
  -- The two ways to get a buffer.
  abbrev pub from_descriptor : Import → ℕ → World → Option Private × World
  from_descriptor q a w =
      with_wrapped a
        (wrap_file_descriptor os q.width (q.stride / 4) q.height b8g8r8a8 (some q.fd) q.offset w)

  abbrev pub from_received : ℕ → World → Option ℕ → Option Private × World
  from_received a w none = fail_import a w
  from_received a w (some h) =
      let w' : World = record w { res = take_ahb h w.res } in
      if not (is_import_format (os.ahb_describe h).format)
      then fail_import a w'
      else with_wrapped a (wrap_hardware_buffer os (some h) w')

  abbrev pub from_socket : Peer → ℕ → World → Option Private × World
  from_socket peer a w =
      if not peer.is_socket || not peer.written
      then fail_import a w
      else from_received a w peer.received

  abbrev pub by_modifier : Modifier → Import → Peer → ℕ → World → Option Private × World
  by_modifier raw_mmappable q peer a w = from_descriptor q a w
  by_modifier invalid q peer a w = from_descriptor q a w
  by_modifier linear q peer a w = from_descriptor q a w
  by_modifier socket q peer a w = from_socket peer a w
  by_modifier flipped_socket q peer a w = from_socket peer a w
  by_modifier (unknown_modifier n) q peer a w = fail_import a w

  abbrev pub is_known : Modifier → Bool
  is_known (unknown_modifier n) = false
  is_known raw_mmappable = true
  is_known invalid = true
  is_known linear = true
  is_known socket = true
  is_known flipped_socket = true

  -- The pixmap is one of no size, so that its private data alone are allocated.
  abbrev pub import_in : Import → Peer → World → Option ℕ → Option Private × World
  import_in q peer w none = (none, w)
  import_in q peer w (some a) =
      by_modifier q.modifier q peer a (record w { res = take_block a w.res })

  -- `loriePixmapFromFds`.
  unfoldable pub pixmap_from_fds : Import → Peer → World → Option Private × World
  pixmap_from_fds q peer w =
      if ltb 1 q.num_fds || not (is_known q.modifier)
      then (none, w)
      else import_in q peer w (os.calloc w.res 1)

  with_wrapped-GivesBack :
      (a : ℕ) (s : Server) (r : Res) (o : Option LorieBuffer) (w : World)
      → Balanced os (take_block a r) (o, w.res)
      → GivesBack os s r (with_wrapped a (o, w))
  with_wrapped-GivesBack a s r none w e = ap (free_block a) e ∙ free_block-take_block a r
  with_wrapped-GivesBack a s r (some b) w (e, one) =
      destroy_pixmap-freed os a (record no_pixels { buffer = some b }) b b s w.res refl
        (alike os b b.locked b.locked_data) one
      ∙ ap (free_block a) e
      ∙ free_block-take_block a r

  -- A size, and a hardware buffer of a format that is taken.
  abbrev pub IsProper : Import → Peer → Type 0
  IsProper q peer =
      ((ltb 0 q.width && ltb 0 q.height) ≡ true)
      × ((h : ℕ) → peer.received ≡ some h → is_import_format (os.ahb_describe h).format ≡ true)

  from_received-GivesBack :
      (a : ℕ) (s : Server) (w : World) (o : Option ℕ)
      → ((h : ℕ) → o ≡ some h → is_import_format (os.ahb_describe h).format ≡ true)
      → GivesBack os s w.res (from_received a (record w { res = take_block a w.res }) o)
  from_received-GivesBack a s w none f = free_block-take_block a w.res
  from_received-GivesBack a s w (some h) f =
      let w' : World = record w { res = take_ahb h (take_block a w.res) } in
      let attempt = wrap_hardware_buffer os (some h) w' in
      subst (λ t. GivesBack os s w.res (if not t then fail_import a w' else with_wrapped a attempt))
        (sym (f h refl))
        (with_wrapped-GivesBack a s w.res attempt.0 attempt.1
          (wrap_hardware_buffer-Balanced os h w.next_id (take_block a w.res)))

  from_descriptor-GivesBack :
      (q : Import) (a : ℕ) (s : Server) (w : World)
      → (ltb 0 q.width && ltb 0 q.height) ≡ true
      → GivesBack os s w.res (from_descriptor q a (record w { res = take_block a w.res }))
  from_descriptor-GivesBack q a s w sized =
      let w' : World = record w { res = take_block a w.res } in
      let attempt =
        wrap_file_descriptor os q.width (q.stride / 4) q.height b8g8r8a8 (some q.fd) q.offset w' in
      with_wrapped-GivesBack a s w.res attempt.0 attempt.1 (
        wrap_file_descriptor-Balanced os q.width (q.stride / 4) q.height b8g8r8a8 q.fd q.offset w'
          sized)

  from_socket-GivesBack :
      (peer : Peer) (a : ℕ) (s : Server) (w : World)
      → ((h : ℕ) → peer.received ≡ some h → is_import_format (os.ahb_describe h).format ≡ true)
      → GivesBack os s w.res (from_socket peer a (record w { res = take_block a w.res }))
  from_socket-GivesBack peer a s w f =
      if_property (GivesBack os s w.res) (not peer.is_socket || not peer.written)
        (free_block-take_block a w.res) (from_received-GivesBack a s w peer.received f)

  by_modifier-GivesBack :
      (m : Modifier) (q : Import) (peer : Peer) (a : ℕ) (s : Server) (w : World)
      → IsProper q peer
      → GivesBack os s w.res (by_modifier m q peer a (record w { res = take_block a w.res }))
  by_modifier-GivesBack raw_mmappable q peer a s w p = from_descriptor-GivesBack q a s w p.0
  by_modifier-GivesBack invalid q peer a s w p = from_descriptor-GivesBack q a s w p.0
  by_modifier-GivesBack linear q peer a s w p = from_descriptor-GivesBack q a s w p.0
  by_modifier-GivesBack socket q peer a s w p = from_socket-GivesBack peer a s w p.1
  by_modifier-GivesBack flipped_socket q peer a s w p = from_socket-GivesBack peer a s w p.1
  by_modifier-GivesBack (unknown_modifier n) q peer a s w p = free_block-take_block a w.res

  import_in-GivesBack :
      (q : Import) (peer : Peer) (s : Server) (w : World) (o : Option ℕ)
      → IsProper q peer
      → GivesBack os s w.res (import_in q peer w o)
  import_in-GivesBack q peer s w none p = refl
  import_in-GivesBack q peer s w (some a) p = by_modifier-GivesBack q.modifier q peer a s w p

  -- An import of a pixmap that has a size, from a client that sends no hardware buffer but of a format
  -- that is taken, takes nothing where it fails, wherever that is, and where it succeeds destroying
  -- the pixmap gives back what was taken.
  pub pixmap_from_fds-GivesBack :
      (q : Import) (peer : Peer) (s : Server) (w : World)
      → IsProper q peer
      → GivesBack os s w.res (pixmap_from_fds q peer w)
  unfolding pixmap_from_fds
  pixmap_from_fds-GivesBack q peer s w p =
      if_property (GivesBack os s w.res) (ltb 1 q.num_fds || not (is_known q.modifier)) refl
        (import_in-GivesBack q peer s w (os.calloc w.res 1) p)

  -- A hardware buffer of another format is received and kept: the import fails, and the reference to
  -- the buffer is not given back.
  pub pixmap_from_fds_keeps :
      (q : Import) (peer : Peer) (w : World) (a h : ℕ)
      → q.num_fds ≡ 1
      → q.modifier ≡ socket
      → (peer.is_socket && peer.written) ≡ true
      → peer.received ≡ some h
      → is_import_format (os.ahb_describe h).format ≡ false
      → os.calloc w.res 1 ≡ some a
      → pixmap_from_fds q peer w ≡ (none, record w { res = take_ahb h w.res })
  unfolding pixmap_from_fds
  pixmap_from_fds_keeps q peer w a h one m io e f c =
      rw (one, m, c, (open_peer peer.is_socket peer.written io), e, f)
        (ap (λ (t : Res). (none, record w { res = record t { ahbs = h ∷ t.ahbs } }))
          (free_block-take_block a w.res))
