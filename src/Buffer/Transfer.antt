-- ===== src/Buffer/Transfer.antt =====
-- `LorieBuffer_sendHandleToUnixSocket` and `LorieBuffer_recvHandleFromUnixSocket` of buffer.c, on a
-- socket that is open and whose reads and writes are whole.
use termux_x11_virtualkeys.Base.{
  ℕ, ◌*◌, ◌≡◌, refl, ap, sym, subst, Bool, false, Option, none, some, if◌then◌else◌,
}
use termux_x11_virtualkeys.Buffer.Os.{
  Os, Res, open_fd, close_fd, map_at, take_block, take_ahb, remove-cons,
}
use termux_x11_virtualkeys.Buffer.Alloc.{
  LorieBuffer, BufferType, unknown, regular, fd_backed, hardware, close_option, release_option,
}

-- What goes over the socket: the bytes of the structure, and the handle behind them.
pub record Sent : Type 0 where
  pub bytes : LorieBuffer
  pub fd : Option ℕ
  pub hardware_buffer : Option ℕ

unfoldable pub send : LorieBuffer → Sent
send b = elim b.desc.type [
  | fd_backed ↦ record { bytes = b; fd = b.fd; hardware_buffer = none }
  | hardware ↦ record { bytes = b; fd = none; hardware_buffer = b.desc.buffer }
  | regular ↦ record { bytes = b; fd = none; hardware_buffer = none }
  | unknown ↦ record { bytes = b; fd = none; hardware_buffer = none }
]

-- The result, where there is one, has that count and identifier.
abbrev pub Like : ℕ → ℕ → Option LorieBuffer × Res → Type 0
Like count id (none, r) = Unit
Like count id (some b, r) = (b.refcount ≡ count) × (b.desc.id ≡ id)

module _ (os : Os) where
  -- The last part: the block of the buffer, which is there to have where the caller wants a buffer.
  unfoldable pub receive_block : Bool → LorieBuffer → Res → Option LorieBuffer × Res
  receive_block wanted b r = elim (if wanted then os.calloc r 1 else none) [
    | some a ↦ (some (record b { address = a }), take_block a r)
    | none ↦ (none, release_option (b.desc.buffer) (close_option b.fd r))
  ]

  -- The bytes read overwrite what was set in the structure, its count included; the image alone is
  -- reset. `fd` and `h` are the handles that this process gets.
  unfoldable pub receive : Bool → LorieBuffer → (fd h : Option ℕ) → Res → Option LorieBuffer × Res
  receive wanted bytes fd h r =
      let b : LorieBuffer = record bytes { image = none } in
      elim b.desc.type [
        | fd_backed ↦ elim fd [
          | none ↦ (none, r)
          | some fd' ↦
              let r' = open_fd fd' r in
              elim (os.mmap r' fd' (b.desc.stride * b.desc.height * 4) 0) [
                | none ↦ (none, close_fd fd' r')
                | some a ↦
                    receive_block wanted
                      (record b { desc = record (b.desc) { pixels = some a }; fd = some fd' })
                      (map_at a r')
              ]
        ]
        | hardware ↦ elim h [
          | none ↦ receive_block wanted b r
          | some h' ↦
              receive_block wanted (record b { desc = record (b.desc) { buffer = some h' } })
                (take_ahb h' r)
        ]
        | regular ↦ receive_block wanted b r
        | unknown ↦ receive_block wanted b r
      ]

  receive_block-Like :
      (wanted : Bool) (b : LorieBuffer) (r : Res)
      → Like b.refcount b.desc.id (receive_block wanted b r)
  unfolding receive_block
  receive_block-Like wanted b r = go (if wanted then os.calloc r 1 else none) refl
    where
      go :
          (o : Option ℕ)
          → (if wanted then os.calloc r 1 else none) ≡ o
          → Like b.refcount b.desc.id (receive_block wanted b r)
      go none e = rw (e, receive_block) tt
      go (some a) e = rw (e, receive_block) (refl, refl)

  receive-Like :
      (wanted : Bool) (b : LorieBuffer) (t : BufferType) (fd h : Option ℕ) (r : Res)
      → b.desc.type ≡ t
      → Like b.refcount b.desc.id (receive wanted b fd h r)
  unfolding receive
  receive-Like wanted b regular fd h r e = rw (e, receive) (receive_block-Like wanted _ r)
  receive-Like wanted b unknown fd h r e = rw (e, receive) (receive_block-Like wanted _ r)
  receive-Like wanted b hardware fd none r e = rw (e, receive) (receive_block-Like wanted _ r)
  receive-Like wanted b hardware fd (some h) r e = rw (e, receive) (receive_block-Like wanted _ _)
  receive-Like wanted b fd_backed none h r e = rw (e, receive) tt
  receive-Like wanted b fd_backed (some fd) h r e =
      go (os.mmap (open_fd fd r) fd (b.desc.stride * b.desc.height * 4) 0) refl
    where
      go :
          (o : Option ℕ)
          → os.mmap (open_fd fd r) fd (b.desc.stride * b.desc.height * 4) 0 ≡ o
          → Like b.refcount b.desc.id (receive wanted b (some fd) h r)
      go none f = rw (e, f, receive) tt
      go (some a) f = rw (e, f, receive) (receive_block-Like wanted _ _)

bytes_of : (b : LorieBuffer) (t : BufferType) → b.desc.type ≡ t → (send b).bytes ≡ b
unfolding send
bytes_of b regular e = rw e refl
bytes_of b unknown e = rw e refl
bytes_of b hardware e = rw e refl
bytes_of b fd_backed e = rw e refl

-- The buffer that is received, where there is one, has the identifier of the buffer that was sent,
-- and also the reference count that it had in the sender's memory, whatever handles arrive.
pub receive-send :
    (os : Os) (wanted : Bool) (b : LorieBuffer) (fd h : Option ℕ) (r : Res)
    → Like b.refcount b.desc.id (receive os wanted ((send b).bytes) fd h r)
receive-send os wanted b fd h r =
    subst (λ q. Like b.refcount b.desc.id (receive os wanted q fd h r))
      (sym (bytes_of b (b.desc.type) refl)) (receive-Like os wanted b (b.desc.type) fd h r refl)

-- A buffer on a descriptor that arrives where no buffer is wanted, with no hardware buffer in its
-- bytes: the descriptor is closed again, the mapping is not taken down.
pub receive_unwanted_mapping :
    (os : Os) (b : LorieBuffer) (fd a : ℕ) (h : Option ℕ) (r : Res)
    → b.desc.type ≡ fd_backed
    → b.desc.buffer ≡ none
    → os.mmap (open_fd fd r) fd (b.desc.stride * b.desc.height * 4) 0 ≡ some a
    → receive os false b (some fd) h r ≡ (none, map_at a r)
unfolding receive receive_block
receive_unwanted_mapping os b fd a h r t n m =
    rw (t, m, receive, receive_block, n)
      (ap (λ q. (none, map_at a (record r { fds = q }))) (remove-cons fd r.fds))
