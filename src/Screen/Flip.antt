-- ===== src/Screen/Flip.antt =====
-- `loriePresentFlip` of InitOutput.c: whether the activity may show a pixmap in place of the screen's.
use termux_x11_virtualkeys.Base.{
  if_property, ℕ, ◌==◌, not, ◌&&◌, ◌||◌, Bool, true, false, Option, none, some, if◌then◌else◌, ◌≡◌,
  ◌≢◌, refl, Bool-cases, inl, inr, arith,
}
use termux_x11_virtualkeys.Buffer.Os.{Os, Res}
use termux_x11_virtualkeys.Buffer.Alloc.{
  LorieBuffer, BufferType, unknown, regular, fd_backed, hardware,
}
use termux_x11_virtualkeys.Buffer.Convert.{convert}
use termux_x11_virtualkeys.Buffer.Lock.{lock}
use termux_x11_virtualkeys.Registry.{Server, register_buffer}
use termux_x11_virtualkeys.Screen.Pixmap.{Pixmap, lock_pixmap, is_none}
use termux_x11_virtualkeys.Screen.Pixmap.Life.{r8g8b8x8, type_for}

-- The size of the root window and of the pixmap, `legacyDrawing`, whether the pixmap was made of a
-- descriptor of a client, and whether TERMUX_X11_FORCE_FLIP is 1.
pub record FlipRequest : Type 0 where
  pub root_width : ℕ
  pub root_height : ℕ
  pub legacy_drawing : Bool
  pub width : ℕ
  pub height : ℕ
  pub imported : Bool
  pub force_flip : Bool

-- The answer, and what there is then.
pub record Flip : Type 0 where
  pub flips : Bool
  pub pixmap : Pixmap
  pub res : Res
  pub server : Server

abbrev pub is_regular : BufferType → Bool
is_regular regular = true
is_regular unknown = false
is_regular fd_backed = false
is_regular hardware = false

abbrev pub is_fd : BufferType → Bool
is_fd fd_backed = true
is_fd unknown = false
is_fd regular = false
is_fd hardware = false

abbrev pub can_be_shared : BufferType → Bool
can_be_shared fd_backed = true
can_be_shared hardware = true
can_be_shared unknown = false
can_be_shared regular = false

abbrev pub refused : Pixmap → Res → Server → Flip
refused p r s = record { flips = false; pixmap = p; res = r; server = s }

-- The size of the pixmap is compared with the width of the root window twice.
abbrev pub same_size : FlipRequest → Bool
same_size q = q.root_width == q.width && q.root_width == q.height

-- The pixmap after the conversion of a regular buffer, if it was done.
unfoldable pub shareable_pixmap :
    Os → (legacy_drawing : Bool) → Pixmap → LorieBuffer → Res → Pixmap × Res
shareable_pixmap os legacy_drawing p b r =
    let (c, r') = convert os b (type_for true legacy_drawing) r8g8b8x8 r in
    if not (is_regular b.desc.type)
    then (p, r)
    else if is_regular c.desc.type
    then (record p { buffer = some c }, r')
    else (lock_pixmap (lock os (some c)) p, r')

-- The last test, and the registration.
abbrev pub offer : Option LorieBuffer → Pixmap × Res → Server → Flip
offer none (p, r) s = refused p r s
offer (some b) (p, r) s =
    if can_be_shared b.desc.type
    then (record { flips = true; pixmap = p; res = r; server = register_buffer (some b) s })
    else refused p r s

-- The pixmap has a buffer.
abbrev pub flip_buffer : Os → FlipRequest → Pixmap → Option LorieBuffer → Res → Server → Flip
flip_buffer os q p none r s = refused p r s
flip_buffer os q p (some b) r s =
    let next = shareable_pixmap os q.legacy_drawing p b r in
    if not (is_none p.mem) || not (same_size q)
    then refused p r s
    else if is_fd b.desc.type && (q.imported && not q.force_flip)
    then refused p r s
    else offer next.0.buffer next s

-- `loriePresentFlip`, for a pixmap that has its private data.
unfoldable pub present_flip : Os → FlipRequest → Pixmap → Res → Server → Flip
present_flip os q p r s = flip_buffer os q p p.buffer r s

-- A flip that is accepted is one of a pixmap as wide and as high as the root window is wide; its buffer
-- is of a type that can be shared, and was registered.
abbrev pub Accepted : FlipRequest → Server → Flip → Type 0
Accepted q s f =
    (q.width ≡ q.root_width)
    × (q.height ≡ q.root_width)
    × ((b : LorieBuffer) × (f.pixmap.buffer ≡ some b)
        × (can_be_shared b.desc.type ≡ true)
        × (f.server ≡ register_buffer (some b) s))

abbrev WhenFlips : FlipRequest → Server → Flip → Type 0
WhenFlips q s f = f.flips ≡ true → Accepted q s f

refused-Accepted :
    (q : FlipRequest) (p : Pixmap) (r : Res) (s : Server) → WhenFlips q s (refused p r s)
refused-Accepted q p r s e = ground (arith, e)

offer-Accepted :
    (q : FlipRequest) (o : Option LorieBuffer) (p : Pixmap) (r : Res) (s : Server)
    → p.buffer ≡ o
    → same_size q ≡ true
    → WhenFlips q s (offer o (p, r) s)
offer-Accepted q none p r s e z = refused-Accepted q p r s
offer-Accepted q (some b) p r s e z = elim (Bool-cases (can_be_shared b.desc.type)) [
  | inl y ↦ rw y (λ t. (ground (arith, z), ground (arith, z), (b, e, y, refl)))
  | inr y ↦ rw y (refused-Accepted q p r s)
]

both : (a b : Bool) → (not a || not b) ≡ false → b ≡ true
both a true e = refl
both true false e = ground (arith, e)
both false false e = ground (arith, e)

either : (a b : Bool) → b ≡ false → (not a || not b) ≡ true
either a true e = ground (arith, e)
either true false e = refl
either false false e = refl

different : (a b c d : ℕ) → a ≢ b → c ≡ a → d ≡ b → (a == c && a == d) ≡ false
different a b c d n w h = ground (arith, n, w, h)

-- A flip is accepted only of a pixmap as wide and as high as the root window is wide; its buffer is
-- then of a type that can be shared, and was registered.
pub present_flip-Accepted :
    (os : Os) (q : FlipRequest) (p : Pixmap) (r : Res) (s : Server)
    → (present_flip os q p r s).flips ≡ true
    → Accepted q s (present_flip os q p r s)
unfolding present_flip
present_flip-Accepted os q p r s = go p.buffer
  where
    go : (o : Option LorieBuffer) → WhenFlips q s (flip_buffer os q p o r s)
    go none = refused-Accepted q p r s
    go (some b) = elim (Bool-cases (not (is_none p.mem) || not (same_size q))) [
      | inl y ↦ rw y (refused-Accepted q p r s)
      | inr y ↦ rw y (
          if_property (WhenFlips q s) (is_fd b.desc.type && (q.imported && not q.force_flip))
            (refused-Accepted q p r s)
            (offer-Accepted q _ _ _ s refl (both (is_none p.mem) (same_size q) y)))
    ]

-- On a root window that is not square no pixmap of its size is flipped, and nothing changes: the height
-- of the pixmap is compared with the width of the root window.
pub present_flip_not_square :
    (os : Os) (q : FlipRequest) (p : Pixmap) (r : Res) (s : Server)
    → q.root_width ≢ q.root_height
    → q.width ≡ q.root_width
    → q.height ≡ q.root_height
    → present_flip os q p r s ≡ refused p r s
unfolding present_flip
present_flip_not_square os q p r s n w h = go p.buffer
  where
    go : (o : Option LorieBuffer) → flip_buffer os q p o r s ≡ refused p r s
    go none = refl
    go (some b) =
        rw
          (either (is_none p.mem) (same_size q)
            (different q.root_width q.root_height q.width q.height n w h))
          refl
