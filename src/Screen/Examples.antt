-- ===== src/Screen/Examples.antt =====
-- The screen driver at concrete inputs.
use termux_x11_virtualkeys.Base.{
  ℕ, ◌+◌, ◌*◌, ◌<◌, ◌≡◌, ◌==◌, refl, true, false, none, some, List, [], ◌∷◌, if◌then◌else◌, arith,
}
use termux_x11_virtualkeys.Buffer.Os.{Os}
use termux_x11_virtualkeys.Buffer.Alloc.{World, fd_backed}
use termux_x11_virtualkeys.Buffer.Lock.{lock_pixels, lock}
use termux_x11_virtualkeys.Buffer.Os.{Res}
use termux_x11_virtualkeys.Buffer.Region.{NonZero}
use termux_x11_virtualkeys.Registry.{Server}
use termux_x11_virtualkeys.Screen.Pixmap.Life.{create_pixmap, GivesBack, create_pixmap-GivesBack}
use termux_x11_virtualkeys.Screen.Import.{
  Peer, Import, socket, pixmap_from_fds, pixmap_from_fds-GivesBack,
}
use termux_x11_virtualkeys.Screen.Flip.{
  FlipRequest, shareable_pixmap, present_flip, Accepted, present_flip-Accepted,
}
use termux_x11_virtualkeys.Screen.Pixmap.{Pixmap, Access, prepare_access, finish_access}
use termux_x11_virtualkeys.Screen.Pixmap.Granted.{IsHeld, GivenBack, finish_access-prepare_access}
use termux_x11_virtualkeys.Screen.Cursor.{
  Color, Cursor, SharedCursor, mono_pixel, convert_cursor, set_cursor,
}
use termux_x11_virtualkeys.Screen.Cursor.Sizes.{capacity, set_cursor_oversized}
use termux_x11_virtualkeys.Screen.Vblank.{Present, Screen, redraw}
use termux_x11_virtualkeys.Screen.Vblank.Order.{
  told, due, waiting, frames, frames-told, Call, queues, aborts, next_frame, flips, history,
  history-conserved,
}
use termux_x11_virtualkeys.Screen.Vblank.Drawing.{Answers, redraw-Answers}

abbrev padded : ℕ → ℕ
padded width = 4

abbrev black : Color
black = record { red = 0; green = 0; blue = 0 }

abbrev white : Color
white = record { red = 0xffff; green = 0xffff; blue = 0xffff }

-- Two by two pixels: the left ones in the foreground, the lower right one transparent.
abbrev arrow : Cursor
arrow = record {
  width = 2;
  height = 2;
  xhot = 0;
  yhot = 0;
  argb = none;
  source = λ i. 1;
  mask = λ i. if i == 0 then 3 else 1;
  fore = white;
  back = black;
}

-- A cursor of 600 by 600 pixels.
abbrev banner : Cursor
banner = record arrow { width = 600; height = 600 }

abbrev no_cursor : SharedCursor
no_cursor = record {
  x = 0;
  y = 0;
  xhot = 0;
  yhot = 0;
  width = 0;
  height = 0;
  bits = [];
  updated = false;
  moved = false;
}

convert_arrow : convert_cursor padded arrow ≡ 0xffffffff ∷ 0xff000000 ∷ 0xffffffff ∷ 0 ∷ []
unfolding convert_cursor mono_pixel
convert_arrow = refl

set_cursor_oversized_example :
    (capacity
      < (set_cursor padded (some arrow) (some banner) 7 8 no_cursor).width
        * (set_cursor padded (some arrow) (some banner) 7 8 no_cursor).height)
    × ((set_cursor padded (some arrow) (some banner) 7 8 no_cursor).bits
        ≡ convert_cursor padded arrow)
set_cursor_oversized_example =
    set_cursor_oversized padded arrow banner 7 8 no_cursor (omega arith) (omega arith)

-- Two vblanks wait, one of them for the next frame.
abbrev two_waiting : Present
two_waiting = record {
  queue = (record { id = 1; msc = 12 }) ∷ (record { id = 2; msc = 11 }) ∷ [];
  current_msc = 10;
}

frames-told_example : told 1 (frames 2 two_waiting).0 ≡ due 1 12 two_waiting.queue
frames-told_example = frames-told 1 1 two_waiting (omega arith)

abbrev calls : List Call
calls = queues true 1 15 ∷ next_frame ∷ aborts 1 ∷ flips 9 11 ∷ next_frame ∷ []

history-conserved_example :
    (history 1 calls two_waiting).told_times
      + (history 1 calls two_waiting).aborted
      + waiting 1 (history 1 calls two_waiting).final.queue
    ≡ waiting 1 two_waiting.queue + (history 1 calls two_waiting).queued
history-conserved_example = history-conserved 1 calls two_waiting

abbrev damaged_screen : Screen
damaged_screen = record {
  present = two_waiting;
  shared = record {
    wait_for_next_frame = true;
    surface_available = true;
    draw_requested = false;
    cursor_moved = false;
    cursor_updated = false;
    root_window_texture_id = 3;
  };
  damaged = true;
  root = some (record { buffer = some 5; locked = true });
}

redraw-Answers_example : Answers true 0 damaged_screen (redraw true 0 damaged_screen)
redraw-Answers_example = redraw-Answers true 0 damaged_screen

-- A system where every request is met.
abbrev tablet : Os
tablet = record {
  page_size = 4096;
  dup = λ r fd. some (fd + 1);
  shared_memory_create = λ r size. some 7;
  memfd_create = λ r. some 8;
  open_ashmem = λ r. some 9;
  ashmem_set_name = λ r fd. true;
  ashmem_set_size = λ r fd size. true;
  mmap = λ r fd size offset. some 4096;
  calloc = λ r n. some 64;
  ahb_allocate = λ r d. some 3;
  ahb_describe = λ h. record { width = 64; height = 32; stride = 64; format = 5 };
  ahb_lock = λ h. (0, some 8192);
  ahb_unlock = λ h. 38;
  current_context = true;
  current_display = true;
  gen_texture = λ r. 1;
  create_image = λ r h. some 2;
}

-- A pixmap with a buffer of 2 by 2 pixels at 4096.
abbrev small_pixmap : Pixmap
small_pixmap = record {
  buffer = some (record {
    address = 64;
    refcount = 1;
    padding = 0;
    desc = record {
      width = 2;
      height = 2;
      stride = 2;
      format = 5;
      type = fd_backed;
      id = 7;
      buffer = none;
      pixels = some 4096;
    };
    locked = false;
    locked_data = none;
    fd = some 7;
    size = 4096;
    offset = 0;
    texture = none;
    image = none;
  });
  locked = none;
  was_locked = false;
  mem = none;
}

abbrev before_access : Access
before_access = record { pixmap = small_pixmap; state_locked = 1; ptr = none }

finish_access-prepare_access_example :
    IsHeld true before_access (prepare_access tablet true before_access).1
    × GivenBack before_access
        (finish_access tablet true (prepare_access tablet true before_access).1)
unfolding prepare_access lock lock_pixels
finish_access-prepare_access_example =
    finish_access-prepare_access tablet true before_access (refl, refl) refl

tablet-NonZero : NonZero tablet
tablet-NonZero r size e = ground (arith, e)

abbrev quiet_server : Server
quiet_server = record {
  connection = record { conn_fd = some 5; wire = [] };
  clipboard_sync = false;
  registered = [];
}

abbrev nothing_taken : Res
nothing_taken = record { fds = []; maps = []; blocks = []; ahbs = []; textures = []; images = [] }

create_pixmap-GivesBack_example :
    GivesBack tablet quiet_server nothing_taken
      (create_pixmap tablet true true 64 32 (record { next_id = 1; res = nothing_taken }))
create_pixmap-GivesBack_example =
    create_pixmap-GivesBack tablet true true 64 32 quiet_server
      (record { next_id = 1; res = nothing_taken }) tablet-NonZero

-- A pixmap as large as a root window of 64 by 64 pixels.
abbrev square : FlipRequest
square = record {
  root_width = 64;
  root_height = 64;
  legacy_drawing = true;
  width = 64;
  height = 64;
  imported = false;
  force_flip = false;
}

square_flips : (present_flip tablet square small_pixmap nothing_taken quiet_server).flips ≡ true
unfolding present_flip shareable_pixmap
square_flips = refl

present_flip-Accepted_example :
    Accepted square quiet_server
      (present_flip tablet square small_pixmap nothing_taken quiet_server)
present_flip-Accepted_example =
    present_flip-Accepted tablet square small_pixmap nothing_taken quiet_server square_flips

-- A client that sends a hardware buffer of format 5, and one of format 22.
abbrev honest : Peer
honest = record { is_socket = true; written = true; received = some 3 }

abbrev import : Import
import = record {
  num_fds = 1;
  fd = 9;
  width = 64;
  height = 32;
  stride = 256;
  offset = 0;
  modifier = socket;
}

abbrev fresh : World
fresh = record { next_id = 1; res = nothing_taken }

pixmap_from_fds-GivesBack_example :
    GivesBack tablet quiet_server nothing_taken (pixmap_from_fds tablet import honest fresh)
pixmap_from_fds-GivesBack_example =
    pixmap_from_fds-GivesBack tablet import honest quiet_server fresh (refl, (λ h e. refl))

abbrev other_tablet : Os
other_tablet = record tablet {
  ahb_describe = λ h. record { width = 64; height = 32; stride = 64; format = 22 };
}
