-- ===== src/Buffer/Examples.antt =====
-- Tests of buffer.c and the theorems at concrete inputs.
use termux_x11_virtualkeys.Base.{◌+◌, ◌≡◌, refl, true, false, none, some, [], ◌∷◌, arith}
use termux_x11_virtualkeys.Buffer.Os.{Os}
use termux_x11_virtualkeys.Buffer.Region.{NonZero, create_region, align_to_page}
use termux_x11_virtualkeys.Buffer.Alloc.{
  LorieBuffer, World, BufferType, regular, fd_backed, hardware, buffer_allocate, in_region,
  allocate, allocate_backing, allocate_fd, duplicate, publish, free,
}
use termux_x11_virtualkeys.Buffer.Leaks.{Balanced, resources, buffer_allocate-Balanced}
use termux_x11_virtualkeys.Buffer.Refcount.{
  acquires, releases, history, held, history-buffer_allocate,
}
use termux_x11_virtualkeys.Buffer.Convert.{
  convert, convert_from, convert_to_fd, freed, convert-freed,
}
use termux_x11_virtualkeys.Buffer.Transfer.{send, receive, Like, receive-send}

-- A system where every request is met and a hardware buffer cannot be locked.
abbrev phone : Os
phone = record {
  page_size = 4096;
  dup = λ r fd. some (fd + 1);
  shared_memory_create = λ r size. some 7;
  memfd_create = λ r. some 8;
  open_ashmem = λ r. some 9;
  ashmem_set_name = λ r fd. true;
  ashmem_set_size = λ r fd size. true;
  mmap = λ r fd size offset. some 4096;
  calloc = λ r n. some 64;
  ahb_allocate = λ r d. some 3;
  ahb_describe = λ h. record { width = 64; height = 32; stride = 64; format = 5 };
  ahb_lock = λ h. (22, none);
  ahb_unlock = λ h. 38;
  current_context = true;
  current_display = true;
  gen_texture = λ r. 1;
  create_image = λ r h. some 2;
}

abbrev start : World
start = record {
  next_id = 0;
  res = record {
    fds = 0 ∷ 1 ∷ 2 ∷ [];
    maps = [];
    blocks = [];
    ahbs = [];
    textures = [];
    images = [];
  };
}

phone-NonZero : NonZero phone
phone-NonZero r size e = ground (arith, e)

-- A buffer of each kind of backing.
abbrev a_buffer : BufferType → LorieBuffer
a_buffer type = record {
  address = 64;
  refcount = 1;
  padding = 0;
  desc = record {
    width = 64;
    height = 32;
    stride = 64;
    format = 5;
    type = type;
    id = 0;
    buffer = none;
    pixels = some 4096;
  };
  locked = false;
  locked_data = none;
  fd = some 7;
  size = 8192;
  offset = 0;
  texture = none;
  image = none;
}

-- The world after the allocation.
abbrev allocated : World
allocated = record {
  next_id = 1;
  res = record {
    fds = 7 ∷ 0 ∷ 1 ∷ 2 ∷ [];
    maps = 4096 ∷ [];
    blocks = 64 ∷ [];
    ahbs = [];
    textures = [];
    images = [];
  };
}

history-buffer_allocate_example :
    history phone (acquires ∷ releases ∷ releases ∷ []) (a_buffer fd_backed) (allocated.res)
    ≡ some (none, start.res)
unfolding held buffer_allocate in_region allocate allocate_backing allocate_fd duplicate publish
    create_region align_to_page
history-buffer_allocate_example =
    history-buffer_allocate phone 64 32 5 fd_backed start allocated (a_buffer fd_backed)
      (acquires ∷ releases ∷ releases ∷ []) (λ e. refl) phone-NonZero refl refl (omega arith)

buffer_allocate-Balanced_example :
    Balanced phone start.res (resources (buffer_allocate phone 64 32 5 hardware start))
buffer_allocate-Balanced_example =
    buffer_allocate-Balanced phone 64 32 5 hardware start (λ e. refl) phone-NonZero

convert-freed_example :
    freed phone (convert phone (a_buffer regular) fd_backed 2 start.res)
    ≡ free phone (a_buffer regular) start.res
convert-freed_example = convert-freed phone (a_buffer regular) fd_backed 2 start.res phone-NonZero

-- The conversion of the witness is done.
converted : (convert phone (a_buffer regular) fd_backed 2 start.res).0.desc.type ≡ fd_backed
unfolding convert convert_from convert_to_fd create_region align_to_page
converted = refl

receive-send_example : Like 3 0 (
    receive phone true
      ((send (record (a_buffer fd_backed) { refcount = 3 })).bytes)
      (some 11)
      none
      start.res)
receive-send_example =
    receive-send phone true (record (a_buffer fd_backed) { refcount = 3 }) (some 11) none start.res
