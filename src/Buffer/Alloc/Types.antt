-- ===== src/Buffer/Alloc/Types.antt =====
-- The structures of buffer.h and buffer.c, and the arguments of `allocate`.
use termux_x11_virtualkeys.Base.{ℕ, ◌==◌, ltb, ◌&&◌, ◌||◌, Bool, true, false, Option, none, some}
use termux_x11_virtualkeys.Buffer.Os.{Res, close_fd, unmap, free_block, release_ahb}

-- Any other number of the enumeration is `unknown`.
pub data BufferType : Type 0 where
  unknown regular fd_backed hardware : BufferType

abbrev pub format_bgra : ℕ
format_bgra = 5

-- AHARDWAREBUFFER_FORMAT_R8G8B8X8_UNORM
abbrev pub format_rgbx : ℕ
format_rgbx = 2

-- `LorieBuffer_Desc`. `data` is the address of the pixels.
pub record Desc : Type 0 where
  pub width : ℕ
  pub height : ℕ
  pub stride : ℕ
  pub format : ℕ
  pub type : BufferType
  pub id : ℕ
  pub buffer : Option ℕ
  pub pixels : Option ℕ

-- `struct LorieBuffer`, with the address of its block; the 16-bit `refcount` and the two bytes of
-- padding behind it. The link is that of the list that holds the buffer.
pub record LorieBuffer : Type 0 where
  pub address : ℕ
  pub refcount : ℕ
  pub padding : ℕ
  pub desc : Desc
  pub locked : Bool
  pub locked_data : Option ℕ
  pub fd : Option ℕ
  pub size : ℕ
  pub offset : ℕ
  pub texture : Option ℕ
  pub image : Option ℕ

-- The arguments of `allocate`.
pub record Args : Type 0 where
  pub width : ℕ
  pub stride : ℕ
  pub height : ℕ
  pub format : ℕ
  pub type : BufferType
  pub buf : Option ℕ
  pub fd : Option ℕ
  pub size : ℕ
  pub offset : ℕ
  pub take_fd : Bool

-- A format that pixels can be read in.
abbrev pub is_pixel_format : ℕ → Bool
is_pixel_format f = f == format_bgra || f == format_rgbx

abbrev pub acceptable : Args → Bool
acceptable a = is_pixel_format a.format && (ltb 0 a.width && ltb 0 a.height)

abbrev pub is_hardware : BufferType → Bool
is_hardware hardware = true
is_hardware unknown = false
is_hardware regular = false
is_hardware fd_backed = false

-- `static uint64_t id` and the resources.
pub record World : Type 0 where
  pub next_id : ℕ
  pub res : Res

-- The buffer on the stack, before its pixels are there.
abbrev pub draft : Args → ℕ → Option ℕ → LorieBuffer
draft a id fd = record {
  address = 0;
  refcount = 0;
  padding = 0;
  desc = record {
    width = a.width;
    height = a.height;
    stride = a.stride;
    format = a.format;
    type = a.type;
    id = id;
    buffer = a.buf;
    pixels = none;
  };
  locked = false;
  locked_data = none;
  fd = fd;
  size = a.size;
  offset = a.offset;
  texture = none;
  image = none;
}

abbrev pub close_option : Option ℕ → Res → Res
close_option none r = r
close_option (some fd) r = close_fd fd r

abbrev pub unmap_option : Option ℕ → Res → Res
unmap_option none r = r
unmap_option (some a) r = unmap a r

abbrev pub free_option : Option ℕ → Res → Res
free_option none r = r
free_option (some a) r = free_block a r

abbrev pub release_option : Option ℕ → Res → Res
release_option none r = r
release_option (some a) r = release_ahb a r
