-- ===== src/Buffer/Os.antt =====
-- What buffer.c holds of the operating system, and the calls by which it gets and gives it back.
-- Each kind of resource is the list of the handles in use, the newest first. A handle is given back
-- by removing it once.
use termux_x11_virtualkeys.Base.{ℕ, ◌==◌, Bool, Option, List, [], ◌∷◌, if◌then◌else◌, ◌≡◌, arith}

-- `remove h` takes one `h` out.
unfoldable pub remove : ℕ → List ℕ → List ℕ
remove h [] = []
remove h (x ∷ xs) = let rest = remove h xs in if x == h then xs else x ∷ rest

pub remove-cons : (h : ℕ) (xs : List ℕ) → remove h (h ∷ xs) ≡ xs
unfolding remove
remove-cons h xs = ground arith

-- The newest handle can be given back behind any other.
pub remove-remove_cons : (h x : ℕ) (xs : List ℕ) → remove h (remove x (h ∷ xs)) ≡ remove x xs
unfolding remove
remove-remove_cons h x xs = ground arith

-- Descriptors, mappings, heap blocks, references to `AHardwareBuffer`s, GL textures and EGL images.
pub record Res : Type 0 where
  pub fds : List ℕ
  pub maps : List ℕ
  pub blocks : List ℕ
  pub ahbs : List ℕ
  pub textures : List ℕ
  pub images : List ℕ

pub record Dims : Type 0 where
  pub width : ℕ
  pub height : ℕ
  pub stride : ℕ
  pub format : ℕ

-- The answers of the system. `none` is a negative descriptor, `NULL`, `MAP_FAILED` or an error.
-- `AHardwareBuffer_lock` gives its result and the address that it stores.
pub record Os : Type 0 where
  pub page_size : ℕ
  pub dup : Res → ℕ → Option ℕ
  pub shared_memory_create : Res → ℕ → Option ℕ
  pub memfd_create : Res → Option ℕ
  pub open_ashmem : Res → Option ℕ
  pub ashmem_set_name : Res → ℕ → Bool
  pub ashmem_set_size : Res → ℕ → ℕ → Bool
  pub mmap : Res → (fd size offset : ℕ) → Option ℕ
  pub calloc : Res → ℕ → Option ℕ
  pub ahb_allocate : Res → Dims → Option ℕ
  pub ahb_describe : ℕ → Dims
  pub ahb_lock : Option ℕ → ℕ × Option ℕ
  pub ahb_unlock : Option ℕ → ℕ
  pub current_context : Bool
  pub current_display : Bool
  pub gen_texture : Res → ℕ
  pub create_image : Res → ℕ → Option ℕ

abbrev pub open_fd : ℕ → Res → Res
open_fd fd r = record r { fds = fd ∷ r.fds }

abbrev pub close_fd : ℕ → Res → Res
close_fd fd r = record r { fds = remove fd r.fds }

abbrev pub map_at : ℕ → Res → Res
map_at a r = record r { maps = a ∷ r.maps }

abbrev pub unmap : ℕ → Res → Res
unmap a r = record r { maps = remove a r.maps }

abbrev pub take_block : ℕ → Res → Res
take_block a r = record r { blocks = a ∷ r.blocks }

abbrev pub free_block : ℕ → Res → Res
free_block a r = record r { blocks = remove a r.blocks }

abbrev pub take_ahb : ℕ → Res → Res
take_ahb a r = record r { ahbs = a ∷ r.ahbs }

abbrev pub release_ahb : ℕ → Res → Res
release_ahb a r = record r { ahbs = remove a r.ahbs }
