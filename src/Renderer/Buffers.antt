-- ===== src/Renderer/Buffers.antt =====
-- The lists of buffers of renderer.c. A release gives back the last reference, so that the buffer leaves
-- the list it is in; the calls that are made on buffers are kept.
use termux_x11_virtualkeys.Base.{
  ℕ, zero, suc, ◌+◌, ◌==◌, Bool, true, false, Option, none, some, List, [], ◌∷◌, ◌++◌,
  if◌then◌else◌,
}
pub mod Held

-- A `LorieBuffer`, as far as the renderer looks at it.
pub record Texture : Type 0 where
  pub id : ℕ
  pub width : ℕ
  pub height : ℕ

-- `addedBuffers`, `buffers` and `removedBuffers`; the buffers that were attached to GL, and those that
-- were released by the main thread and by the thread of the renderer.
pub record Queues : Type 0 where
  pub added : List Texture
  pub buffers : List Texture
  pub removed : List Texture
  pub attached : List Texture
  pub released : List Texture
  pub released_in_gl : List Texture

-- `LorieBufferList_findById`.
unfoldable pub find_by_id : ℕ → List Texture → Option Texture
find_by_id id [] = none
find_by_id id (t ∷ ts) = let rest = find_by_id id ts in if t.id == id then some t else rest

-- The list without the buffer that is found.
unfoldable pub take_by_id : ℕ → List Texture → List Texture
take_by_id id [] = []
take_by_id id (t ∷ ts) = let rest = take_by_id id ts in if t.id == id then ts else t ∷ rest

-- The loops that take the first buffer, and add it to the front of another list.
unfoldable pub move_all : (from to : List Texture) → List Texture
move_all [] to = to
move_all (t ∷ ts) to = move_all ts (t ∷ to)

-- `rendererAddBuffer`.
unfoldable pub add_buffer : Texture → Queues → Queues
add_buffer t q = record q { added = t ∷ q.added }

-- `rendererRemoveBuffer`.
unfoldable pub remove_attached : ℕ → Queues → Queues
unfolding find_by_id take_by_id
remove_attached id q = elim (find_by_id id q.buffers) [
  | none ↦ q
  | some t ↦ record q { buffers = take_by_id id q.buffers; removed = t ∷ q.removed }
]

unfoldable pub remove_buffer : ℕ → Queues → Queues
unfolding remove_attached
remove_buffer id q = elim (find_by_id id q.added) [
  | some t ↦ record q { added = take_by_id id q.added; released = t ∷ q.released }
  | none ↦ remove_attached id q
]

-- `rendererRemoveAllBuffers`.
unfoldable pub remove_all_buffers : Queues → Queues
unfolding move_all
remove_all_buffers q = record q {
  added = [];
  released = move_all q.added q.released;
  buffers = [];
  removed = move_all q.buffers q.removed;
}

-- The loop of `rendererThread` over the added buffers, and that over the removed ones.
unfoldable pub attach_all : Queues → Queues
unfolding move_all
attach_all q = record q {
  added = [];
  attached = move_all q.added q.attached;
  buffers = move_all q.added q.buffers;
}

unfoldable pub release_removed : Queues → Queues
unfolding move_all
release_removed q = record q { removed = []; released_in_gl = move_all q.removed q.released_in_gl }
