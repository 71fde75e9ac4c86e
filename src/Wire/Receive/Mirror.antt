-- ===== src/Wire/Receive/Mirror.antt =====
-- Both ends together: the buffers that the server registered, and those that the activity has.
use termux_x11_virtualkeys.Buffer.Os.{remove}
use termux_x11_virtualkeys.Connection.{Packet}
use termux_x11_virtualkeys.Registry.{Server, Call, id_of, run, told}
use termux_x11_virtualkeys.Registry.Ids.{ids}
use termux_x11_virtualkeys.Registry.Told.{Known, Orderly, run-Known}
use termux_x11_virtualkeys.Renderer.Buffers.{
  Texture, Queues, find_by_id as find_texture, remove_buffer as remove_texture,
  add_buffer as add_texture, take_by_id, remove_attached,
}
use termux_x11_virtualkeys.Renderer.Thread.{set_shared_state}
use termux_x11_virtualkeys.Wire.Receive.Whole.{
  IsWhole, nothing_written, state_written, buffer_written, removal_written, texture_of, letters,
  wire_bytes, wire_bytes-letters, WritesWhole, run-WritesWhole,
}
use termux_x11_virtualkeys.Wire.{Codec, IsCodec}
use termux_x11_virtualkeys.Wire.Delivery.{poll}
use termux_x11_virtualkeys.Wire.Receive.{Activity, Ancillary, activity_reader}
use termux_x11_virtualkeys.Wire.Receive.Letters.{
  Letter, state, buffer, removed, Envelope, Matches, heed, heed_all, poll-heed_all,
}
use termux_x11_virtualkeys.Base.{
  ℕ, ◌==◌, Bool-cases, Option, none, some, List, [], ◌∷◌, ◌++◌, Returns, ◌≡◌, refl, ap, ◌∙◌, inl,
  inr, arith,
}

-- The identifiers of the textures in a list.
unfoldable pub texture_ids : List Texture → List ℕ
texture_ids [] = []
texture_ids (t ∷ ts) = t.id ∷ texture_ids ts

texture_ids-take_by_id :
    (id : ℕ) (ts : List Texture) → texture_ids (take_by_id id ts) ≡ remove id (texture_ids ts)
unfolding texture_ids take_by_id remove
texture_ids-take_by_id id [] = refl
texture_ids-take_by_id id (t ∷ ts) = elim (Bool-cases (t.id == id)) [
  | inl e ↦ rw (e, take_by_id, remove) refl
  | inr e ↦ rw (e, take_by_id, remove) (ap (λ q. t.id ∷ q) (texture_ids-take_by_id id ts))
]

remove_not_found :
    (id : ℕ) (ts : List Texture)
    → find_texture id ts ≡ none
    → texture_ids ts ≡ remove id (texture_ids ts)
unfolding texture_ids find_texture remove
remove_not_found id [] e = refl
remove_not_found id (t ∷ ts) e = ground (arith, e, remove_not_found id ts)

none_attached : (id : ℕ) (ts : List Texture) → ts ≡ [] → find_texture id ts ≡ none
unfolding find_texture
none_attached id ts e = ap (find_texture id) e

remove_texture_ids :
    (id : ℕ) (is : List ℕ) (q : Queues)
    → texture_ids q.added ≡ is
    → q.buffers ≡ []
    → (texture_ids ((remove_texture id q).added) ≡ remove id is)
      × ((remove_texture id q).buffers ≡ [])
unfolding remove_texture remove_attached
remove_texture_ids id is q h k = go (find_texture id q.added) refl
  where
    go :
        (f : Option Texture)
        → find_texture id q.added ≡ f
        → (texture_ids ((remove_texture id q).added) ≡ remove id is)
          × ((remove_texture id q).buffers ≡ [])
    go (some t) e = rw (e, remove_texture) (texture_ids-take_by_id id q.added ∙ ap (remove id) h, k)
    go none e =
        rw (e, remove_texture, remove_attached, none_attached id q.buffers k)
          (remove_not_found id q.added e ∙ ap (remove id) h, k)

-- The buffers that wait to be attached are those; none is attached.
abbrev pub Holds : List ℕ → Activity → Type 0
Holds is a = (texture_ids a.renderer.queues.added ≡ is) × (a.renderer.queues.buffers ≡ [])

module _ {B : Type 0} (anc : Ancillary B) where
  heed_all-append :
      (xs ys : List Letter) (a : Activity)
      → heed_all anc (xs ++ ys) a ≡ heed_all anc ys (heed_all anc xs a)
  unfolding heed_all
  heed_all-append [] ys a = refl
  heed_all-append (x ∷ xs) ys a = heed_all-append xs ys (heed anc x a)

  removed-Holds :
      (id : ℕ) (is : List ℕ) (a : Activity)
      → Holds is a
      → Holds (remove id is) (heed anc (removed id) a)
  unfolding heed
  removed-Holds id is a (h, k) = remove_texture_ids id is a.renderer.queues h k

  heed_all-Holds :
      (ps : List Packet) (a : Activity)
      → IsWhole ps
      → Holds [] a
      → Holds (told ps) (heed_all anc (letters ps) a)
  unfolding told letters heed_all heed set_shared_state texture_ids add_texture
  heed_all-Holds [] a nothing_written h = h
  heed_all-Holds ps a (state_written {fd = fd} {ps = qs} w) h =
      rw (heed_all-append (letters qs) (state fd ∷ []) a) (heed_all-Holds qs a w h)
  heed_all-Holds ps a (buffer_written {s = s} {ps = qs} w) h =
      let (e, k) = heed_all-Holds qs a w h in
      rw (heed_all-append (letters qs) (buffer (texture_of s) ∷ []) a)
        (ap (λ t. id_of s.bytes ∷ t) e, k)
  heed_all-Holds ps a (removal_written {id = id} {ps = qs} w) h =
      rw (heed_all-append (letters qs) (removed id ∷ []) a)
        (removed-Holds id (told qs) (heed_all anc (letters qs) a) (heed_all-Holds qs a w h))

-- Whatever buffers the server registers and withdraws and whatever connections come and go, each
-- when the one before it is lost, once the activity has read all that was written on the present
-- socket, the buffers it has are those that are registered, in the same order: where events,
-- descriptors and buffers are read as they were written, the registered buffers were at the start
-- those that had been told in whole messages, the activity had none, and its renderer attaches none
-- meanwhile.
pub run_mirrored :
    {B N : Type 0} (c : Codec B N) (v : Envelope B) (byte : ℕ → B) (anc : Ancillary B)
    → IsCodec c
    → Matches v anc
    → (calls : List Call) (s : Server) (a : Activity) → Known s
    → WritesWhole s
    → Orderly calls s
    → Holds [] a
    → Returns (Holds (ids ((run calls s).registered))) (
        poll c
          (activity_reader anc)
          (λ a. a)
          2
          (wire_bytes c v byte ((run calls s).connection.wire))
          a)
run_mirrored {N = N} c v byte anc law m calls s a k w o h =
    let whole = run-WritesWhole calls s w in
    let ps = (run calls s).connection.wire in
    rw
      (
        wire_bytes-letters c v byte ps whole,
        poll-heed_all N v anc m c law (letters ps) a,
        (run-Known calls s k o).0,
      )
      (heed_all-Holds anc ps a whole h)
