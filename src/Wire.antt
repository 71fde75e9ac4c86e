-- ===== src/Wire.antt =====
-- The packets of the socket between the activity and the server: `lorieEvent` of lorie.h, and the
-- loop by which cmdentrypoint.c and activity.c read them. The layout of the union is the compiler's.
use termux_x11_virtualkeys.Input.{MouseEvent}
use termux_x11_virtualkeys.Stylus.{StylusEvent}
use termux_x11_virtualkeys.Base.{
  ℕ, zero, suc, Bool, List, [], ◌∷◌, ◌++◌, ltb, if◌then◌else◌, length, take, drop, Run, ok, fault,
  out_of_fuel, ◌>>=◌, ◌≡◌, ◌<◌,
}
pub mod Framing
pub mod Delivery
pub mod Server
pub mod Activity
pub mod Messages
pub mod History
pub mod Typed
pub mod Receive
pub mod Connect
pub mod Stale
mod Sample
mod Examples

-- The `stylus` of the union: where it is, its axes as 16 bit and 8 bit words, and its buttons.
pub record StylusPacket (N : Type 0) : Type 0 where
  pub x : N
  pub y : N
  pub pressure : ℕ
  pub tilt_x : ℕ
  pub tilt_y : ℕ
  pub orientation : ℕ
  pub tool : StylusEvent

-- `lorieEvent`, by its `type`; floating point numbers are an `N`.
pub data LorieEvent (N : Type 0) : Type 0 where
  shared_server_state add_buffer : LorieEvent N
  remove_buffer : (id : ℕ) → LorieEvent N
  screen_size : (width height framerate name_size : ℕ) → LorieEvent N
  touch : (type id x y : ℕ) → LorieEvent N
  mouse : MouseEvent N → LorieEvent N
  key : (key state : ℕ) → LorieEvent N
  stylus : StylusPacket N → LorieEvent N
  stylus_enable : Bool → LorieEvent N
  unicode : (code : ℕ) → LorieEvent N
  clipboard_enable : Bool → LorieEvent N
  clipboard_announce clipboard_request : LorieEvent N
  clipboard_send : (count : ℕ) → LorieEvent N
  window_focus_changed : LorieEvent N
  other : (type : ℕ) → LorieEvent N

-- The bytes of a union: `sizeof`, how they are laid out, and what they are taken for.
pub record Codec (B N : Type 0) : Type 0 where
  pub size : ℕ
  pub encode : LorieEvent N → List B
  pub decode : List B → LorieEvent N

-- What a compiler warrants: an event takes `sizeof` bytes, not none, and is read as it was written.
pub record IsCodec {B N : Type 0} (c : Codec B N) : Type 0 where
  pub size_positive : 0 < c.size
  pub length-encode : (e : LorieEvent N) → length (c.encode e) ≡ c.size
  pub decode-encode : (e : LorieEvent N) → c.decode (c.encode e) ≡ e

-- `read` of a number of bytes: what it gives, and what is left. All that was written is there to
-- read, and what carries a descriptor counts as one byte.
abbrev pub read : {B : Type 0} → ℕ → List B → List B × List B
read n s = (take n s, drop n s)

-- A reader: what its handler of an event reads behind it, and what the handler makes of both.
pub record Reader (B N S : Type 0) : Type 0 where
  pub behind : LorieEvent N → List B → List B × List B
  pub handle : LorieEvent N → List B → S → S

module _ {B N S : Type 0} (c : Codec B N) (r : Reader B N S) where
  -- The loop at the label `again`: a union is read whole or the loop ends, and it goes on while more
  -- than a union is there. The result is the state, and the bytes that are left.
  unfoldable pub again : ℕ → List B → S → Run (S × List B)
  again zero s state = out_of_fuel
  again (suc fuel) s state =
      let (bytes, s') = read c.size s in
      let e = c.decode bytes in
      let (extra, s'') = r.behind e s' in
      let state' = r.handle e extra state in
      let more = again fuel s'' state' in
      if ltb (length s) c.size
      then ok (state, s')
      else if ltb c.size (length s'')
      then more
      else ok (state', s'')
