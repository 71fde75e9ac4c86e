-- ===== src/Clipboard/Steps.antt =====
-- The calls that reach clipboard.c, one step each, and histories of them.
pub mod Invariant
use termux_x11_virtualkeys.Base.{
  ℕ, Bool, true, false, List, [], ◌∷◌, Run, ok, ◌>>=◌, Option, some, none,
}
use termux_x11_virtualkeys.Clipboard.State.{DataTarget, Dix, State}
use termux_x11_virtualkeys.Clipboard.Receive.{
  enable_clipboard_sync, proc_send_event, selection_callback,
}
use termux_x11_virtualkeys.Clipboard.Serve.{
  proc_convert_selection, handle_clipboard_announce, handle_clipboard_data,
}

pub data Call : Type 0 where
  enables : Bool → Call
  converts : DataTarget → Call
  sends_event : (client : ℕ) (is_notify : Bool) (requestor selection target property : ℕ) → Call
  owner_changes : (selection : ℕ) (sets_owner : Bool) → Call
  announces : Call
  brings : List ℕ → Call

module _ (dix : Dix) where
  unfoldable pub step : Call → State → Run State
  step (enables b) s = ok (enable_clipboard_sync b s)
  step (converts r) s = proc_convert_selection dix r s >>= λ result. ok result.1
  step (sends_event c n w sel t p) s = proc_send_event dix c n w sel t p s
  step (owner_changes sel b) s = ok (selection_callback dix sel b s)
  step announces s = ok (handle_clipboard_announce dix s)
  step (brings text) s = handle_clipboard_data dix (some text) s

  unfoldable pub run : List Call → State → Run State
  run [] s = ok s
  run (c ∷ calls) s = step c s >>= run calls
