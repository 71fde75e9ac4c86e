-- ===== src/Clipboard/Receive.antt =====
-- The functions of clipboard.c that receive the clipboard of an X11 client for Android.
pub mod Untouched
pub mod Copy
use termux_x11_virtualkeys.Base.{
  ℕ, suc, zero, ◌-◌, Bool, true, false, not, ◌&&◌, ◌||◌, Option, none, some, List, [], ◌∷◌, ltb,
  ◌==◌, if◌then◌else◌, take, Run, ok, fault, out_of_fuel, ◌>>=◌,
}
use termux_x11_virtualkeys.Connection.{send_clipboard_data}
use termux_x11_virtualkeys.Clipboard.Text.{c_string, convert_lf, latin1_to_utf8, check_utf8}
use termux_x11_virtualkeys.Clipboard.State.{
  Atom, xa_atom, Status, success, Selection, Event, selection_request, Sent, to_client,
  forwarded_send_event, Property, get_attr, Lookup, found, failed, Dix, State, send,
}

-- `lorieEnableClipboardSync`.
unfoldable pub enable_clipboard_sync : Bool → State → State
enable_clipboard_sync enable s = record s { clipboard_enabled = enable }

-- `lorieHasAtom`.
unfoldable pub has_atom : Atom → List Atom → Bool
has_atom atom [] = false
has_atom atom (a ∷ list) = a == atom || has_atom atom list

-- A text in Latin-1 and one in UTF-8 go to Android.
unfoldable pub handle_string : Property → State → State
handle_string prop s = record s {
  connection =
      send_clipboard_data (latin1_to_utf8 (convert_lf (take prop.size prop.memory))) s.connection;
}

unfoldable pub handle_utf8_string : Property → State → Run State
handle_utf8_string prop s = elim (check_utf8 prop.memory prop.size) [
  | ok true ↦ ok (record s {
    connection =
        send_clipboard_data (c_string (convert_lf (take prop.size prop.memory))) s.connection;
  })
  | ok false ↦ ok s
  | fault ↦ fault
  | out_of_fuel ↦ out_of_fuel
]

module _ (dix : Dix) where
  open dix use {server_client, root, lookup_selection, lookup_property}

  -- `lorieSelectionRequest`.
  unfoldable pub selection_request_to_owner : Atom → Atom → State → State
  selection_request_to_owner selection target s =
      if not s.clipboard_enabled
      then s
      else elim (lookup_selection s.sent s.selections selection server_client get_attr) [
        | failed _ ↦ s
        | found sel ↦
            send
              (to_client sel.client
                (selection_request sel.window s.current_time root selection target target))
              s
      ]

  -- The targets: the best text among them is asked for.
  unfoldable pub handle_targets : Property → State → State
  handle_targets prop s =
      if has_atom s.atoms.utf8_string (take prop.size prop.memory)
      then selection_request_to_owner s.atoms.clipboard s.atoms.utf8_string s
      else if has_atom s.atoms.string (take prop.size prop.memory)
      then selection_request_to_owner s.atoms.clipboard s.atoms.string s
      else s

  -- The last part of `lorieHandleSelection`: what the property holds decides.
  unfoldable pub handle_property : Atom → Property → State → Run State
  handle_property target prop s =
      if target == s.atoms.targets && (prop.type == xa_atom && prop.format == 32)
      then ok (handle_targets prop s)
      else if target == s.atoms.string && (prop.type == s.atoms.string && prop.format == 8)
      then ok (handle_string prop s)
      else if target == s.atoms.utf8_string
          && (prop.type == s.atoms.utf8_string && prop.format == 8)
      then handle_utf8_string prop s
      else ok s

  -- `lorieHandleSelection`.
  unfoldable pub handle_selection : Atom → State → Run State
  handle_selection target s =
      if not (target == s.atoms.targets)
        && (not (target == s.atoms.string) && not (target == s.atoms.utf8_string))
      then ok s
      else elim (lookup_property s.sent target) [
        | none ↦ ok s
        | some prop ↦ handle_property target prop s
      ]

  -- `lorieProcSendEvent`: what the client's `SelectionNotify` says, then the X server's handler.
  -- An event of another kind is `is_notify = false`.
  unfoldable pub proc_send_event :
      (client : ℕ) (is_notify : Bool) (requestor selection target property : ℕ) → State → Run State
  proc_send_event client is_notify requestor selection target property s =
      (if s.clipboard_enabled
          && (requestor == root
              && (is_notify && (selection == s.atoms.clipboard && target == property)))
        then handle_selection target s
        else ok s)
      >>= λ s'. ok (send (forwarded_send_event client) s')

  -- `lorieSelectionCallback`, for `info->kind`, which is `SelectionSetOwner` or another.
  unfoldable pub selection_callback : (selection : Atom) (sets_owner : Bool) → State → State
  selection_callback selection sets_owner s =
      if s.clipboard_enabled && (selection == s.atoms.clipboard && sets_owner)
      then selection_request_to_owner s.atoms.clipboard s.atoms.targets s
      else s
