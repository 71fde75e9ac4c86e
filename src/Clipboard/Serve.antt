-- ===== src/Clipboard/Serve.antt =====
-- The functions of clipboard.c that offer the clipboard of Android to X11 clients.
pub mod Answers
pub mod Requests
pub mod Ownership
use termux_x11_virtualkeys.Base.{
  ℕ, zero, suc, Bool, true, false, not, ◌&&◌, ◌||◌, Option, none, some, List, [], ◌∷◌, ◌==◌,
  if◌then◌else◌, Run, ok, fault, out_of_fuel, ◌>>=◌, length, ◌+◌,
}
use termux_x11_virtualkeys.Connection.{request_clipboard}
use termux_x11_virtualkeys.Clipboard.Text.{c_string, utf8_to_latin1}
use termux_x11_virtualkeys.Clipboard.State.{
  Atom, no_atom, xa_atom, xa_integer, xa_string, Status, success, failure, bad_match, bad_alloc,
  bad_atom, Selection, DataTarget, selection_notify, selection_clear, to_client, changed,
  error_value, forwarded_convert_selection, Change, get_attr, set_attr, read, found, failed, Dix,
  State, send,
}
use termux_x11_virtualkeys.Clipboard.Receive.{selection_callback}

-- The `SelectionNotify` that answers a request; the property is `None` where it failed.
abbrev pub notify : DataTarget → Atom → State → State
notify r property =
    send (to_client r.client (selection_notify r.time r.requestor r.selection r.target property))

abbrev pub real_property : DataTarget → Atom
real_property r = if r.property == no_atom then r.target else r.property

-- The targets that the data can be had in.
abbrev pub is_text_target : State → Atom → Bool
is_text_target s target =
    target == s.atoms.string || (target == s.atoms.text || target == s.atoms.utf8_string)

-- What both callers of `lorieConvertSelection` do about its result: a failure is told to the
-- client.
abbrev pub notify_failure : DataTarget → Status × State → State
notify_failure r (success, s) = s
notify_failure r (failure _, s) = notify r no_atom s

module _ (dix : Dix) where
  open dix use {
    convert_selection_handler, server_client, root, lookup_selection, lookup_window,
    change_property, create_access, valid_atom, allocates,
  }

  -- The last part of `lorieConvertSelection`: the property is written and the client told.
  unfoldable pub change_and_notify : DataTarget → Atom → ℕ → List ℕ → State → Status × State
  change_and_notify r type format value s =
      let change : Change = record {
        window = r.requestor;
        property = real_property r;
        type = type;
        format = format;
        value = value;
      } in
      elim (change_property s.sent change) [
        | success ↦ (success, notify r r.property (send (changed change) s))
        | failure e ↦ (failure e, s)
      ]

  -- The data is not there yet: the request waits, and Android is asked for the data.
  unfoldable pub enqueue : DataTarget → State → Status × State
  enqueue r s =
      if not (is_text_target s r.target)
      then (failure bad_match, s)
      else if not (allocates s.sent)
      then (failure bad_alloc, s)
      else (
        success,
        record s { data_targets = r ∷ s.data_targets; connection = request_clipboard s.connection },
      )

  -- The data is there, and is converted as the target asks.
  unfoldable pub convert_data : DataTarget → List ℕ → State → Run (Status × State)
  unfolding change_and_notify
  convert_data r text s =
      if r.target == s.atoms.string || r.target == s.atoms.text
      then (utf8_to_latin1 text >>= λ latin1. ok (
          if not (allocates s.sent)
          then (failure bad_alloc, s)
          else change_and_notify r xa_string 8 latin1 s))
      else if r.target == s.atoms.utf8_string
      then ok (change_and_notify r s.atoms.utf8_string 8 (c_string text) s)
      else ok (failure bad_match, s)

  -- `lorieConvertSelection`, behind the two lookups.
  unfoldable pub convert_target :
      DataTarget → Selection → Option (List ℕ) → State → Run (Status × State)
  unfolding change_and_notify enqueue convert_data
  convert_target r sel cached s =
      if r.target == s.atoms.targets
      then ok (
          change_and_notify r xa_atom 32
            (s.atoms.targets ∷ s.atoms.timestamp ∷ s.atoms.string ∷ s.atoms.text
              ∷ s.atoms.utf8_string ∷ [])
            s)
      else if r.target == s.atoms.timestamp
      then ok (change_and_notify r xa_integer 32 (sel.last_time_changed ∷ []) s)
      else elim cached [ none ↦ ok (enqueue r s) | some text ↦ convert_data r text s ]

  -- `lorieConvertSelection`.
  unfoldable pub convert_selection : DataTarget → Option (List ℕ) → State → Run (Status × State)
  unfolding convert_target
  convert_selection r cached s =
      elim (lookup_selection s.sent s.selections r.selection r.client get_attr) [
        | failed e ↦ ok (failure e, s)
        | found sel ↦ elim (lookup_window s.sent r.requestor r.client) [
          | success ↦ convert_target r sel cached s
          | failure e ↦ ok (failure e, s)
        ]
      ]

  -- The parameters of a request are atoms.
  abbrev pub params_okay : DataTarget → Bool
  params_okay r =
      (valid_atom r.selection && valid_atom r.target)
      && (r.property == no_atom || valid_atom r.property)

  -- `origProcConvertSelection`.
  abbrev pub forward : DataTarget → State → Status × State
  forward r s = (convert_selection_handler s.sent r, send (forwarded_convert_selection r) s)

  -- `lorieProcConvertSelection`, on a request of the right size. What a client does not ask of this
  -- server is forwarded to the X server's handler.
  unfoldable pub proc_convert_selection : DataTarget → State → Run (Status × State)
  unfolding convert_selection
  proc_convert_selection r s = elim (lookup_window s.sent r.requestor r.client) [
    | success ↦
        if not (params_okay r)
        then ok (failure bad_atom, send (error_value r.client r.property) s)
        else elim (lookup_selection s.sent s.selections r.selection r.client read) [
          | found sel ↦
              if sel.client == server_client && sel.window == root
              then (convert_selection r s.cached_data s >>= λ result.
                  ok (success, notify_failure r result))
              else ok (forward r s)
          | failed _ ↦ ok (forward r s)
        ]
    | failure e ↦ ok (failure e, s)
  ]

  -- The fields that `lorieOwnSelection` sets, in the selection of that name.
  unfoldable pub own : ℕ → Atom → List Selection → List Selection
  own now selection [] = []
  own now selection (sel ∷ rest) =
      let others = own now selection rest in
      if sel.selection == selection
      then record sel { last_time_changed = now; window = root; client = server_client } ∷ rest
      else sel ∷ others

  -- A client that owned the selection is told that it no longer does.
  unfoldable pub clear_owner : Selection → State → State
  clear_owner sel s =
      if not (sel.client == 0) && not (sel.client == server_client)
      then send (to_client sel.client (selection_clear s.current_time sel.window sel.selection)) s
      else s

  -- The end of `lorieOwnSelection`: the fields are set and the callbacks called, of which this
  -- program's own is modelled.
  unfoldable pub grab : Atom → State → State
  unfolding own
  grab selection s =
      selection_callback dix selection true
        (record s { selections = own s.current_time selection s.selections })

  -- `lorieOwnSelection`.
  unfoldable pub own_selection : Atom → State → Status × State
  own_selection selection s =
      elim (lookup_selection s.sent s.selections selection server_client set_attr) [
        | found sel ↦ (success, grab selection (clear_owner sel s))
        | failed bad_match ↦
            if not (allocates s.sent)
            then (failure bad_alloc, s)
            else elim (create_access s.sent selection) [
              | success ↦ (
                success,
                grab selection (record s {
                  selections =
                      record {
                        selection = selection;
                        window = 0;
                        client = 0;
                        last_time_changed = 0;
                      }
                      ∷ s.selections;
                }),
              )
              | failure e ↦ (failure e, s)
            ]
        | failed e ↦ (failure e, s)
      ]

  -- `lorieHandleClipboardAnnounce`.
  unfoldable pub handle_clipboard_announce : State → State
  unfolding own_selection
  handle_clipboard_announce s =
      (own_selection s.atoms.clipboard (record s { cached_data = none })).1

  -- The loop of `lorieHandleClipboardData`. What is freed after a round is the head that the list
  -- has then.
  unfoldable pub answer_loop : ℕ → State → Run State
  unfolding convert_selection
  answer_loop zero s = out_of_fuel
  answer_loop (suc fuel) s = elim s.data_targets [
    | [] ↦ ok s
    | r ∷ _ ↦ convert_selection r s.cached_data s >>= λ result.
        let s' = notify_failure r result in
        elim s'.data_targets [
          | [] ↦ fault
          | _ ∷ rest ↦ answer_loop fuel (record s' { data_targets = rest })
        ]
  ]

  -- `lorieHandleClipboardData`.
  unfoldable pub handle_clipboard_data : Option (List ℕ) → State → Run State
  unfolding answer_loop
  handle_clipboard_data text s =
      answer_loop (length s.data_targets + 1) (record s { cached_data = text })
