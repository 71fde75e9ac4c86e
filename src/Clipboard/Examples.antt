-- ===== src/Clipboard/Examples.antt =====
-- The clipboard between an X11 client and Android, on a small X server.
use termux_x11_virtualkeys.Base.{
  ℕ, ◌≡◌, refl, inl, List, [], ◌∷◌, ok, Returns, ReturnsOr, Option, true, arith, some, none,
}
use termux_x11_virtualkeys.Connection.{clipboard_request, request_clipboard}
use termux_x11_virtualkeys.Clipboard.Text.{utf8_to_latin1}
use termux_x11_virtualkeys.Clipboard.Text.Encode.{encode, encode_all}
use termux_x11_virtualkeys.Clipboard.State.{
  Atom, Atoms, selection_notify, success, bad_match, Selection, DataTarget, Property, Lookup, found,
  failed, Dix, State,
}
use termux_x11_virtualkeys.Clipboard.Receive.{
  selection_callback, selection_request_to_owner, proc_send_event,
}
use termux_x11_virtualkeys.Clipboard.Receive.Untouched.{
  Untouched, Overread, proc_send_event-Untouched,
}
use termux_x11_virtualkeys.Clipboard.Serve.{
  proc_convert_selection, handle_clipboard_announce, handle_clipboard_data, clear_owner, grab,
  own_selection,
}
use termux_x11_virtualkeys.Clipboard.Serve.Answers.{
  notifies, Drained, handle_clipboard_data-Drained,
}
use termux_x11_virtualkeys.Clipboard.Serve.Ownership.{find, Lawful, Owning, own_selection-Owning}
use termux_x11_virtualkeys.Clipboard.Steps.{step, converts, sends_event, announces, brings, run}
use termux_x11_virtualkeys.Clipboard.Steps.Invariant.{Inv, Utf8, SomeShort, run-Inv}

abbrev atoms : Atoms
atoms = record {
  timestamp = 70;
  text = 71;
  clipboard = 72;
  targets = 73;
  string = 31;
  utf8_string = 74;
}

lookup : List Selection → Atom → Lookup
lookup sels a = elim (find a sels) [ none ↦ failed bad_match | some sel ↦ found sel ]

-- A client has put the bytes "Hi", CR, LF into each property; `slack` stands behind them.
abbrev server : List ℕ → Dix
server slack = record {
  server_client = 1;
  root = 100;
  lookup_selection = λ sent sels a client access. lookup sels a;
  lookup_window = λ sent w client. success;
  lookup_property = λ sent a.
      some (record { type = a; format = 8; size = 4; memory = 0x48 ∷ 0x69 ∷ 13 ∷ 10 ∷ slack });
  change_property = λ sent c. success;
  create_access = λ sent a. success;
  convert_selection_handler = λ sent r. success;
  valid_atom = λ a. true;
  allocates = λ sent. true;
}

abbrev dix : Dix
dix = server (0 ∷ 0 ∷ 0 ∷ 0 ∷ [])

-- The server owns the clipboard, of which client 7 is the last owner but one.
abbrev start : List Selection → State
start sels = record {
  atoms = atoms;
  clipboard_enabled = true;
  cached_data = none;
  data_targets = [];
  selections = sels;
  current_time = 5;
  connection = record { conn_fd = some 9; wire = [] };
  sent = [];
}

abbrev owner : ℕ → Selection
owner client = record { selection = 72; window = 100; client = client; last_time_changed = 3 }

-- Client 7 asks for the clipboard as UTF-8.
abbrev request : DataTarget
request = record {
  client = 7;
  selection = 72;
  target = 74;
  property = 80;
  requestor = 50;
  time = 6;
}

-- "é" and a NUL.
abbrev text : List ℕ
text = 0xc3 ∷ 0xa9 ∷ 0 ∷ []

text_converts : utf8_to_latin1 text ≡ ok (0xe9 ∷ [])
unfolding utf8_to_latin1
text_converts = refl

dix-Lawful : (slack : List ℕ) → Lawful (server slack)
unfolding lookup
dix-Lawful slack sent sels a client access = (λ sel e. ground arith, λ e. ground arith)

text-Utf8 : Utf8 (some text)
unfolding encode_all encode
text-Utf8 = (0xe9 ∷ [], (ground arith, tt), ground arith, refl)

abbrev waits_once : State
waits_once = record (start []) { data_targets = request ∷ [] }

handle_clipboard_data-Drained_example :
    Returns (Drained text (request ∷ []) []) (handle_clipboard_data dix (some text) waits_once)
unfolding notifies
handle_clipboard_data-Drained_example =
    handle_clipboard_data-Drained dix text (0xe9 ∷ []) text_converts waits_once

own_selection-Owning_example :
    Owning dix 72 (start (owner 7 ∷ [])) (own_selection dix 72 (start (owner 7 ∷ [])))
own_selection-Owning_example =
    own_selection-Owning dix 72 (start (owner 7 ∷ [])) (dix-Lawful (0 ∷ 0 ∷ 0 ∷ 0 ∷ []))

abbrev memory_of : Option Property → List ℕ
memory_of none = []
memory_of (some prop) = prop.memory

proc_send_event-Untouched_example :
    ReturnsOr
      (Overread dix [] 74)
      (Untouched (start []))
      (proc_send_event dix 7 true 100 72 74 74 (start []))
proc_send_event-Untouched_example = proc_send_event-Untouched dix (start []) 7 true 100 72 74 74

run-Inv_example : ReturnsOr (SomeShort dix) Inv (
    run dix
      (announces ∷ converts request ∷ sends_event 7 true 100 72 74 74 ∷ brings text ∷ [])
      (start []))
run-Inv_example =
    run-Inv dix (announces ∷ converts request ∷ sends_event 7 true 100 72 74 74 ∷ brings text ∷ [])
      (start []) (tt, (tt, (tt, (text-Utf8, tt)))) (record { utf8 = tt; waiting = inl refl })

-- Android announces its clipboard and a client asks for it: the client gets the text once Android
-- has brought it.
pasted :
    Returns
      (λ s.
        (notifies s.sent ≡ (7, selection_notify 6 50 72 74 80) ∷ [])
        × (s.connection.wire ≡ clipboard_request ∷ []))
      (run dix (announces ∷ converts request ∷ brings text ∷ []) (start []))
unfolding run step lookup find own_selection handle_clipboard_announce clear_owner grab
    selection_callback selection_request_to_owner proc_convert_selection handle_clipboard_data
    notifies request_clipboard
pasted = (refl, refl)
