-- ===== src/Clipboard/State.antt =====
-- The variables of clipboard.c, what it sees of the X server, and what it sends there.
use termux_x11_virtualkeys.Base.{ℕ, Bool, Option, List, ◌∷◌}
use termux_x11_virtualkeys.Connection.{Connection}

abbrev pub Atom : Type 0
Atom = ℕ

-- `None`, and the predefined atoms of X11/Xatom.h.
abbrev pub no_atom : Atom
no_atom = 0

abbrev pub xa_atom : Atom
xa_atom = 4

abbrev pub xa_integer : Atom
xa_integer = 19

abbrev pub xa_string : Atom
xa_string = 31

-- The atoms that `lorieInitClipboard` makes.
pub record Atoms : Type 0 where
  pub timestamp : Atom
  pub text : Atom
  pub clipboard : Atom
  pub targets : Atom
  pub string : Atom
  pub utf8_string : Atom

-- The error codes, and a status, which is `Success` or one of these.
pub data Failure : Type 0 where
  bad_match bad_alloc bad_atom : Failure
  other_error : ℕ → Failure

pub data Status : Type 0 where
  success : Status
  failure : Failure → Status

-- `Selection` of the X server. Client 0 is `NULL`.
pub record Selection : Type 0 where
  pub selection : Atom
  pub window : ℕ
  pub client : ℕ
  pub last_time_changed : ℕ

-- `struct LorieDataTarget`, which holds the arguments of one request. The source keeps a `ClientPtr`,
-- here the number of the client: that a client is freed while its request waits is not modelled.
pub record DataTarget : Type 0 where
  pub client : ℕ
  pub selection : Atom
  pub target : Atom
  pub property : Atom
  pub requestor : ℕ
  pub time : ℕ

pub data Event : Type 0 where
  selection_notify : (time requestor selection target property : ℕ) → Event
  selection_request : (owner time requestor selection target property : ℕ) → Event
  selection_clear : (time window atom : ℕ) → Event

-- The arguments of `dixChangeWindowProperty` that differ from call to call.
pub record Change : Type 0 where
  pub window : ℕ
  pub property : Atom
  pub type : Atom
  pub format : ℕ
  pub value : List ℕ

-- What clipboard.c does to the X server, in the order of the calls.
pub data Sent : Type 0 where
  to_client : ℕ → Event → Sent
  changed : Change → Sent
  error_value : ℕ → ℕ → Sent
  forwarded_convert_selection : DataTarget → Sent
  forwarded_send_event : ℕ → Sent

-- A property of the root window: `memory` holds its items, and whatever is allocated behind them.
pub record Property : Type 0 where
  pub type : Atom
  pub format : ℕ
  pub size : ℕ
  pub memory : List ℕ

pub data Access : Type 0 where
  get_attr set_attr read : Access

pub data Lookup : Type 0 where
  found : Selection → Lookup
  failed : Failure → Lookup

-- The parts of the X server that clipboard.c calls. What they answer may depend on all that was
-- sent before.
pub record Dix : Type 0 where
  pub server_client : ℕ
  pub root : ℕ
  pub lookup_selection : List Sent → List Selection → Atom → ℕ → Access → Lookup
  pub lookup_window : List Sent → ℕ → ℕ → Status
  pub lookup_property : List Sent → Atom → Option Property
  pub change_property : List Sent → Change → Status
  pub create_access : List Sent → Atom → Status
  pub convert_selection_handler : List Sent → DataTarget → Status
  pub valid_atom : Atom → Bool
  pub allocates : List Sent → Bool

-- The static variables of clipboard.c, `CurrentSelections` and `currentTime` of the X server, the
-- connection, and what has been sent, the newest first.
pub record State : Type 0 where
  pub atoms : Atoms
  pub clipboard_enabled : Bool
  pub cached_data : Option (List ℕ)
  pub data_targets : List DataTarget
  pub selections : List Selection
  pub current_time : ℕ
  pub connection : Connection
  pub sent : List Sent

abbrev pub send : Sent → State → State
send e s = record s { sent = e ∷ s.sent }
