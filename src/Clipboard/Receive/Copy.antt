-- ===== src/Clipboard/Receive/Copy.antt =====
-- The text of a client's property on its way to Android, through `lorieHandleSelection` of clipboard.c.
use termux_x11_virtualkeys.Base.{ℕ, ◌≡◌, ◌⊎◌, List, All, length, fault, some, ◌<◌}
use termux_x11_virtualkeys.Connection.{Connection, send_clipboard_data}
use termux_x11_virtualkeys.Clipboard.Text.{check_utf8}
use termux_x11_virtualkeys.Clipboard.Text.Check.{Shaped}
use termux_x11_virtualkeys.Clipboard.Text.Filter.{IsPlain}
use termux_x11_virtualkeys.Clipboard.State.{Atom, Sent, Dix, State, Property}

-- The memory of a property holds its bytes and no more.
pub record Exact (prop : Property) : Type 0 where
  pub size : prop.size ≡ length prop.memory
  pub are_bytes : All (λ c. c < 256) prop.memory

-- Nothing goes to Android, or one text of groups with neither NUL nor carriage return.
abbrev pub SendsText : Connection → Connection → Type 0
SendsText before after =
    (after ≡ before)
    ⊎ ((text : List ℕ) × Shaped text × All IsPlain text × (after ≡ send_clipboard_data text before))

-- `lorieCheckUTF8` faults on the property that is looked up.
abbrev pub CheckFaults : Dix → List Sent → Atom → Type 0
CheckFaults dix sent target =
    (prop : Property) × (dix.lookup_property sent target ≡ some prop)
    × (check_utf8 prop.memory prop.size ≡ fault)

module _ (prop : Property) (s : State) (t : Exact prop) where
  abbrev Sends : State → Type 0
  Sends s' = SendsText s.connection s'.connection
