-- ===== src/Clipboard/Receive/Untouched.antt =====
-- The variables of the sending half, in the receiving functions of clipboard.c.
use termux_x11_virtualkeys.Base.{
  ◌≡◌, ◌<◌, take, Run, ok, fault, out_of_fuel, true, false, refl, Bool, ReturnsOr, ReturnsOr-bind,
  ReturnsOr-mono, arith, Bool-cases, Option-cases, inl, inr, List, length, ◌+◌, if_property, ◌&&◌,
  ◌==◌, not, some, ℕ,
}
use termux_x11_virtualkeys.Clipboard.Text.{check_utf8, c_string, convert_lf}
use termux_x11_virtualkeys.Connection.{send_clipboard_data}
use termux_x11_virtualkeys.Clipboard.Text.Slack.{check_utf8-ReturnsOr}
use termux_x11_virtualkeys.Clipboard.State.{Atom, xa_atom, Sent, Dix, State, Property}
use termux_x11_virtualkeys.Clipboard.Receive.{
  selection_request_to_owner, handle_targets, handle_string, handle_utf8_string, handle_property,
  handle_selection, selection_callback, proc_send_event,
}

-- The variables of the sending half are as they were.
pub record Untouched (s s' : State) : Type 0 where
  pub atoms : s'.atoms ≡ s.atoms
  pub cached_data : s'.cached_data ≡ s.cached_data
  pub data_targets : s'.data_targets ≡ s.data_targets
  pub selections : s'.selections ≡ s.selections
  pub current_time : s'.current_time ≡ s.current_time

-- Memory ends less than four bytes behind the data of the property.
abbrev pub Short : Property → Type 0
Short prop = length prop.memory < prop.size + 4

module _ (dix : Dix) (s : State) where
  Untouched-refl : Untouched s s
  Untouched-refl = record {
    atoms = refl;
    cached_data = refl;
    data_targets = refl;
    selections = refl;
    current_time = refl;
  }

  pub selection_request_to_owner-Untouched :
      (selection target : Atom) → Untouched s (selection_request_to_owner dix selection target s)
  unfolding selection_request_to_owner
  selection_request_to_owner-Untouched selection target = ground arith

  handle_targets-Untouched : (prop : Property) → Untouched s (handle_targets dix prop s)
  unfolding handle_targets
  handle_targets-Untouched prop = ground (
    arith,
    selection_request_to_owner-Untouched s.atoms.clipboard s.atoms.utf8_string,
    selection_request_to_owner-Untouched s.atoms.clipboard s.atoms.string,
  )

  handle_string-Untouched : (prop : Property) → Untouched s (handle_string prop s)
  unfolding handle_string
  handle_string-Untouched prop = ground arith

  pub selection_callback-Untouched :
      (selection : Atom) (sets_owner : Bool)
      → Untouched s (selection_callback dix selection sets_owner s)
  unfolding selection_callback
  selection_callback-Untouched selection sets_owner =
      if_property (Untouched s) _ (selection_request_to_owner-Untouched _ _) Untouched-refl

  handle_utf8_string-Untouched :
      (prop : Property) → ReturnsOr (Short prop) (Untouched s) (handle_utf8_string prop s)
  unfolding handle_utf8_string
  handle_utf8_string-Untouched prop =
      go (check_utf8 prop.memory prop.size) (check_utf8-ReturnsOr prop.memory prop.size)
    where
      go :
          (r : Run Bool)
          → ReturnsOr {A = Bool} (Short prop) (λ _. Unit {0}) r
          → ReturnsOr (Short prop) (Untouched s) (elim r as (λ _. Run State) [
            | ok true ↦ ok (record s {
              connection =
                  send_clipboard_data
                    (c_string (convert_lf (take prop.size prop.memory)))
                    s.connection;
            })
            | ok false ↦ ok s
            | fault ↦ fault
            | out_of_fuel ↦ out_of_fuel
          ])
      go (ok true) a = record {
        atoms = refl;
        cached_data = refl;
        data_targets = refl;
        selections = refl;
        current_time = refl;
      }
      go (ok false) a = Untouched-refl
      go fault a = a
      go out_of_fuel a = a

-- What a property of any kind leads to, and no property.
pub handle_selection_cases :
    (dix : Dix) (s : State) (target : Atom) (O : Type 0) (P : State → Type 0)
    → P s
    → ((prop : Property)
        → dix.lookup_property s.sent target ≡ some prop
        → P (handle_targets dix prop s)
          × P (handle_string prop s)
          × ReturnsOr O P (handle_utf8_string prop s))
    → ReturnsOr O P (handle_selection dix target s)
unfolding handle_selection handle_property
handle_selection_cases dix s target O P p h =
    elim (Bool-cases (
      not (target == s.atoms.targets)
      && (not (target == s.atoms.string) && not (target == s.atoms.utf8_string)))) [
        | inl other ↦ rw (other, handle_selection) p
        | inr known ↦ elim (Option-cases (dix.lookup_property s.sent target)) [
          | inl e ↦ rw (known, e, handle_selection) p
          | inr (prop, e) ↦
              rw (known, e, handle_selection)
                (if_property (ReturnsOr O P)
                  (target == s.atoms.targets && (prop.type == xa_atom && prop.format == 32))
                  (h prop e).0
                  (if_property (ReturnsOr O P)
                    (target == s.atoms.string && (prop.type == s.atoms.string && prop.format == 8))
                    (h prop e).1
                    (if_property (ReturnsOr O P)
                      (target == s.atoms.utf8_string
                        && (prop.type == s.atoms.utf8_string && prop.format == 8))
                      (h prop e).2 p)))
        ]
      ]

-- The property that is looked up has such memory.
abbrev pub Overread : Dix → List Sent → Atom → Type 0
Overread dix sent target =
    (prop : Property) × (dix.lookup_property sent target ≡ some prop) × Short prop

handle_selection-Untouched :
    (dix : Dix) (s : State) (target : Atom)
    → ReturnsOr (Overread dix s.sent target) (Untouched s) (handle_selection dix target s)
handle_selection-Untouched dix s target =
    handle_selection_cases dix s target (Overread dix s.sent target) (Untouched s)
      (Untouched-refl dix s)
      λ prop e. (
        handle_targets-Untouched dix s prop,
        handle_string-Untouched dix s prop,
        ReturnsOr-mono (Short prop) (Overread dix s.sent target) (Untouched s) (Untouched s)
            (handle_utf8_string prop s) (handle_utf8_string-Untouched dix s prop)
            (λ short. (prop, e, short)) (λ _ u. u),
      )

-- An event from a client comes to an end. Either it returns, and the atoms, the cached data, the
-- waiting requests, the owners of selections and the time are as they were; or it faults, and then
-- the property that it names ends less than four bytes behind its data.
pub proc_send_event-Untouched :
    (dix : Dix) (s : State) (client : ℕ) (is_notify : Bool)
    (requestor selection target property : ℕ)
    → ReturnsOr
        (Overread dix s.sent target)
        (Untouched s)
        (proc_send_event dix client is_notify requestor selection target property s)
unfolding proc_send_event
proc_send_event-Untouched dix s client is_notify requestor selection target property =
    ReturnsOr-bind (Overread dix s.sent target) (Untouched s) (Untouched s) _ _
      (if_property (ReturnsOr (Overread dix s.sent target) (Untouched s))
        (s.clipboard_enabled
          && (requestor == dix.root
              && (is_notify && (selection == s.atoms.clipboard && target == property))))
        (handle_selection-Untouched dix s target) (Untouched-refl dix s))
      λ s' u. ground arith
