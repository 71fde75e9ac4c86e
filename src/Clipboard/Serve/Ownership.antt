-- ===== src/Clipboard/Serve/Ownership.antt =====
-- `lorieOwnSelection`: who owns a selection after it.
use termux_x11_virtualkeys.Base.{
  ℕ, ◌≡◌, ◌≢◌, ◌⊎◌, inl, inr, refl, List, [], ◌∷◌, ◌==◌, Option, none, some, ◌∙◌, ap, arith, Bool,
  true, if◌then◌else◌, Bool-cases,
}
use mathlib.Core.Option
use termux_x11_virtualkeys.Clipboard.State.{
  Atom, Sent, Selection, to_client, selection_clear, Access, Lookup, found, failed, bad_match,
  bad_alloc, bad_atom, other_error, Failure, Status, success, failure, set_attr, Dix, State,
}
use termux_x11_virtualkeys.Clipboard.Receive.{selection_callback, selection_request_to_owner}
use termux_x11_virtualkeys.Clipboard.Receive.Untouched.{selection_callback-Untouched}
use termux_x11_virtualkeys.Clipboard.Serve.{
  own, clear_owner, grab, own_selection, handle_clipboard_announce,
}

-- The selection of that name.
unfoldable pub find : Atom → List Selection → Option Selection
find a [] = none
find a (sel ∷ rest) = if sel.selection == a then some sel else find a rest

-- A selection as this server owns it.
abbrev pub owned : Dix → ℕ → Selection → Selection
owned dix now sel = record sel {
  window = dix.root;
  client = dix.server_client;
  last_time_changed = now;
}

find-own :
    (dix : Dix) (now : ℕ) (a b : Atom) (sels : List Selection)
    → find b (own dix now a sels)
      ≡ (if a == b then Option.map (owned dix now) (find b sels) else find b sels)
unfolding find own
find-own dix now a b [] = ground arith
find-own dix now a b (sel ∷ rest) = ground (arith, find-own dix now a b rest)

-- The documented answer of `dixLookupSelection`: the selection of that name, or `BadMatch` where
-- there is none.
abbrev pub Lawful : Dix → Type 0
Lawful dix =
    (sent : List Sent) (sels : List Selection) (a : Atom) (client : ℕ) (access : Access)
    → ((sel : Selection)
        → dix.lookup_selection sent sels a client access ≡ found sel
        → find a sels ≡ some sel)
      × (dix.lookup_selection sent sels a client access ≡ failed bad_match → find a sels ≡ none)

-- This server owns the selection, and other selections are as they were.
pub record Taken (dix : Dix) (a : Atom) (s s' : State) : Type 0 where
  pub owner : Selection
  pub is_there : find a s'.selections ≡ some owner
  pub is_server : owner.client ≡ dix.server_client
  pub is_root : owner.window ≡ dix.root
  pub is_now : owner.last_time_changed ≡ s.current_time
  pub others : (b : Atom) → a ≢ b → find b s'.selections ≡ find b s.selections

grab-Taken :
    (dix : Dix) (a : Atom) (s t : State) (sel : Selection)
    → t.current_time ≡ s.current_time
    → find a t.selections ≡ some sel
    → ((b : Atom) → a ≢ b → find b t.selections ≡ find b s.selections)
    → Taken dix a s (grab dix a t)
unfolding grab
grab-Taken dix a s t sel now here same =
    let kept =
      (selection_callback-Untouched dix
        (record t { selections = own dix t.current_time a t.selections }) a true).selections in
    record {
      owner = owned dix t.current_time sel;
      is_there = rw (kept, find-own dix t.current_time a a t.selections, here) (ground arith);
      is_server = refl;
      is_root = refl;
      is_now = now;
      others = λ b ne.
          rw (kept, find-own dix t.current_time a b t.selections) (ground (arith, same b ne));
    }

-- The event is among what was sent.
abbrev pub Occurs : Sent → List Sent → Type 0
Occurs e [] = ⊥
Occurs e (x ∷ sent) = (x ≡ e) ⊎ Occurs e sent

Occurs-selection_callback :
    (dix : Dix) (e : Sent) (a : Atom) (b : Bool) (t : State)
    → Occurs e t.sent
    → Occurs e (selection_callback dix a b t).sent
unfolding selection_callback selection_request_to_owner
Occurs-selection_callback dix e a b t h = ground arith

-- What the last owner is told, if it is a client and not this server.
abbrev pub farewell : State → Selection → Sent
farewell s old = to_client old.client (selection_clear s.current_time old.window old.selection)

-- `lorieOwnSelection` in all cases.
pub data Owning (dix : Dix) (a : Atom) (s : State) (result : Status × State) : Type 0 where
  took :
      result.0 ≡ success
      → Taken dix a s result.1
      → ((old : Selection)
          → find a s.selections ≡ some old
          → old.client ≢ 0
          → old.client ≢ dix.server_client
          → Occurs (farewell s old) (result.1).sent)
      → Owning dix a s result
  failed_and_unchanged : (e : Failure) → result ≡ (failure e, s) → Owning dix a s result

clear_owner-kept :
    (dix : Dix) (s : State) (old : Selection)
    → ((clear_owner dix old s).selections ≡ s.selections)
      × ((clear_owner dix old s).current_time ≡ s.current_time)
      × ((clear_owner dix old s).cached_data ≡ s.cached_data)
      × ((clear_owner dix old s).data_targets ≡ s.data_targets)
unfolding clear_owner
clear_owner-kept dix s old = ground arith

clear_owner-Occurs :
    (dix : Dix) (s : State) (old : Selection)
    → old.client ≢ 0
    → old.client ≢ dix.server_client
    → Occurs (farewell s old) (clear_owner dix old s).sent
unfolding clear_owner
clear_owner-Occurs dix s old ne other = ground arith

grab-Occurs :
    (dix : Dix) (a : Atom) (t : State) (e : Sent) → Occurs e t.sent → Occurs e (grab dix a t).sent
unfolding grab
grab-Occurs dix a t e h = Occurs-selection_callback dix e a true _ h

-- A fresh selection of that name, before this server owns it.
abbrev blank : Atom → Selection
blank a = record { selection = a; window = 0; client = 0; last_time_changed = 0 }

module _ (dix : Dix) (lawful : Lawful dix) (a : Atom) (s : State) where
  Owning-found :
      (old : Selection)
      → find a s.selections ≡ some old
      → Owning dix a s (success, grab dix a (clear_owner dix old s))
  Owning-found old here =
      let kept = clear_owner-kept dix s old in
      took refl
        (grab-Taken dix a s (clear_owner dix old s) old kept.1 (ap (find a) kept.0 ∙ here)
          (λ b ne. ap (find b) kept.0))
        λ old' here' ne other.
          let same : old ≡ old' = cc in
          grab-Occurs dix a (clear_owner dix old s) _
            (rw (← same) (clear_owner-Occurs dix s old (rw same ne) (rw same other)))

  Owning-new :
      find a s.selections ≡ none
      → Owning dix a s (success, grab dix a (record s { selections = blank a ∷ s.selections }))
  Owning-new absent =
      took refl
        (grab-Taken dix a s (record s { selections = blank a ∷ s.selections }) (blank a) refl
          (unfold find in ground arith) (λ b ne. unfold find in ground arith))
        (λ old here. cc)

  Owning-absent :
      (c : Status)
      → dix.create_access s.sent a ≡ c
      → dix.lookup_selection s.sent s.selections a dix.server_client set_attr ≡ failed bad_match
      → Owning dix a s (own_selection dix a s)
  unfolding own_selection
  Owning-absent c e l = elim (Bool-cases (dix.allocates s.sent)) [
    | inr full ↦ rw (l, full, own_selection) (failed_and_unchanged bad_alloc refl)
    | inl room ↦ granted c e room
  ]
    where
      granted :
          (c : Status)
          → dix.create_access s.sent a ≡ c
          → dix.allocates s.sent ≡ true
          → Owning dix a s (own_selection dix a s)
      granted success e room =
          rw (l, room, e, own_selection)
            (Owning-new ((lawful s.sent s.selections a dix.server_client set_attr).1 l))
      granted (failure f) e room = rw (l, room, e, own_selection) (failed_and_unchanged f refl)

  own_selection_cases :
      (l : Lookup)
      → dix.lookup_selection s.sent s.selections a dix.server_client set_attr ≡ l
      → Owning dix a s (own_selection dix a s)
  unfolding own_selection
  own_selection_cases (found old) e =
      rw (e, own_selection)
        (Owning-found old ((lawful s.sent s.selections a dix.server_client set_attr).0 old e))
  own_selection_cases (failed bad_match) e = Owning-absent (dix.create_access s.sent a) refl e
  own_selection_cases (failed bad_alloc) e =
      rw (e, own_selection) (failed_and_unchanged bad_alloc refl)
  own_selection_cases (failed bad_atom) e =
      rw (e, own_selection) (failed_and_unchanged bad_atom refl)
  own_selection_cases (failed (other_error n)) e =
      rw (e, own_selection) (failed_and_unchanged (other_error n) refl)

-- `lorieOwnSelection` makes this server the owner of the selection, on its root window and from
-- now on, whether the selection was there or not; it leaves every other selection as it was, and
-- sends a client that owned the selection its `SelectionClear`. Where it fails, nothing changes.
pub own_selection-Owning :
    (dix : Dix) (a : Atom) (s : State) → Lawful dix → Owning dix a s (own_selection dix a s)
own_selection-Owning dix a s lawful = own_selection_cases dix lawful a s _ refl

grab-kept :
    (dix : Dix) (a : Atom) (t : State)
    → ((grab dix a t).cached_data ≡ t.cached_data) × ((grab dix a t).data_targets ≡ t.data_targets)
unfolding grab
grab-kept dix a t =
    let u =
      selection_callback-Untouched dix
        (record t { selections = own dix t.current_time a t.selections }) a true in
    (u.cached_data, u.data_targets)

own_selection-kept :
    (dix : Dix) (a : Atom) (s : State)
    → ((own_selection dix a s).1.cached_data ≡ s.cached_data)
      × ((own_selection dix a s).1.data_targets ≡ s.data_targets)
unfolding own_selection
own_selection-kept dix a s = grind (arith, grab-kept, clear_owner-kept)

-- `lorieHandleClipboardAnnounce` drops the cached data, and keeps the requests that wait.
pub handle_clipboard_announce-kept :
    (dix : Dix) (s : State)
    → ((handle_clipboard_announce dix s).cached_data ≡ none)
      × ((handle_clipboard_announce dix s).data_targets ≡ s.data_targets)
unfolding handle_clipboard_announce
handle_clipboard_announce-kept dix s =
    own_selection-kept dix s.atoms.clipboard (record s { cached_data = none })
