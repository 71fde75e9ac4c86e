-- ===== src/Clipboard/Serve/Requests.antt =====
-- A request to the owner of the clipboard, while this server owns it.
use termux_x11_virtualkeys.Base.{
  ℕ, ◌≡◌, refl, true, not, ◌&&◌, Option, none, some, List, ◌∷◌, ◌==◌, ok, ◌>>=◌, Returns,
  Returns-bind, Returns-mono, inl, inr, if_property, Bool-cases,
}
use termux_x11_virtualkeys.Connection.{request_clipboard}
use termux_x11_virtualkeys.Clipboard.Text.{utf8_to_latin1}
use termux_x11_virtualkeys.Clipboard.State.{
  Failure, bad_match, bad_alloc, bad_atom, Status, success, failure, Selection, DataTarget, read,
  found, failed, Dix, State, Lookup, send, error_value,
}
use termux_x11_virtualkeys.Clipboard.Serve.{
  enqueue, convert_target, convert_selection, notify_failure, proc_convert_selection, params_okay,
  forward, is_text_target,
}
use termux_x11_virtualkeys.Clipboard.Serve.Answers.{
  notifies, answer, Answered, Answered-failure, change_and_notify-Answered, convert_target-Answered,
  convert_selection_cases,
}

-- The text can be converted; of no text nothing is asked.
abbrev pub Convertible : Option (List ℕ) → Type 0
Convertible none = Unit
Convertible (some text) = (latin1 : List ℕ) × (utf8_to_latin1 text ≡ ok latin1)

-- The state in which the request waits for Android's data.
abbrev pub waiting : DataTarget → State → State
waiting r s = record s {
  data_targets = r ∷ s.data_targets;
  connection = request_clipboard s.connection;
}

-- Either the request is answered now, or it waits, with no data at hand and a text asked for.
pub data Outcome (r : DataTarget) (s : State) (result : Status × State) : Type 0 where
  answered : Answered r s result → Outcome r s result
  waits :
      result ≡ (success, waiting r s)
      → s.cached_data ≡ none
      → is_text_target s r.target ≡ true
      → Outcome r s result

module _ (dix : Dix) (r : DataTarget) (s : State) where
  enqueue-Outcome : s.cached_data ≡ none → Outcome r s (enqueue dix r s)
  unfolding enqueue
  enqueue-Outcome c = elim (Bool-cases (is_text_target s r.target)) [
    | inr no_text ↦ rw no_text (answered (Answered-failure dix r s bad_match))
    | inl text ↦ rw text (
        if_property (Outcome r s) (not (dix.allocates s.sent))
          (answered (Answered-failure dix r s bad_alloc)) (waits refl c text))
  ]

  convert_target-Outcome :
      (sel : Selection) (cached : Option (List ℕ))
      → s.cached_data ≡ cached
      → Convertible cached
      → Returns (Outcome r s) (convert_target dix r sel cached s)
  convert_target-Outcome sel (some text) c (latin1, e) =
      Returns-mono (Answered r s) (Outcome r s) (convert_target dix r sel (some text) s)
        (convert_target-Answered dix r s sel text latin1 e) (λ _. answered)
  convert_target-Outcome sel none c _ =
      unfold convert_target in
      if_property (Returns (Outcome r s)) (r.target == s.atoms.targets)
        (answered (change_and_notify-Answered dix r s _ _ _))
        (if_property (Returns (Outcome r s)) (r.target == s.atoms.timestamp)
          (answered (change_and_notify-Answered dix r s _ _ _)) (enqueue-Outcome c))

  -- What `lorieProcConvertSelection` comes to.
  pub proc_convert_selection_cases :
      (P : Status × State → Type 0)
      → Convertible s.cached_data
      → ((e : Failure) → P (failure e, s))
      → P (failure bad_atom, send (error_value r.client r.property) s)
      → P (forward dix r s)
      → ((result : Status × State) → Outcome r s result → P (success, notify_failure r result))
      → Returns P (proc_convert_selection dix r s)
  unfolding proc_convert_selection
  proc_convert_selection_cases P c fails bad forwards serves =
      window (dix.lookup_window s.sent r.requestor r.client) refl
    where
      serve : Returns P (
          convert_selection dix r s.cached_data s >>= λ result.
          ok (success, notify_failure r result))
      serve =
          Returns-bind (Outcome r s) P (convert_selection dix r s.cached_data s) _
            (convert_selection_cases dix r s.cached_data s (Outcome r s)
              (λ e. answered (Answered-failure dix r s e))
              (λ sel. convert_target-Outcome sel s.cached_data refl c))
            serves

      owner :
          (l : Lookup)
          → dix.lookup_selection s.sent s.selections r.selection r.client read ≡ l
          → dix.lookup_window s.sent r.requestor r.client ≡ success
          → params_okay dix r ≡ true
          → Returns P (proc_convert_selection dix r s)
      owner (failed e) le we okay = rw (we, okay, le, proc_convert_selection) forwards
      owner (found sel) le we okay =
          rw (we, okay, le, proc_convert_selection)
            (if_property (Returns P) (sel.client == dix.server_client && sel.window == dix.root)
              serve forwards)

      window :
          (w : Status)
          → dix.lookup_window s.sent r.requestor r.client ≡ w
          → Returns P (proc_convert_selection dix r s)
      window (failure e) we = rw (we, proc_convert_selection) (fails e)
      window success we = elim (Bool-cases (params_okay dix r)) [
        | inr wrong ↦ rw (we, wrong, proc_convert_selection) bad
        | inl okay ↦
            owner (dix.lookup_selection s.sent s.selections r.selection r.client read) refl we okay
      ]

  -- The request is a good one, and asks for what this server owns.
  pub record Owned : Type 0 where
    pub owner : Selection
    pub window_exists : dix.lookup_window s.sent r.requestor r.client ≡ success
    pub good_atoms : params_okay dix r ≡ true
    pub looked_up : dix.lookup_selection s.sent s.selections r.selection r.client read ≡ found owner
    pub is_server : owner.client ≡ dix.server_client
    pub is_root : owner.window ≡ dix.root

-- What becomes of the request in the end.
pub data Settled (r : DataTarget) (s s' : State) : Type 0 where
  answered_now :
      (status : Status)
      → notifies s'.sent ≡ answer r status ∷ notifies s.sent
      → s'.data_targets ≡ s.data_targets
      → s'.cached_data ≡ s.cached_data
      → Settled r s s'
  waits_for_data :
      s' ≡ waiting r s → s.cached_data ≡ none → is_text_target s r.target ≡ true → Settled r s s'
