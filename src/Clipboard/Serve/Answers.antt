-- ===== src/Clipboard/Serve/Answers.antt =====
-- The answers to the requests that wait, of `lorieHandleClipboardData` of clipboard.c.
use termux_x11_virtualkeys.Base.{
  ℕ, zero, suc, ◌≡◌, ◌+◌, ◌<◌, refl, not, ◌||◌, Option, some, List, [], ◌∷◌, ◌==◌, ok, length,
  Returns, subst, sym, Returns-bind, Returns-mono, arith, if_property,
}
use termux_x11_virtualkeys.Clipboard.Text.{utf8_to_latin1}
use termux_x11_virtualkeys.Clipboard.State.{
  Atom, no_atom, Failure, bad_match, bad_alloc, Status, success, failure, Selection, DataTarget,
  Event, selection_notify, Sent, to_client, Dix, State, get_attr, found, failed,
}
use termux_x11_virtualkeys.Clipboard.Serve.{
  change_and_notify, convert_data, convert_target, convert_selection, notify_failure, answer_loop,
  handle_clipboard_data,
}

-- The answers among what was sent, the newest first.
unfoldable pub notifies : List Sent → List (ℕ × Event)
notifies [] = []
notifies (to_client c (selection_notify t w s g p) ∷ sent) =
    (c, selection_notify t w s g p) ∷ notifies sent
notifies (_ ∷ sent) = notifies sent

-- The answer to a request, by the status of its conversion.
abbrev pub answer : DataTarget → Status → ℕ × Event
answer r success = (r.client, selection_notify r.time r.requestor r.selection r.target r.property)
answer r (failure _) = (r.client, selection_notify r.time r.requestor r.selection r.target no_atom)

-- `s'` is `s` with one more answer.
pub record Answered (r : DataTarget) (s : State) (result : Status × State) : Type 0 where
  pub notified : notifies (notify_failure r result).sent ≡ answer r result.0 ∷ notifies s.sent
  pub pending : (notify_failure r result).data_targets ≡ s.data_targets
  pub cached : (notify_failure r result).cached_data ≡ s.cached_data

module _ (dix : Dix) (r : DataTarget) (s : State) where
  pub Answered-failure : (e : Failure) → Answered r s (failure e, s)
  unfolding notifies
  Answered-failure e = record { notified = refl; pending = refl; cached = refl }

  pub change_and_notify-Answered :
      (type : Atom) (format : ℕ) (value : List ℕ)
      → Answered r s (change_and_notify dix r type format value s)
  unfolding change_and_notify notifies
  change_and_notify-Answered type format value = ground arith

  convert_data-Answered :
      (text latin1 : List ℕ)
      → utf8_to_latin1 text ≡ ok latin1
      → Returns (Answered r s) (convert_data dix r text s)
  unfolding convert_data
  convert_data-Answered text latin1 e = rw e (
      if_property (Returns (Answered r s)) (r.target == s.atoms.string || r.target == s.atoms.text)
        (if_property (Answered r s) (not (dix.allocates s.sent)) (Answered-failure bad_alloc)
          (change_and_notify-Answered _ _ _))
        (if_property (Returns (Answered r s)) (r.target == s.atoms.utf8_string)
          (change_and_notify-Answered _ _ _) (Answered-failure bad_match)))

  pub convert_target-Answered :
      (sel : Selection) (text latin1 : List ℕ)
      → utf8_to_latin1 text ≡ ok latin1
      → Returns (Answered r s) (convert_target dix r sel (some text) s)
  unfolding convert_target
  convert_target-Answered sel text latin1 e =
      if_property (Returns (Answered r s)) (r.target == s.atoms.targets)
        (change_and_notify-Answered _ _ _)
        (if_property (Returns (Answered r s)) (r.target == s.atoms.timestamp)
          (change_and_notify-Answered _ _ _) (convert_data-Answered text latin1 e))

-- The two lookups of `lorieConvertSelection` fail, or the request is converted.
pub convert_selection_cases :
    (dix : Dix) (r : DataTarget) (cached : Option (List ℕ)) (s : State)
    (P : Status × State → Type 0)
    → ((e : Failure) → P (failure e, s))
    → ((sel : Selection) → Returns P (convert_target dix r sel cached s))
    → Returns P (convert_selection dix r cached s)
unfolding convert_selection
convert_selection_cases dix r cached s P fails converts =
    elim (dix.lookup_selection s.sent s.selections r.selection r.client get_attr)
      as (λ l. Returns P (elim l [
        | failed e ↦ ok (failure e, s)
        | found sel ↦ elim (dix.lookup_window s.sent r.requestor r.client) [
          | success ↦ convert_target dix r sel cached s
          | failure e ↦ ok (failure e, s)
        ]
      ])) [
        | failed e ↦ fails e
        | found sel ↦
            elim (dix.lookup_window s.sent r.requestor r.client)
              as (λ w. Returns P (elim w [
                | success ↦ convert_target dix r sel cached s
                | failure e ↦ ok (failure e, s)
              ])) [ success ↦ converts sel | failure e ↦ fails e ]
      ]

pub convert_selection-Answered :
    (dix : Dix) (r : DataTarget) (s : State) (text latin1 : List ℕ)
    → utf8_to_latin1 text ≡ ok latin1
    → Returns (Answered r s) (convert_selection dix r (some text) s)
convert_selection-Answered dix r s text latin1 e =
    convert_selection_cases dix r (some text) s (Answered r s) (Answered-failure dix r s)
      (λ sel. convert_target-Answered dix r s sel text latin1 e)

-- `new` is `old` with an answer to each of the requests, in their order.
abbrev pub Answers : List DataTarget → List (ℕ × Event) → List (ℕ × Event) → Type 0
Answers [] old new = new ≡ old
Answers (r ∷ rs) old new = (status : Status) × Answers rs (answer r status ∷ old) new

-- What is left when all waiting requests are answered.
pub record Drained (text : List ℕ) (rs : List DataTarget) (old : List (ℕ × Event)) (s : State)
    : Type 0 where
  pub answered : Answers rs old (notifies s.sent)
  pub none_waits : s.data_targets ≡ []
  pub caches : s.cached_data ≡ some text

-- The state at the head of the loop.
abbrev loop_state : List ℕ → List DataTarget → State → State
loop_state text rs s = record s { data_targets = rs; cached_data = some text }

module _ (dix : Dix) (text latin1 : List ℕ) (converts : utf8_to_latin1 text ≡ ok latin1) where
  answer_loop-Drained :
      (fuel : ℕ) (rs : List DataTarget) (s : State)
      → length rs < fuel
      → Returns (Drained text rs (notifies s.sent)) (answer_loop dix fuel (loop_state text rs s))
  unfolding answer_loop
  answer_loop-Drained zero rs s h = absurd (omega arith)
  answer_loop-Drained (suc fuel) [] s h = record {
    answered = refl;
    none_waits = refl;
    caches = refl;
  }
  answer_loop-Drained (suc fuel) (r ∷ rs) s h =
      let t = loop_state text (r ∷ rs) s in
      Returns-bind (Answered r t) _ (convert_selection dix r (some text) t) _
        (convert_selection-Answered dix r t text latin1 converts)
        λ result a.
          let s' = notify_failure r result in
          rw a.pending (
            Returns-mono _ _ (answer_loop dix fuel (record s' { data_targets = rs }))
              (subst
                (λ c.
                  Returns (Drained text rs (notifies s'.sent))
                    (answer_loop dix fuel (record s' { data_targets = rs; cached_data = c })))
                (sym a.cached) (answer_loop-Drained fuel rs s' (omega arith)))
              λ u d. record {
                answered = (result.0, rw a.notified at d.answered);
                none_waits = d.none_waits;
                caches = d.caches;
              })

  -- When the data arrives, every request that waited is answered once, in order, with its own
  -- fields and with its property or `None`; none waits any longer, and the data is kept.
  pub handle_clipboard_data-Drained :
      (s : State)
      → Returns
          (Drained text s.data_targets (notifies s.sent))
          (handle_clipboard_data dix (some text) s)
  unfolding handle_clipboard_data
  handle_clipboard_data-Drained s =
      answer_loop-Drained (length s.data_targets + 1) s.data_targets s (omega arith)
