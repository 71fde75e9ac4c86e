-- ===== src/Clipboard/Steps/Invariant.antt =====
-- Histories of the calls of clipboard.c: which requests wait, and what is cached.
use termux_x11_virtualkeys.Base.{
  ℕ, Option, ◌≡◌, ◌⊎◌, inl, inr, refl, List, [], ◌∷◌, Returns-bind, Returns-mono, ReturnsOr,
  ReturnsOr-bind, ReturnsOr-mono, Returns-ReturnsOr, map, ◌++◌, ◌<◌, ◌^◌, length, none, some, subst,
  sym, ap, ◌∙◌, All,
}
use termux_x11_virtualkeys.Clipboard.State.{Atom, Sent, DataTarget, Dix, State, Event, Status}
use termux_x11_virtualkeys.Clipboard.Text.{utf8_to_latin1, latin1_byte}
use termux_x11_virtualkeys.Clipboard.Text.Encode.{encode_all}
use termux_x11_virtualkeys.Clipboard.Text.Latin1.{IsText, utf8_to_latin1-encode_all}
use termux_x11_virtualkeys.Clipboard.Receive.{enable_clipboard_sync, proc_send_event}
use termux_x11_virtualkeys.Clipboard.Receive.Untouched.{
  Untouched, Overread, selection_callback-Untouched, proc_send_event-Untouched,
}
use termux_x11_virtualkeys.Clipboard.Serve.{
  notify_failure, proc_convert_selection, handle_clipboard_data,
}
use termux_x11_virtualkeys.Clipboard.Serve.Answers.{Drained, handle_clipboard_data-Drained}
use termux_x11_virtualkeys.Clipboard.Serve.Requests.{
  Convertible, Outcome, answered, waits, proc_convert_selection_cases,
}
use termux_x11_virtualkeys.Clipboard.Serve.Ownership.{handle_clipboard_announce-kept}
use termux_x11_virtualkeys.Clipboard.Steps.{
  Call, enables, converts, sends_event, owner_changes, announces, brings, step, run,
}

-- The UTF-8 of a text without NUL that is shorter than a gigabyte, with a NUL behind it.
abbrev pub Utf8 : Option (List ℕ) → Type 0
Utf8 none = Unit
Utf8 (some text) =
    (us : List ℕ) × All IsText us × (length us < 2 ^ 30) × (text ≡ encode_all us ++ 0 ∷ [])

Utf8-Convertible : (cached : Option (List ℕ)) → Utf8 cached → Convertible cached
Utf8-Convertible none u = tt
Utf8-Convertible (some text) (us, h, small, e) =
    (map latin1_byte us, ap utf8_to_latin1 e ∙ utf8_to_latin1-encode_all us [] h small)

-- A request waits only while no data is cached, and cached data is such a text.
pub record Inv (s : State) : Type 0 where
  pub utf8 : Utf8 s.cached_data
  pub waiting : (s.cached_data ≡ none) ⊎ (s.data_targets ≡ [])

Inv-kept :
    {s s' : State}
    → s'.cached_data ≡ s.cached_data
    → s'.data_targets ≡ s.data_targets
    → Inv s
    → Inv s'
Inv-kept {s} c t v = record { utf8 = subst Utf8 (sym c) v.utf8; waiting = rw (c, t) v.waiting }

Inv-none : {s : State} → s.cached_data ≡ none → Inv s
Inv-none c = record { utf8 = subst Utf8 (sym c) tt; waiting = inl c }

Inv-Outcome :
    (r : DataTarget) (s : State) (result : Status × State)
    → Inv s
    → Outcome r s result
    → Inv (notify_failure r result)
Inv-Outcome r s result v (answered a) = Inv-kept a.cached a.pending v
Inv-Outcome r s result v (waits e c t) = Inv-none (ap (λ p. (notify_failure r p).cached_data) e ∙ c)

-- What Android brings is such a text.
abbrev pub Admissible : Call → Type 0
Admissible (brings text) = Utf8 (some text)
Admissible (enables b) = Unit
Admissible (converts r) = Unit
Admissible (sends_event c n w sel t p) = Unit
Admissible (owner_changes sel b) = Unit
Admissible announces = Unit

Inv-Untouched : {s s' : State} → Inv s → Untouched s s' → Inv s'
Inv-Untouched v u = Inv-kept u.cached_data u.data_targets v

Inv-Drained :
    {text : List ℕ} {rs : List DataTarget} {old : List (ℕ × Event)} {s : State}
    → Utf8 (some text)
    → Drained text rs old s
    → Inv s
Inv-Drained c d = record { utf8 = subst Utf8 (sym d.caches) c; waiting = inr d.none_waits }

-- Some property ends less than four bytes behind its data.
abbrev pub SomeShort : Dix → Type 0
SomeShort dix = (sent : List Sent) × (target : Atom) × Overread dix sent target

step-Inv :
    (dix : Dix) (c : Call) (s : State)
    → Admissible c
    → Inv s
    → ReturnsOr (SomeShort dix) Inv (step dix c s)
unfolding step
step-Inv dix (enables b) s h v = unfold enable_clipboard_sync in Inv-kept refl refl v
step-Inv dix (converts r) s h v = Returns-ReturnsOr (SomeShort dix) Inv _ (
    Returns-bind (λ result. Inv result.1) Inv (proc_convert_selection dix r s) _
      (proc_convert_selection_cases dix r s (λ result. Inv result.1)
        (Utf8-Convertible s.cached_data v.utf8) (λ e. v) (Inv-kept refl refl v)
        (Inv-kept refl refl v) (λ result o. Inv-Outcome r s result v o))
      (λ result w. w))
step-Inv dix (sends_event c n w sel t p) s h v =
    ReturnsOr-mono (Overread dix s.sent t) (SomeShort dix) (Untouched s) Inv
      (proc_send_event dix c n w sel t p s) (proc_send_event-Untouched dix s c n w sel t p)
      (λ o. (s.sent, t, o)) (λ s' u. Inv-Untouched v u)
step-Inv dix (owner_changes sel b) s h v =
    Inv-Untouched v (selection_callback-Untouched dix s sel b)
step-Inv dix announces s h v = Inv-none (handle_clipboard_announce-kept dix s).0
step-Inv dix (brings text) s h v =
    let (latin1, e) = Utf8-Convertible (some text) h in
    Returns-ReturnsOr (SomeShort dix) Inv _ (
      Returns-mono _ Inv (handle_clipboard_data dix (some text) s)
        (handle_clipboard_data-Drained dix text latin1 e s) (λ s' d. Inv-Drained h d))

-- Where Android brings UTF-8 without NUL, shorter than a gigabyte, with a NUL behind it, every
-- history of clipboard calls, from a state in which a request waits only while no data is cached
-- and what is cached is such a text, comes to an end. Either it returns, and then again a request
-- waits only while no data is cached, and what is cached is such a text; or it faults, and then
-- some property ends less than four bytes behind its data.
pub run-Inv :
    (dix : Dix) (calls : List Call) (s : State)
    → All Admissible calls
    → Inv s
    → ReturnsOr (SomeShort dix) Inv (run dix calls s)
unfolding run
run-Inv dix [] s h v = v
run-Inv dix (c ∷ calls) s h v =
    ReturnsOr-bind (SomeShort dix) Inv Inv (step dix c s) (run dix calls) (step-Inv dix c s h.0 v)
      λ s' v'. run-Inv dix calls s' h.1 v'
