-- ===== src/Wire/History.antt =====
-- From the calls of Java in the activity to the calls in the server: what any history of the first
-- writes, and what the server's reader makes of it.
use termux_x11_virtualkeys.Wire.{Codec, IsCodec, Reader}
use termux_x11_virtualkeys.Wire.Framing.{Message, serialize_all, AllFramed, framed, no_more}
use termux_x11_virtualkeys.Wire.Delivery.{Delivered, poll, poll-Delivered}
use termux_x11_virtualkeys.Wire.Server.{fresh_mask, Handler, Setting, server_reader}
use termux_x11_virtualkeys.Wire.Activity.{
  ime_resets_of, Send, Locale, Link, messages, perform, perform_all,
}
use termux_x11_virtualkeys.Base.{
  Option, none, Returns-value, append-nil, append_assoc, ℕ, ◌+◌, some, List, [], ◌∷◌, ◌++◌, Run, ok,
  ◌>>=◌, Returns, Returns-mono, ◌≡◌, refl, ap, sym, ◌∙◌, arith,
}
use termux_x11_virtualkeys.Wire.Messages.{StaysInside, AllSafe, Framed, messages-Returns}

-- What the calls write, one behind the other.
unfoldable pub all_messages : {N : Type 0} → Locale → List (Send N) → Run (List (Message ℕ N))
all_messages l [] = ok []
all_messages l (s ∷ ss) = do ms ← messages l s; ns ← all_messages l ss; ok (ms ++ ns)

module _ {N : Type 0} where
  serialize_all-append :
      (c : Codec ℕ N) (ms ns : List (Message ℕ N))
      → serialize_all c (ms ++ ns) ≡ serialize_all c ms ++ serialize_all c ns
  unfolding serialize_all
  serialize_all-append c [] ns = refl
  serialize_all-append c (m ∷ ms) ns =
      ap (λ t. c.encode m.event ++ (m.extra ++ t)) (serialize_all-append c ms ns)
      ∙ ap (λ t. c.encode m.event ++ t)
          (sym (append_assoc m.extra (serialize_all c ms) (serialize_all c ns)))
      ∙ sym (append_assoc (c.encode m.event) (m.extra ++ serialize_all c ms) (serialize_all c ns))

  AllFramed-append :
      {S : Type 0} (r : Reader ℕ N S) (ms ns : List (Message ℕ N))
      → AllFramed r ms
      → AllFramed r ns
      → AllFramed r (ms ++ ns)
  AllFramed-append r [] ns no_more g = g
  AllFramed-append r (m ∷ ms) ns (framed f fs) g = framed f (AllFramed-append r ms ns fs g)

  module _ (setting : Setting N) (l : Locale) (c : Codec ℕ N) where
    -- The bytes written since are those of the messages, which the server's reader takes apart.
    abbrev pub Sent : List (Send N) → Link → Link → Type 0
    Sent ss link link' =
        (ms : List (Message ℕ N)) × (all_messages l ss ≡ ok ms)
        × (link'.sent ≡ link.sent ++ serialize_all c ms)
        × AllFramed (server_reader setting) ms

    -- The link after a call that wrote these messages.
    abbrev written : Send N → List (Message ℕ N) → Link → Link
    written s ms link = record link {
      sent = link.sent ++ serialize_all c ms;
      ime_resets = link.ime_resets + ime_resets_of l s;
    }

    perform_connected :
        (fd : ℕ) (s : Send N) (ms : List (Message ℕ N)) (link : Link)
        → link.conn_fd ≡ some fd
        → messages l s ≡ ok ms
        → perform l c s link ≡ ok (written s ms link)
    unfolding perform
    perform_connected fd s ms link e q = ap (λ o. go o) e ∙ rw q refl
      where
        go : Option ℕ → Run Link
        go none = ok link
        go (some fd) = messages l s >>= (λ ns. ok (written s ns link))

    perform_all-Sent :
        StaysInside l
        → (fd : ℕ) (ss : List (Send N)) (link : Link) → link.conn_fd ≡ some fd
        → AllSafe ss
        → Returns (Sent ss link) (perform_all l c ss link)
    unfolding perform_all all_messages serialize_all
    perform_all-Sent inside fd [] link e safe = ([], refl, sym (append-nil link.sent), no_more)
    perform_all-Sent inside fd (s ∷ ss) link e (h, safe) =
        let (ms, q, f) =
          Returns-value (Framed setting) (messages l s) (messages-Returns setting l inside s h) in
        let link' = written s ms link in
        rw (perform_connected fd s ms link e q) (
          Returns-mono (Sent ss link') (Sent (s ∷ ss) link) (perform_all l c ss link')
            (perform_all-Sent inside fd ss link' e safe)
            (λ link'' (ns, r, t, g). (
              ms ++ ns,
              rw (q, r) refl,
              t
                  ∙ append_assoc link.sent (serialize_all c ms) (serialize_all c ns)
                  ∙ ap (λ u. link.sent ++ u) (sym (serialize_all-append c ms ns)),
              AllFramed-append (server_reader setting) ms ns f g,
            )))

    -- Whatever calls Java makes on a new connection, they return, and the server, whose reader is
    -- called while something is there to read, handles exactly the messages of these calls, each
    -- once and in their order: where events are read as they were written, in `sizeof` bytes each,
    -- a text of the clipboard is shorter than 4 gigabytes, a key is in the table and `mbrtowc`
    -- takes no more bytes than there are.
    pub perform_all-Delivered :
        IsCodec c
        → StaysInside l
        → (fd : ℕ) (ss : List (Send N)) (link : Link) (h : Handler N) → link.conn_fd ≡ some fd
        → link.sent ≡ []
        → AllSafe ss
        → Returns
            (λ (link' : Link).
              (ms : List (Message ℕ N)) × (all_messages l ss ≡ ok ms)
              × Delivered c
                  (server_reader setting)
                  fresh_mask
                  ms
                  h
                  (poll c (server_reader setting) fresh_mask 2 link'.sent h))
            (perform_all l c ss link)
    perform_all-Delivered law inside fd ss link h e z safe =
        Returns-mono (Sent ss link) _ (perform_all l c ss link)
          (perform_all-Sent inside fd ss link e safe)
          (λ link' (ms, q, t, f). (
            ms,
            q,
            rw (t, z)
                (poll-Delivered c (server_reader setting) fresh_mask law ms 2 h (omega arith) f),
          ))
