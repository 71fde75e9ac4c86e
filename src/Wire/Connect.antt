-- ===== src/Wire/Connect.antt =====
-- `requestConnection` of activity.c: the attempt to reach the server, by which it is asked to connect.
use termux_x11_virtualkeys.Base.{
  ap, ℕ, ◌==◌, ◌&&◌, Bool, true, false, Option, none, some, List, [], ◌∷◌, ◌≡◌, refl, arith,
}

-- What `connect` gives: 0, EINPROGRESS, or another error.
pub data Connecting : Type 0 where
  at_once in_progress refused : Connecting

-- What `poll` gives within 20 milliseconds.
pub data Polled : Type 0 where
  timed_out failed ready : Polled

-- The answers of the system; `so_error` is none where `getsockopt` fails.
pub record Network : Type 0 where
  pub socket : Option ℕ
  pub set_nonblocking : Bool
  pub connect : Connecting
  pub poll : Polled
  pub so_error : Option ℕ
  pub writes : Bool

-- Whether the magic bytes were sent, and the sockets that were closed.
pub record Attempt : Type 0 where
  pub sent : Bool
  pub closed : List ℕ

-- The label `end`.
abbrev pub end_attempt : ℕ → Bool → Attempt
end_attempt sock sent = record { sent = sent; closed = sock ∷ [] }

abbrev pub after_poll : (so_error : Option ℕ) → (writes : Bool) → Bool
after_poll none writes = false
after_poll (some e) writes = e == 0 && writes

abbrev pub is_sent : Connecting → Polled → (so_error : Option ℕ) → (writes : Bool) → Bool
is_sent in_progress ready e writes = after_poll e writes
is_sent in_progress timed_out e writes = false
is_sent in_progress failed e writes = false
is_sent at_once p e writes = false
is_sent refused p e writes = false

abbrev pub attempt_on : Network → Option ℕ → Attempt
attempt_on n none = record { sent = false; closed = [] }
attempt_on n (some sock) =
    end_attempt sock (n.set_nonblocking && is_sent n.connect n.poll n.so_error n.writes)

-- `requestConnection`.
unfoldable pub request_connection : Network → Attempt
request_connection n = attempt_on n n.socket

-- Where the magic bytes are sent, the connection was in progress at first, was made within the time
-- without an error, and took the bytes; a connection that is made at once is given up.
pub request_connection_sent :
    (n : Network)
    → (request_connection n).sent ≡ true
    → (n.connect ≡ in_progress) × (n.poll ≡ ready) × (n.so_error ≡ some 0) × (n.writes ≡ true)
unfolding request_connection
request_connection_sent n = go n.socket n.set_nonblocking n.connect n.poll n.so_error n.writes
  where
    go :
        (o : Option ℕ) (b : Bool) (c : Connecting) (p : Polled) (e : Option ℕ) (w : Bool)
        → (attempt_on
            (record {
              socket = o;
              set_nonblocking = b;
              connect = c;
              poll = p;
              so_error = e;
              writes = w;
            })
            o).sent
          ≡ true
        → (c ≡ in_progress) × (p ≡ ready) × (e ≡ some 0) × (w ≡ true)
    go none b c p e w h = ground (arith, h)
    go (some s) false c p e w h = ground (arith, h)
    go (some s) true at_once p e w h = ground (arith, h)
    go (some s) true refused p e w h = ground (arith, h)
    go (some s) true in_progress timed_out e w h = ground (arith, h)
    go (some s) true in_progress failed e w h = ground (arith, h)
    go (some s) true in_progress ready none w h = ground (arith, h)
    go (some s) true in_progress ready (some k) w h =
        (refl, refl, ap some (ground (arith, h)), ground (arith, h))
