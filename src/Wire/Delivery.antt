-- ===== src/Wire/Delivery.antt =====
-- A reader that is called for as long as there is something to read, on any bytes and on whole messages.
use termux_x11_virtualkeys.Wire.{LorieEvent, Codec, IsCodec, Reader, again}
use termux_x11_virtualkeys.Wire.Framing.{
  Message, serialize_all, AllFramed, IsFramed, again_step, none_less, framed, handle_messages,
  Handled, handled, again-Handled, length-serialize_all, leb_of, length-encode_append,
}
use termux_x11_virtualkeys.Base.{
  append-nil, ℕ, zero, suc, ◌-◌, ◌≤◌, ◌<◌, List, [], ◌∷◌, ◌++◌, ltb, length, take, drop, Run, ok,
  out_of_fuel, ◌>>=◌, Returns, Returns-mono, Returns-bind, ◌≡◌, refl, arith, Bool-cases, inl, inr,
  length-drop, subst, ap,
}

AllFramed-last :
    {B N S : Type 0} {r : Reader B N S} (ms : List (Message B N)) (last : Message B N)
    → AllFramed r (ms ++ (last ∷ []))
    → IsFramed r last
AllFramed-last [] last (framed g f) = g
AllFramed-last (m ∷ ms) last (framed g f) = AllFramed-last ms last f

module _ {B N S : Type 0} (c : Codec B N) (r : Reader B N S) (begin : S → S) where
  -- A call of the reader, which sets its local variables first; each round of its loop takes a byte.
  unfoldable pub call : List B → S → Run (S × List B)
  call s state = again c r (suc (length s)) s (begin state)

  -- The reader is called while a byte is there, at most so many times.
  unfoldable pub poll : ℕ → List B → S → Run S
  poll calls [] state = ok state
  poll zero (b ∷ s) state = out_of_fuel
  poll (suc calls) (b ∷ s) state = call (b ∷ s) state >>= (λ p. poll calls p.1 p.0)

  poll_end : (calls : ℕ) (state : S) → poll calls [] state ≡ ok state
  unfolding poll
  poll_end zero state = refl
  poll_end (suc calls) state = refl

  -- What a handler leaves is no longer than what it found.
  abbrev pub Shrinks : Type 0
  Shrinks = (e : LorieEvent N) (s : List B) → length ((r.behind e s).1) ≤ length s

  -- No more than so many bytes are left.
  abbrev AtMost : ℕ → S × List B → Type 0
  AtMost n p = length p.1 ≤ n

  -- A call of the loop ends, and takes a byte at least where there is one.
  again-Returns :
      IsCodec c
      → Shrinks
      → (fuel : ℕ) (s : List B) (state : S) → length s < fuel
      → Returns (AtMost (length s - 1)) (again c r fuel s state)
  unfolding again
  again-Returns law sh zero s state h = absurd (omega (arith, h))
  again-Returns law sh (suc fuel) s state h =
      let e = c.decode (take c.size s) in
      let bound = sh e (drop c.size s) in
      let dropped = length-drop c.size s in
      let positive = law.size_positive in
      let rest = (r.behind e (drop c.size s)).1 in
      let state' = r.handle e ((r.behind e (drop c.size s)).0) state in
      elim (Bool-cases (ltb (length s) c.size)) [
        | inl y ↦ rw y (omega (arith, dropped, positive))
        | inr y ↦ rw y (elim (Bool-cases (ltb c.size (length rest))) [
          | inl z ↦ rw z (
              Returns-mono (AtMost (length rest - 1)) (AtMost (length s - 1))
                (again c r fuel rest state')
                (again-Returns law sh fuel rest state'
                  (omega (arith, bound, dropped, positive, h, leb_of (length s) c.size y)))
                (λ p q. omega (arith, q, bound, dropped)))
          | inr z ↦ rw z (omega (arith, bound, dropped, positive))
        ])
      ]

  -- Whatever the bytes are, the reader comes to an end of them with one call for each at most,
  -- where an event takes a byte at least and its handler does not leave more than it found.
  pub poll-Returns :
      IsCodec c
      → Shrinks
      → (calls : ℕ) (s : List B) (state : S) → length s ≤ calls
      → Returns (λ (q : S). Unit) (poll calls s state)
  unfolding poll call
  poll-Returns law sh calls [] state h = tt
  poll-Returns law sh zero (b ∷ s) state h = absurd (omega (arith, h))
  poll-Returns law sh (suc calls) (b ∷ s) state h =
      Returns-bind (AtMost (length (b ∷ s) - 1)) (λ (q : S). Unit)
        (again c r (suc (suc (length s))) (b ∷ s) (begin state)) (λ p. poll calls p.1 p.0)
        (again-Returns law sh (suc (suc (length s))) (b ∷ s) (begin state) (omega arith))
        (λ p q. poll-Returns law sh calls p.1 p.0 (omega (arith, q, h)))

  -- How messages reach the handler: in one call, or in one and for the last of them another.
  pub data Delivered (ms : List (Message B N)) (state : S) : Run S → Type 0 where
    nothing : ms ≡ [] → Delivered ms state (ok state)
    at_once :
        (done : List (Message B N))
        → ms ≡ done
        → Delivered ms state (ok (handle_messages r done (begin state)))
    and_last :
        (done : List (Message B N)) (last : Message B N)
        → ms ≡ done ++ (last ∷ [])
        → Delivered ms state
            (ok (handle_messages r (last ∷ []) (begin (handle_messages r done (begin state)))))

  -- A call with something to read is a call of the reader.
  poll-call :
      (calls : ℕ) (s : List B) (state : S)
      → 0 < length s
      → poll (suc calls) s state ≡ (call s state >>= (λ p. poll calls p.1 p.0))
  unfolding poll
  poll-call calls [] state h = absurd (omega (arith, h))
  poll-call calls (b ∷ s) state h = refl

  call-Handled :
      (law : IsCodec c) (m : Message B N) (ms : List (Message B N)) (state : S)
      → AllFramed r (m ∷ ms)
      → Handled c law r (m ∷ ms) (begin state) (call (serialize_all c (m ∷ ms)) state)
  unfolding call
  call-Handled law m ms state f =
      again-Handled c law r (suc (length (serialize_all c (m ∷ ms)))) m ms (begin state)
        (omega (arith, length-serialize_all c law (m ∷ ms))) f

  call_single :
      (law : IsCodec c) (m : Message B N) (state : S)
      → IsFramed r m
      → call (serialize_all c (m ∷ [])) state ≡ ok (handle_messages r (m ∷ []) (begin state), [])
  unfolding call serialize_all handle_messages
  call_single law m state f = rw (again_step c law r _ m [] (begin state) f, none_less c.size) refl

  length_positive :
      (law : IsCodec c) (m : Message B N) (ms : List (Message B N))
      → 0 < length (serialize_all c (m ∷ ms))
  unfolding serialize_all
  length_positive law m ms =
      omega (
        arith,
        law.size_positive,
        length-encode_append c law m.event (m.extra ++ serialize_all c ms),
      )

  after_call :
      (law : IsCodec c) (m : Message B N) (ms : List (Message B N)) (calls : ℕ) (state : S)
      → AllFramed r (m ∷ ms)
      → (o : Run (S × List B)) → Handled c law r (m ∷ ms) (begin state) o
      → Delivered (m ∷ ms) state (o >>= (λ p. poll (suc calls) p.1 p.0))
  unfolding serialize_all
  after_call law m ms calls state f o (handled k done [] e p) =
      rw (poll_end (suc calls) (handle_messages r (k ∷ done) (begin state)))
        (at_once (k ∷ done) (rw e (ap (λ (t : List (Message B N)). k ∷ t) (append-nil done))))
  after_call law m ms calls state f o (handled k done (last ∷ []) e p) =
      rw
        (
          poll-call calls (serialize_all c (last ∷ [])) (handle_messages r (k ∷ done) (begin state))
              (length_positive law last []),
          call_single law last (handle_messages r (k ∷ done) (begin state))
              (AllFramed-last (k ∷ done) last (subst (λ t. AllFramed r t) e f)),
          poll_end calls
              (handle_messages r (last ∷ []) (begin (handle_messages r (k ∷ done) (begin state)))),
        )
        (and_last (k ∷ done) last e)
  after_call law m ms calls state f o (handled k done (l ∷ (n ∷ ns)) e p) = absurd p

  poll_nothing :
      (calls : ℕ) (state : S) → Delivered [] state (poll calls (serialize_all c []) state)
  unfolding serialize_all poll
  poll_nothing calls state = nothing refl

  -- All messages that were written are handled, each once and in their order, within two calls of the
  -- reader, and nothing is left; only the last one can come to the second call.
  pub poll-Delivered :
      IsCodec c
      → (ms : List (Message B N)) (calls : ℕ) (state : S) → 2 ≤ calls
      → AllFramed r ms
      → Delivered ms state (poll calls (serialize_all c ms) state)
  poll-Delivered law [] calls state h f = poll_nothing calls state
  poll-Delivered law (m ∷ ms) zero state h f = absurd (omega (arith, h))
  poll-Delivered law (m ∷ ms) (suc zero) state h f = absurd (omega (arith, h))
  poll-Delivered law (m ∷ ms) (suc (suc calls)) state h f =
      rw (poll-call (suc calls) (serialize_all c (m ∷ ms)) state (length_positive law m ms))
        (after_call law m ms calls state f _ (call-Handled law m ms state f))
