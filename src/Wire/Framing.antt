-- ===== src/Wire/Framing.antt =====
-- The loop of a reader on whole messages.
use termux_x11_virtualkeys.Wire.{LorieEvent, Codec, IsCodec, Reader, again}
use termux_x11_virtualkeys.Base.{
  ℕ, zero, suc, ◌+◌, ◌≤◌, ◌<◌, List, [], ◌∷◌, ◌++◌, ltb, if◌then◌else◌, length, take, drop, Run, ok,
  ◌≡◌, refl, ap, arith, length-append, drop-length_append, Bool-cases, inl, inr, false, subst,
}

-- An event and what is written behind it.
pub record Message (B N : Type 0) : Type 0 where
  pub event : LorieEvent N
  pub extra : List B

-- The bytes of messages.
unfoldable pub serialize_all : {B N : Type 0} → Codec B N → List (Message B N) → List B
serialize_all c [] = []
serialize_all c (m ∷ ms) = c.encode m.event ++ (m.extra ++ serialize_all c ms)

-- At most one message, with nothing behind it.
abbrev pub IsShort : {B N : Type 0} → List (Message B N) → Type 0
IsShort [] = Unit
IsShort (m ∷ []) = m.extra ≡ []
IsShort (m ∷ (n ∷ ms)) = ⊥

module _ {B N S : Type 0} where
  -- The handler of the event reads what was written behind it, and no more.
  abbrev pub IsFramed : Reader B N S → Message B N → Type 0
  IsFramed r m = (tail : List B) → r.behind m.event (m.extra ++ tail) ≡ (m.extra, tail)

  pub data AllFramed (r : Reader B N S) : List (Message B N) → Type 0 where
    no_more : AllFramed r []
    framed :
        {m : Message B N} {ms : List (Message B N)}
        → IsFramed r m
        → AllFramed r ms
        → AllFramed r (m ∷ ms)

  -- The handler on each message.
  unfoldable pub handle_messages : Reader B N S → List (Message B N) → S → S
  handle_messages r [] state = state
  handle_messages r (m ∷ ms) state = handle_messages r ms (r.handle m.event m.extra state)

pub handle_messages-append :
    {B N S : Type 0} (r : Reader B N S) (ms ns : List (Message B N)) (state : S)
    → handle_messages r (ms ++ ns) state ≡ handle_messages r ns (handle_messages r ms state)
unfolding handle_messages
handle_messages-append r [] ns state = refl
handle_messages-append r (m ∷ ms) ns state =
    handle_messages-append r ms ns (r.handle m.event m.extra state)

pub take-length_append : {B : Type 0} (xs ys : List B) → take (length xs) (xs ++ ys) ≡ xs
take-length_append [] ys = refl
take-length_append (x ∷ xs) ys = ap (λ t. x ∷ t) (take-length_append xs ys)

empty_of_length : {B : Type 0} (xs : List B) → length xs ≡ 0 → xs ≡ []
empty_of_length [] h = refl
empty_of_length (x ∷ xs) h = absurd (omega (arith, h))

pub not_less : (n k : ℕ) → ltb (n + k) n ≡ false
not_less n k = ground arith

pub none_less : (n : ℕ) → ltb n 0 ≡ false
none_less n = ground arith

pub leb_of : (n k : ℕ) → ltb n k ≡ false → k ≤ n
leb_of n k h = ground (arith, h)

module _ {B N : Type 0} (c : Codec B N) (law : IsCodec c) where
  take-encode : (e : LorieEvent N) (s : List B) → take c.size (c.encode e ++ s) ≡ c.encode e
  take-encode e s =
      subst (λ n. take n (c.encode e ++ s) ≡ c.encode e) (law.length-encode e)
        (take-length_append (c.encode e) s)

  drop-encode : (e : LorieEvent N) (s : List B) → drop c.size (c.encode e ++ s) ≡ s
  drop-encode e s =
      subst (λ n. drop n (c.encode e ++ s) ≡ s) (law.length-encode e)
        (drop-length_append (c.encode e) s)

  pub length-encode_append :
      (e : LorieEvent N) (s : List B) → length (c.encode e ++ s) ≡ c.size + length s
  length-encode_append e s = omega (arith, length-append (c.encode e) s, law.length-encode e)

  -- What is left is so short that the loop ends only where it is short.
  serialize_all-IsShort :
      (ms : List (Message B N)) → length (serialize_all c ms) ≤ c.size → IsShort ms
  unfolding serialize_all
  serialize_all-IsShort [] h = tt
  serialize_all-IsShort (m ∷ []) h = empty_of_length m.extra (
      omega
        (arith, h, length-encode_append m.event (m.extra ++ []), length-append {A = B} m.extra []))
  serialize_all-IsShort (m ∷ (n ∷ ms)) h = absurd (
      omega (
        arith,
        h,
        law.size_positive,
        length-encode_append m.event
            (m.extra ++ (c.encode n.event ++ (n.extra ++ serialize_all c ms))),
        length-append m.extra (c.encode n.event ++ (n.extra ++ serialize_all c ms)),
        length-encode_append n.event (n.extra ++ serialize_all c ms),
      ))

  module _ {S : Type 0} (r : Reader B N S) where
    -- A round of the loop on a framed message.
    pub again_step :
        (fuel : ℕ) (m : Message B N) (tail : List B) (state : S)
        → IsFramed r m
        → again c r (suc fuel) (c.encode m.event ++ (m.extra ++ tail)) state ≡ (
            if ltb c.size (length tail)
            then again c r fuel tail (r.handle m.event m.extra state)
            else ok (r.handle m.event m.extra state, tail))
    unfolding again
    again_step fuel m tail state f =
        rw
          (
            drop-encode m.event (m.extra ++ tail),
            take-encode m.event (m.extra ++ tail),
            law.decode-encode m.event,
            f tail,
            length-encode_append m.event (m.extra ++ tail),
          )
          (rw (not_less c.size (length (m.extra ++ tail))) refl)

    -- What the loop makes of messages: the first one is handled, and all that follow up to what is
    -- left for the next time.
    pub data Handled (ms : List (Message B N)) (state : S) : Run (S × List B) → Type 0 where
      handled :
          (m : Message B N) (done left : List (Message B N))
          → ms ≡ m ∷ (done ++ left)
          → IsShort left
          → Handled ms state (ok (handle_messages r (m ∷ done) state, serialize_all c left))

    pub again-Handled :
        (fuel : ℕ) (m : Message B N) (ms : List (Message B N)) (state : S)
        → length ms < fuel
        → AllFramed r (m ∷ ms)
        → Handled (m ∷ ms) state (again c r fuel (serialize_all c (m ∷ ms)) state)
    unfolding serialize_all handle_messages
    again-Handled zero m ms state h f = absurd (omega (arith, h))
    again-Handled (suc fuel) m [] state h (framed g f) =
        rw (again_step fuel m [] state g, none_less c.size) (handled m [] [] refl tt)
    again-Handled (suc fuel) m (n ∷ ns) state h (framed g f) =
        let rest = again-Handled fuel n ns (r.handle m.event m.extra state) (omega (arith, h)) f in
        rw (again_step fuel m (serialize_all c (n ∷ ns)) state g)
          (elim (Bool-cases (ltb c.size (length (serialize_all c (n ∷ ns))))) [
            | inl y ↦ rw y (later _ rest)
            | inr y ↦ rw y (
                handled m [] (n ∷ ns) refl (
                  serialize_all-IsShort (n ∷ ns)
                    (leb_of c.size (length (serialize_all c (n ∷ ns))) y)))
          ])
      where
        later :
            (o : Run (S × List B))
            → Handled (n ∷ ns) (r.handle m.event m.extra state) o
            → Handled (m ∷ (n ∷ ns)) state o
        later o (handled k done left e p) =
            handled m (k ∷ done) left (ap (λ (t : List (Message B N)). m ∷ t) e) p

  pub length-serialize_all : (ms : List (Message B N)) → length ms ≤ length (serialize_all c ms)
  unfolding serialize_all
  length-serialize_all [] = omega arith
  length-serialize_all (m ∷ ms) = omega (
    arith,
    law.size_positive,
    length-serialize_all ms,
    length-encode_append m.event (m.extra ++ serialize_all c ms),
    length-append m.extra (serialize_all c ms),
  )
