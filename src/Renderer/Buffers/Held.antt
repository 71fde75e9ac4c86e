-- ===== src/Renderer/Buffers/Held.antt =====
-- The buffers of renderer.c over histories of calls: the lists that they are in, and the threads that
-- release them.
use termux_x11_virtualkeys.Base.{
  ℕ, suc, ◌+◌, ◌==◌, ◌≡◌, refl, sym, ap, ◌∙◌, Bool-cases, inl, inr, Option, none, some, List, [],
  ◌∷◌, if◌then◌else◌, arith,
}
use mathlib.Core.Option.{some-injective}
use termux_x11_virtualkeys.Renderer.Buffers.{
  Texture, Queues, find_by_id, take_by_id, move_all, add_buffer, remove_attached, remove_buffer,
  remove_all_buffers, attach_all, release_removed,
}

-- How often an identifier stands in a list.
unfoldable pub times : ℕ → List Texture → ℕ
times id [] = 0
times id (t ∷ ts) = let rest = times id ts in if t.id == id then suc rest else rest

move_all-times :
    (id : ℕ) (from to : List Texture) → times id (move_all from to) ≡ times id from + times id to
unfolding move_all times
move_all-times id [] to = omega arith
move_all-times id (t ∷ ts) to = ground (arith, move_all-times id ts (t ∷ to))

abbrev one : ℕ → Texture → ℕ
one id t = if t.id == id then 1 else 0

times-cons : (id : ℕ) (t : Texture) (ts : List Texture) → times id (t ∷ ts) ≡ one id t + times id ts
unfolding times
times-cons id t ts = ground arith

take_by_id-times :
    (id id' : ℕ) (ts : List Texture) (t : Texture)
    → find_by_id id' ts ≡ some t
    → one id t + times id (take_by_id id' ts) ≡ times id ts
unfolding find_by_id take_by_id
take_by_id-times id id' [] t e = cc
take_by_id-times id id' (u ∷ ts) t e = elim (Bool-cases (u.id == id')) [
  | inl h ↦ rw h (
      ap (λ (v : Texture). one id v + times id ts) (sym (some-injective u t (rw h at e)))
      ∙ sym (times-cons id u ts))
  | inr h ↦
      rw (h, times-cons id u ts, times-cons id u (take_by_id id' ts))
        (omega (arith, take_by_id-times id id' ts t (rw h at e)))
]

-- The buffers that came to the renderer, and those of them that were attached to GL, by an identifier.
abbrev pub came : ℕ → Queues → ℕ
came id q = times id q.attached + times id q.added + times id q.released

abbrev pub in_gl : ℕ → Queues → ℕ
in_gl id q = times id q.buffers + times id q.removed + times id q.released_in_gl

-- What the main thread and the thread of the renderer do with the lists.
pub data Call : Type 0 where
  adds : Texture → Call
  removes : (id : ℕ) → Call
  removes_all attaches releases : Call

unfoldable pub step : Call → Queues → Queues
step (adds t) q = add_buffer t q
step (removes id) q = remove_buffer id q
step removes_all q = remove_all_buffers q
step attaches q = attach_all q
step releases q = release_removed q

unfoldable pub run : List Call → Queues → Queues
unfolding step
run [] q = q
run (call ∷ calls) q = run calls (step call q)

-- How often an identifier is added.
unfoldable pub added_times : ℕ → List Call → ℕ
added_times id [] = 0
added_times id (adds t ∷ calls) = one id t + added_times id calls
added_times id (removes id' ∷ calls) = added_times id calls
added_times id (removes_all ∷ calls) = added_times id calls
added_times id (attaches ∷ calls) = added_times id calls
added_times id (releases ∷ calls) = added_times id calls

-- A change of the lists that keeps what came and what is in GL together, where it adds `n`.
abbrev Keeps : (id n : ℕ) → Queues → Queues → Type 0
Keeps id n q q' =
    (came id q' ≡ came id q + n)
    × (in_gl id q' + times id q.attached ≡ in_gl id q + times id q'.attached)

remove_attached-Keeps : (id id' : ℕ) (q : Queues) → Keeps id 0 q (remove_attached id' q)
unfolding remove_attached
remove_attached-Keeps id id' q = go (find_by_id id' q.buffers) refl
  where
    go :
        (o : Option Texture)
        → find_by_id id' q.buffers ≡ o
        → Keeps id 0 q (elim o as (λ _. Queues) [
          | none ↦ q
          | some t ↦ record q { buffers = take_by_id id' q.buffers; removed = t ∷ q.removed }
        ])
    go none e = (omega arith, refl)
    go (some t) e = (
      omega arith,
      omega (arith, take_by_id-times id id' q.buffers t e, times-cons id t q.removed),
    )

remove_buffer-Keeps : (id id' : ℕ) (q : Queues) → Keeps id 0 q (remove_buffer id' q)
unfolding remove_buffer
remove_buffer-Keeps id id' q = go (find_by_id id' q.added) refl
  where
    go :
        (o : Option Texture)
        → find_by_id id' q.added ≡ o
        → Keeps id 0 q (elim o as (λ _. Queues) [
          | some t ↦ record q { added = take_by_id id' q.added; released = t ∷ q.released }
          | none ↦ remove_attached id' q
        ])
    go none e = remove_attached-Keeps id id' q
    go (some t) e =
        (omega (arith, take_by_id-times id id' q.added t e, times-cons id t q.released), refl)

step-Keeps :
    (id : ℕ) (call : Call) (q : Queues) → Keeps id (added_times id (call ∷ [])) q (step call q)
unfolding step added_times add_buffer remove_all_buffers attach_all release_removed times
step-Keeps id (adds t) q = (omega (arith, times-cons id t q.added), refl)
step-Keeps id (removes id') q = remove_buffer-Keeps id id' q
step-Keeps id removes_all q = (
  omega (arith, move_all-times id q.added q.released),
  omega (arith, move_all-times id q.buffers q.removed),
)
step-Keeps id attaches q = (
  omega (arith, move_all-times id q.added q.attached),
  omega (arith, move_all-times id q.added q.attached, move_all-times id q.added q.buffers),
)
step-Keeps id releases q =
    (omega arith, omega (arith, move_all-times id q.removed q.released_in_gl))

added_times-cons :
    (id : ℕ) (call : Call) (calls : List Call)
    → added_times id (call ∷ calls) ≡ added_times id (call ∷ []) + added_times id calls
unfolding added_times
added_times-cons id (adds t) calls = omega arith
added_times-cons id (removes id') calls = omega arith
added_times-cons id removes_all calls = omega arith
added_times-cons id attaches calls = omega arith
added_times-cons id releases calls = omega arith

-- In every sequence of calls, the buffers that were attached to GL, those that wait to be, and those
-- that the main thread released grow together by those that are added; and where the lists hold what
-- was attached and not yet released by the thread of the renderer, they do so in the end.
pub run-Held :
    (id : ℕ) (calls : List Call) (q : Queues)
    → in_gl id q ≡ times id q.attached
    → (came id (run calls q) ≡ came id q + added_times id calls)
      × (in_gl id (run calls q) ≡ times id (run calls q).attached)
unfolding run added_times
run-Held id [] q h = (omega arith, h)
run-Held id (call ∷ calls) q h =
    let kept = step-Keeps id call q in
    let rest = run-Held id calls (step call q) (omega (arith, kept.1)) in
    (omega (arith, rest.0, kept.0, added_times-cons id call calls), rest.1)
