-- ===== src/Screen/Vblank/Order.antt =====
-- The vblanks of InitOutput.c over histories of calls: those that are queued, told and aborted.
use termux_x11_virtualkeys.Base.{
  ℕ, zero, suc, ◌+◌, ◌-◌, ◌%◌, ◌^◌, ◌≤◌, ◌<◌, ◌==◌, ==_iff, subst, leb, not, ◌&&◌, ◌≡◌, refl, ap,
  ◌∙◌, Bool, true, false, Bool-cases, inl, inr, List, [], ◌∷◌, ◌++◌, if◌then◌else◌, arith,
}
use termux_x11_virtualkeys.Screen.Vblank.{
  Vblank, Notice, Present, queue_vblank, remove_first, abort_vblank, perform_loop, perform_vblanks,
  next_msc, after_flip,
}

-- How often an identifier waits, waits with its time come, and is told.
unfoldable pub waiting : ℕ → List Vblank → ℕ
waiting id [] = 0
waiting id (v ∷ queue) = let rest = waiting id queue in if v.id == id then suc rest else rest

unfoldable pub due : (id msc : ℕ) → List Vblank → ℕ
due id msc [] = 0
due id msc (v ∷ queue) =
    let rest = due id msc queue in if v.id == id && leb v.msc msc then suc rest else rest

unfoldable pub told : ℕ → List Notice → ℕ
told id [] = 0
told id (n ∷ notices) = let rest = told id notices in if n.id == id then suc rest else rest

told-append : (id : ℕ) (xs ys : List Notice) → told id (xs ++ ys) ≡ told id xs + told id ys
unfolding told
told-append id [] ys = omega arith
told-append id (n ∷ xs) ys = ground (arith, told-append id xs ys)

perform_loop-told :
    (id c : ℕ) (queue : List Vblank) → told id (perform_loop c queue).0 ≡ due id c queue
unfolding perform_loop told due
perform_loop-told id c [] = refl
perform_loop-told id c (v ∷ queue) = ground (arith, perform_loop-told id c queue)

perform_loop-due :
    (id c m : ℕ) (queue : List Vblank)
    → c ≤ m
    → due id c queue + due id m (perform_loop c queue).1 ≡ due id m queue
unfolding perform_loop due
perform_loop-due id c m [] h = refl
perform_loop-due id c m (v ∷ queue) h = ground (arith, perform_loop-due id c m queue)

perform_loop-waiting :
    (id c : ℕ) (queue : List Vblank)
    → due id c queue + waiting id (perform_loop c queue).1 ≡ waiting id queue
unfolding perform_loop waiting due
perform_loop-waiting id c [] = refl
perform_loop-waiting id c (v ∷ queue) = ground (arith, perform_loop-waiting id c queue)

remove_first-waiting :
    (id : ℕ) (queue : List Vblank) → waiting id (remove_first id queue) ≡ waiting id queue - 1
unfolding remove_first waiting
remove_first-waiting id [] = refl
remove_first-waiting id (v ∷ queue) = ground (arith, remove_first-waiting id queue)

remove_first-waiting_other :
    (id id' : ℕ) (queue : List Vblank)
    → (id == id') ≡ false
    → waiting id (remove_first id' queue) ≡ waiting id queue
unfolding remove_first waiting
remove_first-waiting_other id id' [] h = refl
remove_first-waiting_other id id' (v ∷ queue) h =
    ground (arith, remove_first-waiting_other id id' queue)

-- A frame whose msc does not wrap.
next_msc-eq :
    (s : Present)
    → s.current_msc + 1 < 2 ^ 64
    → next_msc s ≡ perform_vblanks (record s { current_msc = s.current_msc + 1 })
unfolding next_msc
next_msc-eq s h = ap (λ (c : ℕ). perform_vblanks (record s { current_msc = c })) (omega arith)

-- Frames one after the other.
unfoldable pub frames : ℕ → Present → List Notice × Present
frames zero s = ([], s)
frames (suc n) s =
    let (first, s') = next_msc s in let (rest, s'') = frames n s' in (first ++ rest, s'')

-- In the frames that follow, an identifier is told exactly as often as it waits for an msc that is
-- reached by the last of them, where the msc does not wrap.
pub frames-told :
    (id n : ℕ) (s : Present)
    → s.current_msc + suc n < 2 ^ 64
    → told id (frames (suc n) s).0 ≡ due id (s.current_msc + suc n) s.queue
unfolding frames perform_vblanks
frames-told id zero s h = rw (next_msc-eq s h) (
    told-append id _ []
    ∙ omega (arith, perform_loop-told id (s.current_msc + 1) s.queue, none_told))
  where
    none_told : told id [] ≡ 0
    none_told = unfold told in refl
frames-told id (suc n) s h = rw (next_msc-eq s (omega arith)) (
    told-append id first (frames (suc n) s').0
    ∙ ap (λ (k : ℕ). told id first + k) (frames-told id n s' (omega arith))
    ∙ ap (λ (k : ℕ). k + due id (s.current_msc + 1 + suc n) s'.queue)
        (perform_loop-told id (s.current_msc + 1) s.queue)
    ∙ perform_loop-due id (s.current_msc + 1) (s.current_msc + 1 + suc n) s.queue (omega arith)
    ∙ ap (λ (k : ℕ). due id k s.queue) (omega arith))
  where
    first : List Notice
    first = (perform_loop (s.current_msc + 1) s.queue).0

    s' : Present
    s' = record {
      queue = (perform_loop (s.current_msc + 1) s.queue).1;
      current_msc = s.current_msc + 1;
    }

-- The calls of the Present extension and the frames.
pub data Call : Type 0 where
  queues : (allocates : Bool) → (event_id msc : ℕ) → Call
  aborts : (event_id : ℕ) → Call
  next_frame : Call
  flips : (event_id target_msc : ℕ) → Call

-- The notices of the vblanks; that of a flip is the flip's own.
unfoldable pub step : Call → Present → List Notice × Present
step (queues allocates event_id msc) s = ([], (queue_vblank allocates event_id msc s).1)
step (aborts event_id) s = ([], abort_vblank event_id s)
step next_frame s = next_msc s
step (flips event_id target_msc) s = ([], (after_flip event_id target_msc s).1)

-- How often an identifier is queued, and taken back, by a call in a state.
unfoldable pub queued_by : ℕ → Call → ℕ
queued_by id (queues allocates event_id msc) = if allocates && event_id == id then 1 else 0
queued_by id (aborts event_id) = 0
queued_by id next_frame = 0
queued_by id (flips event_id target_msc) = 0

unfoldable pub aborted_by : ℕ → Call → Present → ℕ
unfolding waiting
aborted_by id (aborts event_id) s = if id == event_id && not (waiting id s.queue == 0) then 1 else 0
aborted_by id (queues allocates event_id msc) s = 0
aborted_by id next_frame s = 0
aborted_by id (flips event_id target_msc) s = 0

step-conserved :
    (id : ℕ) (call : Call) (s : Present)
    → told id (step call s).0 + aborted_by id call s + waiting id (step call s).1.queue
      ≡ waiting id s.queue + queued_by id call
unfolding step queue_vblank abort_vblank next_msc perform_vblanks after_flip told aborted_by
    queued_by
step-conserved id (queues true event_id msc) s = ground arith
step-conserved id (queues false event_id msc) s = omega arith
step-conserved id (aborts event_id) s = elim (Bool-cases (id == event_id)) [
  | inl e ↦ rw (e, same e) (ground arith)
  | inr e ↦ rw e (omega (arith, remove_first-waiting_other id event_id s.queue e))
]
  where
    same :
        (id == event_id) ≡ true
        → waiting id (remove_first event_id s.queue) ≡ waiting id s.queue - 1
    same e =
        subst (λ (k : ℕ). waiting id (remove_first k s.queue) ≡ waiting id s.queue - 1)
          ((==_iff id event_id).0 e) (remove_first-waiting id s.queue)
step-conserved id next_frame s = omega (
  arith,
  perform_loop-told id ((s.current_msc + 1) % 2 ^ 64) s.queue,
  perform_loop-waiting id ((s.current_msc + 1) % 2 ^ 64) s.queue,
)
step-conserved id (flips event_id target_msc) s = omega arith

-- Over a history: how often an identifier is queued, told and taken back, and the state in the end.
pub record Tally : Type 0 where
  pub queued : ℕ
  pub told_times : ℕ
  pub aborted : ℕ
  pub final : Present

unfoldable pub history : ℕ → List Call → Present → Tally
unfolding step told queued_by aborted_by
history id [] s = record { queued = 0; told_times = 0; aborted = 0; final = s }
history id (call ∷ calls) s =
    let (notices, s') = step call s in
    let rest = history id calls s' in
    record {
      queued = queued_by id call + rest.queued;
      told_times = told id notices + rest.told_times;
      aborted = aborted_by id call s + rest.aborted;
      final = rest.final;
    }

-- In every history of calls and frames, the vblanks of an identifier that are queued, with those that
-- waited before, are as many as those that are told, aborted, or wait in the end.
pub history-conserved :
    (id : ℕ) (calls : List Call) (s : Present)
    → let t = history id calls s in
      t.told_times + t.aborted + waiting id t.final.queue ≡ waiting id s.queue + t.queued
unfolding history
history-conserved id [] s = omega arith
history-conserved id (call ∷ calls) s =
    omega (arith, step-conserved id call s, history-conserved id calls (step call s).1)
