-- ===== src/Mutex.antt =====
-- `lorie_mutex_lock` of lorie.h. What each round of the loop meets is given as a list; the mutex
-- itself is the operating system's. The source takes the deadline on CLOCK_MONOTONIC, and
-- `pthread_mutex_timedlock` reads it on CLOCK_REALTIME: how long a round waits is not modelled.
use termux_x11_virtualkeys.Base.{
  ℕ, zero, suc, ◌+◌, ◌*◌, ◌/◌, ◌%◌, ◌==◌, ◌<◌, ◌≡◌, refl, leb, ◌||◌, Bool, true, false, Option,
  none, some, List, [], ◌∷◌, ◌++◌, if◌then◌else◌, arith, All,
}
mod Examples

-- The deadline that a round gives to `pthread_mutex_timedlock`, from the clock that it has read.
unfoldable pub deadline : (sec nsec : ℕ) → ℕ × ℕ
deadline sec nsec =
    let n = nsec + 33 * 1000000 in
    if leb 1000000000 n then (sec + n / 1000000000, n % 1000000000) else (sec, n)

-- A deadline is 33 milliseconds later, and its nanoseconds are less than a second, where those of
-- the clock are.
pub deadline_later :
    (sec nsec : ℕ)
    → nsec < 1000000000
    → ((deadline sec nsec).0 * 1000000000 + (deadline sec nsec).1
        ≡ sec * 1000000000 + nsec + 33000000)
      × ((deadline sec nsec).1 < 1000000000)
unfolding deadline
deadline_later sec nsec h = ground arith

-- A round: `pthread_mutex_timedlock` times out, with the pid of the holder and whether the connection
-- is alive then, or it returns another result, 0 or an error.
pub data Round : Type 0 where
  times_out : (holder : ℕ) → (alive : Bool) → Round
  returns : (ret : ℕ) → Round

-- Whether the mutex is made anew after a round.
unfoldable pub renews : ℕ → Round → Bool
renews pid (returns ret) = false
renews pid (times_out holder alive) = if holder == pid || alive then false else true

-- `lockingPid`, how often the mutex was made anew, and the result of the last call, which the source
-- does not look at: it stores `lockingPid` also where the call has failed. `none` while the loop goes
-- on.
unfoldable pub mutex_lock : ℕ → List Round → ℕ → Option (ℕ × (ℕ × ℕ))
mutex_lock pid [] renewed = none
mutex_lock pid (returns ret ∷ rounds) renewed = some (pid, (renewed, ret))
mutex_lock pid (times_out holder alive ∷ rounds) renewed =
    mutex_lock pid rounds (if renews pid (times_out holder alive) then renewed + 1 else renewed)

-- Rounds that time out, with nobody to be taken for dead.
abbrev pub Waits : ℕ → Round → Type 0
Waits pid (returns ret) = ⊥
Waits pid (times_out holder alive) = (holder == pid || alive) ≡ true

-- While the holder is this process or the connection is alive the lock waits and leaves the mutex as
-- it is; `lockingPid` is stored in the first round that does not time out, whatever its result is.
pub mutex_lock-Waits :
    (pid ret : ℕ) (waiting rounds : List Round) (renewed : ℕ)
    → All (Waits pid) waiting
    → mutex_lock pid (waiting ++ (returns ret ∷ rounds)) renewed ≡ some (pid, (renewed, ret))
unfolding mutex_lock renews
mutex_lock-Waits pid ret [] rounds renewed w = refl
mutex_lock-Waits pid ret (returns ret' ∷ waiting) rounds renewed w = absurd (w.0)
mutex_lock-Waits pid ret (times_out holder alive ∷ waiting) rounds renewed w =
    rw (w.0, mutex_lock, renews) (mutex_lock-Waits pid ret waiting rounds renewed (w.1))

-- Where another process holds the mutex and the connection is lost, one round that times out makes
-- the mutex anew, and `lockingPid` is stored where the next does not time out.
pub mutex_lock_renews :
    (pid holder ret : ℕ) (rounds : List Round) (renewed : ℕ)
    → (holder == pid) ≡ false
    → mutex_lock pid (times_out holder false ∷ returns ret ∷ rounds) renewed
      ≡ some (pid, (renewed + 1, ret))
unfolding mutex_lock renews
mutex_lock_renews pid holder ret rounds renewed e = rw e refl
