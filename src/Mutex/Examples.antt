-- ===== src/Mutex/Examples.antt =====
-- A lock that waits for a live connection, and one that makes the mutex anew once it is lost.
use termux_x11_virtualkeys.Base.{◌≡◌, refl, true, false, some, [], ◌∷◌}
use termux_x11_virtualkeys.Mutex.{times_out, returns, renews, mutex_lock}

lock_after_renewal :
    mutex_lock 40 (times_out 41 true ∷ times_out 41 false ∷ returns 0 ∷ []) 0 ≡ some (40, (1, 0))
unfolding mutex_lock renews
lock_after_renewal = refl
