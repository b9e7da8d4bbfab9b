-- ===== src/Libc/Once/Tests.antt =====
-- A run of two threads on one control, and the theorems at its states.
use vita_arc.Base.{ℕ, ◌+◌, ◌≤◌, ◌≡◌, refl, true, [], ◌∷◌, arith, ◌==◌, if◌then◌else◌}
use vita_arc.Libc.Errno.{ok}
use vita_arc.Libc.Keyed.{find, update, unlink}
use vita_arc.Libc.Once.Defs.{
  returns, runs, waits, enter, wake, attempt, finish, initializer_exited, take_entry, release_entry,
}
use vita_arc.Libc.Once.Interleave.{World, Reach, here, next, enters, finishes, wakes}
use vita_arc.Libc.Once.Safety.{start, once_only, wake_outcome, leave_broadcasts}

-- The first thread runs the initializer of 4096, the second waits for it.
contended : (w : World) × Reach start w × (w.sleepers ≡ 4096 ∷ []) × (w.active 4096 ≡ 1)
unfolding enter attempt take_entry find update
contended =
    (_, next (next here (enters _ 4096 true ok true)) (enters _ 4096 true ok true), refl, refl)

-- The initializer has returned, and the second thread was woken.
settled :
    (w : World) × Reach start w
    × (w.sleepers ≡ [])
    × ((g : ℕ) → w.active g ≡ 0)
    × (w.completed 4096 ≡ 1)
unfolding enter attempt take_entry find update unlink finish wake release_entry
settled = (
  _,
  next
      (next (next (next here (enters _ 4096 true ok true)) (enters _ 4096 true ok true))
        (finishes _ 4096 (omega arith)))
      (wakes _ 4096 [] [] ok refl),
  refl,
  (λ g. ground arith),
  refl,
)

once_only_example : contended.0.active 4096 + contended.0.completed 4096 ≤ 1
once_only_example = once_only 4096 contended.1

wake_outcome_example : (wake 4096 ok contended.0.once).0 ≡ (
    if contended.0.completed 4096 == 1
    then returns ok
    else if contended.0.active 4096 == 1
    then waits
    else runs)
wake_outcome_example = wake_outcome 4096 [] [] contended.1 contended.2

leave_broadcasts_example :
    ((finish 4096 contended.0.once).0 ≡ true)
    × ((initializer_exited 4096 contended.0.once).0 ≡ true)
leave_broadcasts_example = leave_broadcasts 4096 [] [] 4096 contended.1 contended.2
