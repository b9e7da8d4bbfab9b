-- ===== src/Libc/Rwlock/Tests.antt =====
-- Runs of the rwlock functions, and the theorems at concrete registries.
use vita_arc.Base.{ℕ, ◌+◌, ◌<◌, ◌≡◌, refl, true, none, [], ◌∷◌, arith, ◌==◌, if◌then◌else◌}
use vita_arc.Libc.Errno.{Status, ok, ebusy}
use vita_arc.Libc.Rwlock.Defs.{
  Lock, Registry, mark, find, destroy, acquire_enter, range, valid, create, update,
}
use vita_arc.Libc.Rwlock.Table.{Distinct}
use vita_arc.Libc.Rwlock.Range.{Fate, range-Fate, range-clears}
use vita_arc.Libc.Rwlock.Interleave.{World, Reach, here, next, enters, leaves, Agrees}
use vita_arc.Libc.Rwlock.Safety.{start, Reach-Agrees, destroy-busy}

abbrev idle : Lock
idle = record { guest = 4096; users = 0; holds = 0 }

abbrev held : Lock
held = record { guest = 8192; users = 0; holds = 1 }

abbrev two_locks : Registry
two_locks = record { locks = held ∷ idle ∷ []; words = λ a. if a == 4096 then mark else mark }

abbrev stops : ℕ → Status
stops g = ok

two_locks-Distinct : Distinct two_locks.locks
unfolding find
two_locks-Distinct = (refl, (refl, tt))

-- The page of the idle lock is swept, the other one is not.
sweep_idle : (range 4096 4096 true stops two_locks).1.locks ≡ held ∷ []
unfolding range
sweep_idle = refl

range-Fate_example :
    let (s, r) = range 4096 4096 true stops two_locks in
    Fate 4096 4096
      (find 4096 two_locks.locks)
      (two_locks.words 4096)
      (find 4096 r.locks)
      (r.words 4096)
range-Fate_example = range-Fate 4096 4096 true stops two_locks 4096 two_locks-Distinct

range-clears_example : find 4100 (range 4096 4096 true stops two_locks).1.locks ≡ none
unfolding range
range-clears_example = range-clears 4096 4096 stops two_locks 4100 refl (omega arith) (omega arith)

-- Two threads read-lock the same word; the first one has its lock when the second still waits.
abbrev zeros : ℕ → ℕ
zeros a = 0

abbrev first_in : Registry
first_in = (acquire_enter 4096 true ok (start zeros).registry).1

contended : (w : World) × Reach (start zeros) w × (0 < w.waiting 4096 + w.held 4096)
unfolding acquire_enter find create update
contended = (
  _,
  next (next (next here (enters _ 4096 true ok refl)) (enters _ 4096 true ok refl))
      (leaves _ 4096 ok (omega arith)),
  omega arith,
)

Reach-Agrees_example :
    Agrees
      (find 4096 contended.0.registry.locks)
      (contended.0.registry.words 4096)
      (contended.0.waiting 4096)
      (contended.0.held 4096)
Reach-Agrees_example = Reach-Agrees 4096 contended.1

destroy-busy_example : destroy 4096 ok contended.0.registry ≡ (ebusy, contended.0.registry)
unfolding valid
destroy-busy_example = destroy-busy 4096 ok contended.1 refl contended.2
