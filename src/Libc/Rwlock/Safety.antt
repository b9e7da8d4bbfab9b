-- ===== src/Libc/Rwlock/Safety.antt =====
-- What no interleaving of calls of bridges/libc/rwlock.c can break.
use vita_arc.Base.{ℕ, ◌+◌, ◌<◌, ◌≡◌, refl, true, [], arith, inl, inr, Option-cases}
use vita_arc.Libc.Errno.{Status, ebusy}
use vita_arc.Libc.Rwlock.Defs.{find, remove, remove_status, create, destroy, valid}
use vita_arc.Libc.Rwlock.Interleave.{
  World, Step, inits, destroys, sweeps, enters, refuses, leaves, unlocks, Agrees, Inv, Reach, here,
  next,
}
use vita_arc.Libc.Rwlock.Table.{guest-find}
use vita_arc.Libc.Rwlock.Effects.{find_link-some, enter_effect, refuse_effect}
use vita_arc.Libc.Rwlock.Keeps.{
  create-Inv, init-Inv, destroy-Inv, range-Inv, enter-Inv, leave-Inv, unlock-Inv,
}

Step-Inv : {v w : World} → Step v w → Inv v → Inv w
Step-Inv (inits w g a allocated started) i = init-Inv w g a allocated started i
Step-Inv (destroys w g stopped) i = destroy-Inv w g stopped i
Step-Inv (sweeps w base size doing stops) i = range-Inv w base size doing stops i
Step-Inv (enters w g allocated started h) i = elim (enter_effect g allocated started w.registry h) [
  | inl (l, f, e) ↦ rw e (enter-Inv w g l f i)
  | inr (f, ce) ↦ rw (ce.1) (
      enter-Inv (record w { registry = (create g allocated started w.registry).1 }) g
        (record { guest = g; users = 0; holds = 0 }) ce.0 (create-Inv w g allocated started f i))
]
Step-Inv (refuses w g allocated started h) i = rw (refuse_effect g allocated started w.registry h) i
Step-Inv (leaves w g s p) i = leave-Inv w g s p i
Step-Inv (unlocks w g s) i = unlock-Inv w g s i

-- An empty registry, over any guest memory.
abbrev pub start : (ℕ → ℕ) → World
start words = record {
  registry = record { locks = []; words = words };
  waiting = λ _. 0;
  held = λ _. 0;
}

start-Inv : (words : ℕ → ℕ) → Inv (start words)
unfolding find
start-Inv words = record { distinct = tt; agrees = λ g. (refl, refl) }

Reach-Inv : {v w : World} → Inv v → Reach v w → Inv w
Reach-Inv i here = i
Reach-Inv i (next r st) = Step-Inv st (Reach-Inv i r)

-- After any interleaving of calls from an empty registry, a guest lock that some thread waits for or
-- holds has an entry and a marked word, the entry counts exactly the threads inside the native call
-- and the acquisitions not released, and a guest lock with no entry has neither.
pub Reach-Agrees :
    {words : ℕ → ℕ} {w : World} (g : ℕ)
    → Reach (start words) w
    → Agrees (find g w.registry.locks) (w.registry.words g) (w.waiting g) (w.held g)
Reach-Agrees {words} g r = (Reach-Inv (start-Inv words) r).agrees g

-- After any interleaving, a destroy of an aligned guest lock that some thread waits for or holds
-- returns EBUSY and changes nothing, so the lock that a waiting thread points to is never freed.
pub destroy-busy :
    {words : ℕ → ℕ} {w : World} (g : ℕ) (stopped : Status)
    → Reach (start words) w
    → valid g ≡ true
    → 0 < w.waiting g + w.held g
    → destroy g stopped w.registry ≡ (ebusy, w.registry)
unfolding destroy remove remove_status
destroy-busy {w = w} g stopped r v used = elim (Option-cases (find g w.registry.locks)) [
  | inl e ↦ absurd (ground (arith, Reach-Agrees g r))
  | inr (l, e) ↦ ground (
    arith,
    Reach-Agrees g r,
    guest-find g w.registry.locks l e,
    find_link-some g w.registry.locks l ebusy e,
  )
]
