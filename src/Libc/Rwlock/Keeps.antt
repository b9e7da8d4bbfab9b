-- ===== src/Libc/Rwlock/Keeps.antt =====
-- Each step keeps the registry in agreement with the threads.
use vita_arc.Base.{ℕ, ◌<◌, ◌≡◌, refl, Bool, Option, none, some}
use vita_arc.Base.{if◌then◌else◌, arith, inl, inr}
use vita_arc.Libc.Errno.{Status, is_ok}
use vita_arc.Libc.Rwlock.Defs.{
  Lock, find, create, update, remove, init, destroy, add_user, settle, drop_hold, acquire_leave,
  unlock, range,
}
use vita_arc.Libc.Rwlock.Range.{range-Fate, range-Distinct}
use vita_arc.Libc.Rwlock.Table.{
  find-update, update-Distinct, find-unlink, unlink-Distinct, guest-find,
}
use vita_arc.Libc.Rwlock.Interleave.{World, bump, lower, Inv}
use vita_arc.Libc.Rwlock.Effects.{init_effect, destroy_effect}

pub create-Inv :
    (w : World) (g : ℕ) (allocated : Bool) (started : Status)
    → find g w.registry.locks ≡ none
    → Inv w
    → Inv (record w { registry = (create g allocated started w.registry).1 })
unfolding create find
create-Inv w g allocated started f v = record {
  distinct = ground (arith, v.distinct);
  agrees = λ j. ground (arith, v.agrees j);
}

remove-Inv :
    (w : World) (g : ℕ) (l : Lock) (stopped : Status)
    → l.guest ≡ g
    → find g w.registry.locks ≡ some l
    → Inv w
    → Inv (record w { registry = (remove l stopped w.registry).1 })
unfolding remove
remove-Inv w g l stopped e f v = record {
  distinct = ground (arith, v.distinct, unlink-Distinct l.guest w.registry.locks v.distinct);
  agrees = λ j. ground (arith, v.agrees j, find-unlink l.guest j w.registry.locks v.distinct);
}

pub init-Inv :
    (w : World) (g : ℕ) (a : Option ℕ) (allocated : Bool) (started : Status)
    → Inv w
    → Inv (record w { registry = (init g a allocated started w.registry).1 })
init-Inv w g a allocated started v = elim (init_effect g a allocated started w.registry) [
  | inl e ↦ rw e v
  | inr (f, e) ↦ rw e (create-Inv w g allocated started f v)
]

pub destroy-Inv :
    (w : World) (g : ℕ) (stopped : Status)
    → Inv w
    → Inv (record w { registry = (destroy g stopped w.registry).1 })
destroy-Inv w g stopped v = elim (destroy_effect g stopped w.registry) [
  | inl e ↦ rw e v
  | inr (inl (f, e)) ↦
      rw e (record { distinct = v.distinct; agrees = λ j. ground (arith, f, v.agrees j) })
  | inr (inr (l, f, e)) ↦ rw e (remove-Inv w g l stopped (guest-find g w.registry.locks l f) f v)
]

pub range-Inv :
    (w : World) (base size : ℕ) (doing : Bool) (stops : ℕ → Status)
    → Inv w
    → Inv (record w { registry = (range base size doing stops w.registry).1 })
range-Inv w base size doing stops v = record {
  distinct = range-Distinct base size doing stops w.registry v.distinct;
  agrees =
      λ j. ground (arith, v.agrees j, range-Fate base size doing stops w.registry j v.distinct);
}

pub leave-Inv :
    (w : World) (g : ℕ) (s : Status)
    → 0 < w.waiting g
    → Inv w
    → Inv (record {
      registry = acquire_leave g s w.registry;
      waiting = lower w.waiting g;
      held = if is_ok s then bump w.held g else w.held;
    })
unfolding acquire_leave
leave-Inv w g s p v = record {
  distinct = update-Distinct g (settle s) w.registry.locks (λ l. refl) v.distinct;
  agrees = λ j. ground (arith, v.agrees j, find-update g j (settle s) w.registry.locks (λ l. refl));
}

pub enter-Inv :
    (w : World) (g : ℕ) (l : Lock)
    → find g w.registry.locks ≡ some l
    → Inv w
    → Inv (record w {
      registry = record (w.registry) { locks = update g add_user w.registry.locks };
      waiting = bump w.waiting g;
    })
enter-Inv w g l e v = record {
  distinct = update-Distinct g add_user w.registry.locks (λ l. refl) v.distinct;
  agrees =
      λ j. ground (arith, e, v.agrees j, find-update g j add_user w.registry.locks (λ l. refl));
}

pub unlock-Inv :
    (w : World) (g : ℕ) (s : Status)
    → Inv w
    → Inv (record w {
      registry = (unlock g s w.registry).1;
      held = if is_ok (unlock g s w.registry).0 then lower w.held g else w.held;
    })
unfolding unlock
unlock-Inv w g s v = record {
  distinct =
      ground
        (arith, v.distinct, update-Distinct g drop_hold w.registry.locks (λ l. refl) v.distinct);
  agrees = λ j.
      ground
        (arith, v.agrees j, v.agrees g, find-update g j drop_hold w.registry.locks (λ l. refl));
}
