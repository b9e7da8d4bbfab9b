-- ===== src/Libc/Rwlock/Interleave.antt =====
-- Threads that call the functions of bridges/libc/rwlock.c. Each critical section of the registry
-- mutex is one step, so `__acquire` is two: other threads run while it is inside the native call.
use vita_arc.Base.{ℕ, ◌+◌, ◌-◌, ◌<◌, ◌≡◌, Bool, false, Option, none, some}
use vita_arc.Base.{◌==◌, if◌then◌else◌}
use vita_arc.Libc.Errno.{Status, ok, is_ok}
use vita_arc.Libc.Rwlock.Defs.{
  Lock, Registry, mark, find, init, destroy, acquire_enter, acquire_leave, unlock, range,
}
use vita_arc.Libc.Rwlock.Table.{Distinct}

-- The registry with what the threads are doing: how many are inside the native call of `__acquire`
-- for a guest lock, and how many acquisitions of it were not released.
pub record World : Type 0 where
  pub registry : Registry
  pub waiting : ℕ → ℕ
  pub held : ℕ → ℕ

abbrev pub bump : (ℕ → ℕ) → ℕ → (ℕ → ℕ)
bump f g j = if g == j then f j + 1 else f j

abbrev pub lower : (ℕ → ℕ) → ℕ → (ℕ → ℕ)
lower f g j = if g == j then f j - 1 else f j

pub data Step : World → World → Type 0 where
  inits :
      (w : World) (g : ℕ) (a : Option ℕ) (allocated : Bool) (started : Status)
      → Step w (record w { registry = (init g a allocated started w.registry).1 })
  destroys :
      (w : World) (g : ℕ) (stopped : Status)
      → Step w (record w { registry = (destroy g stopped w.registry).1 })
  sweeps :
      (w : World) (base size : ℕ) (doing : Bool) (stops : ℕ → Status)
      → Step w (record w { registry = (range base size doing stops w.registry).1 })
  enters :
      (w : World) (g : ℕ) (allocated : Bool) (started : Status)
      → (acquire_enter g allocated started w.registry).0 ≡ ok
      → Step w (record w {
        registry = (acquire_enter g allocated started w.registry).1;
        waiting = bump w.waiting g;
      })
  refuses :
      (w : World) (g : ℕ) (allocated : Bool) (started : Status)
      → is_ok (acquire_enter g allocated started w.registry).0 ≡ false
      → Step w (record w { registry = (acquire_enter g allocated started w.registry).1 })
  leaves :
      (w : World) (g : ℕ) (s : Status)
      → 0 < w.waiting g
      → Step w (record {
        registry = acquire_leave g s w.registry;
        waiting = lower w.waiting g;
        held = if is_ok s then bump w.held g else w.held;
      })
  unlocks :
      (w : World) (g : ℕ) (s : Status)
      → Step w (record w {
        registry = (unlock g s w.registry).1;
        held = if is_ok (unlock g s w.registry).0 then lower w.held g else w.held;
      })

-- What the table says of one guest lock.
abbrev pub Agrees : Option Lock → ℕ → ℕ → ℕ → Type 0
Agrees none word waits holds = (waits ≡ 0) × (holds ≡ 0)
Agrees (some l) word waits holds = (l.users ≡ waits) × (l.holds ≡ holds) × (word ≡ mark)

pub record Inv (w : World) : Type 0 where
  pub distinct : Distinct w.registry.locks
  pub agrees :
      (g : ℕ) → Agrees (find g w.registry.locks) (w.registry.words g) (w.waiting g) (w.held g)

pub data Reach (start : World) : World → Type 0 where
  here : Reach start start
  next : {v w : World} → Reach start v → Step v w → Reach start w
