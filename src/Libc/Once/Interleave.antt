-- ===== src/Libc/Once/Interleave.antt =====
-- Threads that call `_pthread_once`: each section under the mutex is one step, and a thread may be
-- cancelled while it waits or while it runs its initializer.
use vita_arc.Base.{ℕ, ◌+◌, ◌-◌, ◌<◌, ◌≡◌, ◌⊎◌, Bool, true, false, Option, none, some}
use vita_arc.Base.{List, [], ◌∷◌, ◌++◌, length, ◌==◌, if◌then◌else◌}
use vita_arc.Libc.Errno.{Status}
use vita_arc.Libc.Keyed.{find, Distinct}
use vita_arc.Libc.Once.Defs.{
  Entry, key, Once, Next, returns, runs, waits, enter, wake, waiter_exited, finish,
  initializer_exited,
}

-- The bridge's state with the threads that are inside the function: the controls that they wait on,
-- how many run the initializer of a control, and how many initializers returned.
pub record World : Type 0 where
  pub once : Once
  pub sleepers : List ℕ
  pub active : ℕ → ℕ
  pub completed : ℕ → ℕ

abbrev pub bump : (ℕ → ℕ) → ℕ → (ℕ → ℕ)
bump f g j = if g == j then f j + 1 else f j

abbrev pub lower : (ℕ → ℕ) → ℕ → (ℕ → ℕ)
lower f g j = if g == j then f j - 1 else f j

abbrev pub count : ℕ → List ℕ → ℕ
count g [] = 0
count g (x ∷ xs) = if x == g then count g xs + 1 else count g xs

-- Where the thread is after the step.
abbrev pub follow : ℕ → Next × Once → World → World
follow g (returns s, o) w = record w { once = o }
follow g (runs, o) w = record w { once = o; active = bump w.active g }
follow g (waits, o) w = record w { once = o; sleepers = g ∷ w.sleepers }

pub data Step : World → World → Type 0 where
  enters :
      (w : World) (g : ℕ) (callable : Bool) (locked : Status) (allocated : Bool)
      → Step w (follow g (enter g callable locked allocated w.once) w)
  wakes :
      (w : World) (g : ℕ) (xs ys : List ℕ) (status : Status)
      → w.sleepers ≡ xs ++ (g ∷ ys)
      → Step w (follow g (wake g status w.once) (record w { sleepers = xs ++ ys }))
  cancels_wait :
      (w : World) (g : ℕ) (xs ys : List ℕ)
      → w.sleepers ≡ xs ++ (g ∷ ys)
      → Step w (record w { once = waiter_exited g w.once; sleepers = xs ++ ys })
  finishes :
      (w : World) (g : ℕ)
      → 0 < w.active g
      → Step w (record w {
        once = (finish g w.once).1;
        active = lower w.active g;
        completed = bump w.completed g;
      })
  cancels_run :
      (w : World) (g : ℕ)
      → 0 < w.active g
      → Step w (record w { once = (initializer_exited g w.once).1; active = lower w.active g })

pub data Reach (start : World) : World → Type 0 where
  here : Reach start start
  next : {v w : World} → Reach start v → Step v w → Reach start w

-- The word of a control, by whether its initializer runs.
abbrev Phase : Bool → ℕ → ℕ → ℕ → Type 0
Phase true word active completed = (active ≡ 1) × (word ≡ 1) × (completed ≡ 0)
Phase false word active completed =
    (active ≡ 0) × (((word ≡ 0) × (completed ≡ 0)) ⊎ ((word ≡ 2) × (completed ≡ 1)))

-- The entry of a control: its users are the threads that wait or run, and `extra` more.
abbrev pub Agrees : Option Entry → ℕ → ℕ → ℕ → ℕ → ℕ → Type 0
Agrees none word waiting active completed extra =
    (waiting ≡ 0) × (extra ≡ 0) × Phase false word active completed
Agrees (some e) word waiting active completed extra =
    (e.users ≡ waiting + active + extra) × (0 < e.users) × Phase e.running word active completed

pub record Inv (w : World) (extra : ℕ → ℕ) : Type 0 where
  pub distinct : Distinct key w.once.entries
  pub waiters : w.once.waiters ≡ length w.sleepers
  pub agrees :
      (g : ℕ)
      → Agrees
          (find key g w.once.entries)
          (w.once.words g)
          (count g w.sleepers)
          (w.active g)
          (w.completed g)
          (extra g)

-- The thread at the top of the loop.
abbrev pub one : ℕ → ℕ → ℕ
one g j = if g == j then 1 else 0

abbrev pub no_extra : ℕ → ℕ
no_extra j = 0
