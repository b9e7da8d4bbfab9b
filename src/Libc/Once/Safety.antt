-- ===== src/Libc/Once/Safety.antt =====
-- What every interleaving of `_pthread_once` calls guarantees, cancellations included.
use vita_arc.Base.{ℕ, ◌+◌, ◌%◌, ◌≤◌, ◌<◌, ◌≡◌, ◌↔◌, inl, inr, refl, Bool, true, none}
use vita_arc.Base.{List, [], ◌∷◌, ◌++◌, length, ap, ◌==◌, if◌then◌else◌, arith, Option-cases}
use vita_arc.Libc.Errno.{Status, ok}
use vita_arc.Libc.Keyed.{find}
use vita_arc.Libc.Once.Defs.{
  Entry, key, returns, runs, waits, enter, wake, attempt, finish, initializer_exited,
}
use vita_arc.Libc.Once.Interleave.{
  World, count, Step, enters, wakes, cancels_wait, finishes, cancels_run, Reach, here, next, Inv,
  no_extra,
}
use vita_arc.Libc.Once.Keeps.{
  enter-Inv, wake-Inv, cancel-Inv, finish-Inv, exit-Inv, count-removed, length-removed,
}

Step-Inv : {v w : World} → Step v w → Inv v no_extra → Inv w no_extra
Step-Inv (enters w g callable locked allocated) i = enter-Inv w g callable locked allocated i
Step-Inv (wakes w g xs ys status e) i = wake-Inv w g xs ys status e i
Step-Inv (cancels_wait w g xs ys e) i = cancel-Inv w g xs ys e i
Step-Inv (finishes w g p) i = finish-Inv w g p i
Step-Inv (cancels_run w g p) i = exit-Inv w g p i

Reach-keeps : {v w : World} → Inv v no_extra → Reach v w → Inv w no_extra
Reach-keeps i here = i
Reach-keeps i (next r st) = Step-Inv st (Reach-keeps i r)

-- No thread inside, no entry, and every control word initial.
abbrev pub start : World
start = record {
  once = record { entries = []; waiters = 0; words = λ _. 0 };
  sleepers = [];
  active = λ _. 0;
  completed = λ _. 0;
}

start-Inv : Inv start no_extra
unfolding find
start-Inv = record {
  distinct = tt;
  waiters = refl;
  agrees = λ g. (refl, refl, (refl, inl (refl, refl)));
}

Reach-Inv : {w : World} → Reach start w → Inv w no_extra
Reach-Inv r = Reach-keeps start-Inv r

-- In every reachable state at most one thread runs the initializer of a control, no thread runs it
-- after it returned, and it returns at most once.
pub once_only : {w : World} (g : ℕ) → Reach start w → w.active g + w.completed g ≤ 1
once_only {w} g r = elim (Option-cases (find key g w.once.entries)) [
  | inl e ↦ ground (arith, (Reach-Inv r).agrees g)
  | inr (l, e) ↦ ground (arith, (Reach-Inv r).agrees g)
]

-- In every reachable state a control word is ONCE_DONE exactly if its initializer has returned, and
-- ONCE_RUNNING exactly if a thread runs it.
word_tells :
    {w : World} (g : ℕ)
    → Reach start w
    → ((w.once.words g ≡ 2) ↔ (w.completed g ≡ 1)) × ((w.once.words g ≡ 1) ↔ (w.active g ≡ 1))
word_tells {w} g r = elim (Option-cases (find key g w.once.entries)) [
  | inl e ↦ ground (arith, (Reach-Inv r).agrees g)
  | inr (l, e) ↦ ground (arith, (Reach-Inv r).agrees g)
]

-- A thread that waits and is woken in a reachable state returns 0 if the initializer has returned, waits
-- again if another thread runs it, and takes the initializer over if the one that ran it was
-- cancelled.
pub wake_outcome :
    {w : World} (g : ℕ) (xs ys : List ℕ)
    → Reach start w
    → w.sleepers ≡ xs ++ (g ∷ ys)
    → (wake g ok w.once).0
      ≡ (if w.completed g == 1 then returns ok else if w.active g == 1 then waits else runs)
unfolding wake attempt
wake_outcome {w} g xs ys r s = elim (Option-cases (find key g w.once.entries)) [
  | inl e ↦ absurd (ground (arith, (Reach-Inv r).agrees g, ap (count g) s, count-removed g g xs ys))
  | inr (l, e) ↦ ground (arith, (Reach-Inv r).agrees g)
]

count-le-length : (g : ℕ) (xs : List ℕ) → count g xs ≤ length xs
count-le-length g [] = omega arith
count-le-length g (x ∷ xs) = ground (arith, count-le-length g xs)

-- No wake-up is lost: in a reachable state with a waiting thread, the end of any initializer, by return
-- or by cancellation, broadcasts.
pub leave_broadcasts :
    {w : World} (g : ℕ) (xs ys : List ℕ) (h : ℕ)
    → Reach start w
    → w.sleepers ≡ xs ++ (g ∷ ys)
    → ((finish h w.once).0 ≡ true) × ((initializer_exited h w.once).0 ≡ true)
unfolding finish initializer_exited
leave_broadcasts {w} g xs ys h r s =
    ground (arith, (Reach-Inv r).waiters, ap length s, length-removed g xs ys)

none-empty : (es : List Entry) → ((g : ℕ) → find key g es ≡ none) → es ≡ []
unfolding find
none-empty [] h = refl
none-empty (e ∷ es) h = ground (arith, h e.control)

-- The registry does not leak: in a reachable state in which no thread waits or runs an initializer it is
-- empty, whatever was cancelled.
entries_released :
    {w : World} → Reach start w → w.sleepers ≡ [] → ((g : ℕ) → w.active g ≡ 0) → w.once.entries ≡ []
entries_released {w} r s a = none-empty w.once.entries λ g.
    elim (Option-cases (find key g w.once.entries)) [
      | inl e ↦ e
      | inr (l, e) ↦ absurd (ground (arith, (Reach-Inv r).agrees g, ap (count g) s, a g))
    ]

-- A call of a control whose initializer has returned returns 0 and changes nothing.
enter_done :
    {w : World} (g : ℕ) (locked : Status) (allocated : Bool)
    → Reach start w
    → 0 < g
    → g % 4 ≡ 0
    → w.completed g ≡ 1
    → enter g true locked allocated w.once ≡ (returns ok, w.once)
unfolding enter
enter_done {w} g locked allocated r p q d = ground (arith, (word_tells g r).0.1)
