-- ===== src/Jni/Heap/Monitors.antt =====
-- The monitors of bridges/jni/runtime/heap.c: each section that holds the runtime lock is one step, so that an
-- enter that waits is a step before the wait and one after each wake-up.
use vita_arc.Base.{ℕ, ◌+◌, ◌-◌, ◌^◌, ◌≤◌, ◌<◌, ◌≡◌, ◌≢◌, Bool, true, false, not, Option, none, some}
use vita_arc.Base.{◌==◌, if◌then◌else◌, arith}
use vita_arc.Base.{Bool-cases, inl, inr, ap, refl, sym, ◌∙◌}
use mathlib.Core.Path.{subst}
use native.Mathlib.Decide.{ℕ_discrete}
use vita_arc.Jni.Heap.Defs.{Object}

-- `JNI_OK`, `JNI_ERR`, and an enter that goes to sleep
pub data Outcome : Type 0 where
  entered failed waits : Outcome

abbrev is_other : ℕ → Option ℕ → Bool
is_other t none = false
is_other t (some u) = not (u == t)

-- The test of the loop in `jni_entry_monitor_enter`, and what follows it.
unfoldable pub attempt : ℕ → Object → Outcome × Object
attempt t o =
    if is_other t o.owner
    then (waits, o)
    else if o.depth == 2 ^ 32 - 1
    then (failed, record o { waiters = o.waiters - 1 })
    else (entered, record o { waiters = o.waiters - 1; owner = some t; depth = o.depth + 1 })

-- `jni_entry_monitor_enter` on an object, up to the first wait. There are fewer than 2 ^ 32 threads.
unfoldable pub monitor_enter : ℕ → Object → Outcome × Object
unfolding attempt
monitor_enter t o = attempt t (record o { waiters = o.waiters + 1 })

-- After a wait; `alive` is `jni_thread_vm_alive()`.
unfoldable pub monitor_wake : ℕ → Bool → Object → Outcome × Object
unfolding attempt
monitor_wake t alive o =
    if not alive then (failed, record o { waiters = o.waiters - 1 }) else attempt t o

abbrev is_owner : ℕ → Option ℕ → Bool
is_owner t none = false
is_owner t (some u) = u == t

-- `jni_entry_monitor_exit` on an object
unfoldable pub monitor_exit : ℕ → Object → Outcome × Object
monitor_exit t o =
    if not (is_owner t o.owner)
    then (failed, o)
    else if o.depth - 1 == 0
    then (entered, record o { depth = 0; owner = none })
    else (entered, record o { depth = o.depth - 1 })

-- The loop of `jni_runtime_thread_cleanup` on one object
unfoldable pub release_thread : ℕ → Object → Object
release_thread t o = if is_owner t o.owner then record o { owner = none; depth = 0 } else o

-- A monitor with what the threads are doing: how many wait for it, and how often each entered it and did not
-- leave it.
pub record World : Type 0 where
  pub monitor : Object
  pub waiting : ℕ
  pub held : ℕ → ℕ

abbrev change : (ℕ → ℕ) → ℕ → ℕ → ℕ → ℕ
change f t n u = if t == u then n else f u

-- What the outcome of an enter means for the thread, which waits or not before it.
abbrev pub follow : ℕ → ℕ → Outcome × Object → World → World
follow t before (entered, o) w = record {
  monitor = o;
  waiting = w.waiting - before;
  held = change w.held t (w.held t + 1);
}
follow t before (failed, o) w = record w { monitor = o; waiting = w.waiting - before }
follow t before (waits, o) w = record w { monitor = o; waiting = w.waiting + (1 - before) }

abbrev pub leaves : ℕ → Outcome × Object → World → World
leaves t (entered, o) w = record w { monitor = o; held = change w.held t (w.held t - 1) }
leaves t (_, o) w = record w { monitor = o }

pub data Step : World → World → Type 0 where
  enters : (w : World) (t : ℕ) → Step w (follow t 0 (monitor_enter t w.monitor) w)
  wakes :
      (w : World) (t : ℕ) (alive : Bool)
      → 1 ≤ w.waiting
      → Step w (follow t 1 (monitor_wake t alive w.monitor) w)
  exits : (w : World) (t : ℕ) → Step w (leaves t (monitor_exit t w.monitor) w)
  dies :
      (w : World) (t : ℕ)
      → Step w (record w { monitor = release_thread t w.monitor; held = change w.held t 0 })

pub data Steps (v : World) : World → Type 0 where
  here : Steps v v
  next : {w x : World} → Steps v w → Step w x → Steps v x

-- The monitor counts its waiters and knows its holder.
abbrev Holder : Option ℕ → ℕ → (ℕ → ℕ) → Type 0
Holder none depth held = (depth ≡ 0) × ((u : ℕ) → held u ≡ 0)
Holder (some t) depth held = (1 ≤ depth) × (depth ≡ held t) × ((u : ℕ) → t ≢ u → held u ≡ 0)

abbrev pub Agrees : World → Type 0
Agrees w =
    (w.monitor.waiters ≡ w.waiting)
    × (w.monitor.depth < 2 ^ 32)
    × Holder w.monitor.owner w.monitor.depth w.held

Holder-enter :
    (t depth : ℕ) (owner : Option ℕ) (held : ℕ → ℕ)
    → is_other t owner ≡ false
    → Holder owner depth held
    → Holder (some t) (depth + 1) (change held t (held t + 1))
Holder-enter t depth none held e h =
    (omega arith, ground (arith, h.1 t), λ u n. ground (arith, h.1 u))
Holder-enter t depth (some v) held e h =
    (omega arith, ground (arith, h.2 t), λ u n. ground (arith, h.2 u))

attempt-Agrees :
    (w : World) (t before : ℕ) (o : Object)
    → before ≤ 1
    → before ≤ w.waiting
    → o.waiters ≡ w.waiting - before + 1
    → o.depth < 2 ^ 32
    → Holder o.owner o.depth w.held
    → Agrees (follow t before (attempt t o) w)
unfolding attempt
attempt-Agrees w t before o b c e d h = elim (Bool-cases (is_other t o.owner)) [
  | inl f ↦ rw f (omega arith, d, h)
  | inr f ↦ elim (Bool-cases (o.depth == 2 ^ 32 - 1)) [
    | inl g ↦ rw f (rw g (omega arith, d, h))
    | inr g ↦ rw f (rw g (omega arith, ground arith, Holder-enter t o.depth o.owner w.held f h))
  ]
]

enters-Agrees : (w : World) (t : ℕ) → Agrees w → Agrees (follow t 0 (monitor_enter t w.monitor) w)
unfolding monitor_enter
enters-Agrees w t a =
    attempt-Agrees w t 0 (record (w.monitor) { waiters = w.monitor.waiters + 1 }) (omega arith)
      (omega arith) (omega (arith, a.0)) a.1 a.2

wakes-Agrees :
    (w : World) (t : ℕ) (alive : Bool)
    → 1 ≤ w.waiting
    → Agrees w
    → Agrees (follow t 1 (monitor_wake t alive w.monitor) w)
unfolding monitor_wake
wakes-Agrees w t true b a =
    attempt-Agrees w t 1 w.monitor (omega arith) b (omega (arith, a.0)) a.1 a.2
wakes-Agrees w t false b a = (omega (arith, a.0), a.1, a.2)

Holder-exit :
    (t depth : ℕ) (held : ℕ → ℕ)
    → Holder (some t) depth held
    → (depth - 1 ≡ 0 → Holder none 0 (change held t (held t - 1)))
      × (depth - 1 ≢ 0 → Holder (some t) (depth - 1) (change held t (held t - 1)))
Holder-exit t depth held h = (
  λ z. (
    refl,
    λ u. elim (ℕ_discrete t u) [
      | yes p ↦ ground (arith, ap held p)
      | no n ↦ ground (arith, h.2 u n)
    ],
  ),
  λ z. (omega arith, ground arith, λ u n. ground (arith, h.2 u n)),
)

exclusive :
    (owner : Option ℕ) (depth : ℕ) (held : ℕ → ℕ) (t u : ℕ)
    → Holder owner depth held
    → 1 ≤ held t
    → 1 ≤ held u
    → (t ≡ u) × ((owner ≡ some t) × (depth ≡ held t))
exclusive none depth held t u h b c = absurd (omega (arith, h.1 t))
exclusive (some v) depth held t u h b c = elim (ℕ_discrete v t) [
  | no n ↦ absurd (omega (arith, h.2 t n))
  | yes p ↦ elim (ℕ_discrete v u) [
    | no n ↦ absurd (omega (arith, h.2 u n))
    | yes q ↦ (sym p ∙ q, (ap some p, h.1 ∙ ap held p))
  ]
]

eq_true : (a b : ℕ) → a ≡ b → (a == b) ≡ true
eq_true a b e = ground arith

eq_false : (a b : ℕ) → a ≢ b → (a == b) ≡ false
eq_false a b n = ground arith

abbrev with_owner : World → Option ℕ → World
with_owner w owner = record w { monitor = record (w.monitor) { owner = owner } }

exits-owner :
    (w : World) (t : ℕ) (owner : Option ℕ)
    → Agrees (with_owner w owner)
    → Agrees (leaves t (monitor_exit t (with_owner w owner).monitor) w)
unfolding monitor_exit
exits-owner w t none a = a
exits-owner w t (some v) a = elim (Bool-cases (v == t)) [
  | inr f ↦ rw f a
  | inl f ↦
      let (last, more) = Holder-exit t w.monitor.depth w.held (subst IsHolder (ground arith) a.2) in
      elim (Bool-cases (w.monitor.depth - 1 == 0)) [
        | inl g ↦ rw f (rw g (a.0, omega arith, last (ground arith)))
        | inr g ↦
            rw f
              (rw g (a.0, omega (arith, a.1), subst (left w) (ground arith) (more (ground arith))))
      ]
]
  where
    IsHolder : ℕ → Type 0
    IsHolder u = Holder (some u) w.monitor.depth w.held

    left : World → ℕ → Type 0
    left w u = Holder (some u) (w.monitor.depth - 1) (change w.held t (w.held t - 1))

exits-Agrees : (w : World) (t : ℕ) → Agrees w → Agrees (leaves t (monitor_exit t w.monitor) w)
exits-Agrees w t a = exits-owner w t w.monitor.owner a

dies-owner :
    (w : World) (t : ℕ) (owner : Option ℕ)
    → Agrees (with_owner w owner)
    → Agrees (record w {
      monitor = release_thread t (with_owner w owner).monitor;
      held = change w.held t 0;
    })
unfolding release_thread
dies-owner w t none a = (a.0, a.1, (a.2.0, λ u. ground (arith, a.2.1 u)))
dies-owner w t (some v) a = elim (ℕ_discrete v t) [
  | yes p ↦ rw (eq_true v t p) (
    a.0,
    omega arith,
    (refl, λ u. elim (ℕ_discrete t u) [ yes q ↦ ground arith | no q ↦ ground (arith, a.2.2 u) ]),
  )
  | no n ↦
      rw (eq_false v t n) (a.0, a.1, (a.2.0, ground (arith, n), λ u m. ground (arith, a.2.2 u)))
]

-- After any steps from a monitor that no thread holds or waits for, the monitor counts the threads that wait,
-- a thread holds it exactly as often as its depth says, and no other thread holds it.
Steps-Agrees : {v w : World} → Agrees v → Steps v w → Agrees w
Steps-Agrees a here = a
Steps-Agrees a (next r (enters w t)) = enters-Agrees w t (Steps-Agrees a r)
Steps-Agrees a (next r (wakes w t alive b)) = wakes-Agrees w t alive b (Steps-Agrees a r)
Steps-Agrees a (next r (exits w t)) = exits-Agrees w t (Steps-Agrees a r)
Steps-Agrees a (next r (dies w t)) = dies-owner w t w.monitor.owner (Steps-Agrees a r)

-- A monitor that no thread holds or waits for.
abbrev pub IsFree : World → Type 0
IsFree w =
    (w.monitor.owner ≡ none)
    × (w.monitor.depth ≡ 0)
    × (w.monitor.waiters ≡ 0)
    × (w.waiting ≡ 0)
    × ((u : ℕ) → w.held u ≡ 0)

IsFree-Agrees : (w : World) → IsFree w → Agrees w
IsFree-Agrees w (o, d, n, z, h) =
    (omega arith, omega arith, subst (λ x. Holder x w.monitor.depth w.held) (sym o) (d, h))

-- Whatever the threads do from a monitor that is free, two threads never hold it at the same time, and a
-- thread that holds it is its owner, with the number of its enters as the depth.
pub monitor_exclusive :
    (v w : World) (t u : ℕ)
    → IsFree v
    → Steps v w
    → 1 ≤ w.held t
    → 1 ≤ w.held u
    → (t ≡ u) × ((w.monitor.owner ≡ some t) × (w.monitor.depth ≡ w.held t))
monitor_exclusive v w t u f r b c =
    let a = Steps-Agrees (IsFree-Agrees v f) r in
    exclusive w.monitor.owner w.monitor.depth w.held t u a.2 b c
