-- ===== src/Libc/ThreadAttributes/Calls.antt =====
-- Sequences of calls of bridges/libc/thread_attributes.c on one attribute structure.
use vita_arc.Base.{ℕ, ◌%◌, ◌≤◌, ◌<◌, ◌≡◌, refl, Bool, true}
use vita_arc.Base.{Option, none, some, List, [], ◌∷◌, arith, ◌⊎◌}
use vita_arc.Base.Int.{ℤ, pos, negsuc, ◌≤ℤ◌}
use vita_arc.Libc.Errno.{Status, ok, einval}
use vita_arc.Libc.ThreadAttributes.Defs.{
  ThreadAttr, poison, get_detach_state, get_stack_size, get_guard_size, get_stack, get_sched_policy,
  get_sched_param, get_scope, set_scope, destroy, defaults, is_aligned, uint32_max, init,
  set_detach_state, set_stack_size, set_guard_size, set_stack, set_sched_policy, set_sched_param,
}

-- The setters with their arguments.
pub data Setter : Type 0 where
  detach_state : ℤ → Setter
  stack_size : ℕ → Setter
  guard_size : ℕ → Setter
  stack : ℕ → ℕ → Setter
  sched_policy : ℤ → Setter
  sched_param : Option ℤ → Setter

unfoldable pub set : ℕ → ThreadAttr → Setter → Status × ThreadAttr
unfolding set_detach_state set_stack_size set_guard_size set_stack set_sched_policy set_sched_param
set p a (detach_state s) = set_detach_state p a s
set p a (stack_size s) = set_stack_size p a s
set p a (guard_size s) = set_guard_size p a s
set p a (stack b s) = set_stack p a b s
set p a (sched_policy s) = set_sched_policy p a s
set p a (sched_param s) = set_sched_param p a s

-- The structure after a sequence of setter calls, whatever each returned.
unfoldable pub run : ℕ → ThreadAttr → List Setter → ThreadAttr
run p a [] = a
run p a (s ∷ rest) = run p (set p a s).1 rest

-- What Android promises of an initialised structure.
pub record IsSupported (a : ThreadAttr) : Type 0 where
  pub known_flags : a.flags < 4
  pub stack_min : 8192 ≤ a.stack_size
  pub stack_pages : a.stack_size % 4096 ≡ 0
  pub base_pages : a.stack_base % 4096 ≡ 0
  pub base_word : a.stack_base ≤ uint32_max
  pub policy_low : pos 0 ≤ℤ a.sched_policy
  pub policy_high : a.sched_policy ≤ℤ pos 2
  pub priority_low : pos 0 ≤ℤ a.sched_priority
  pub priority_high : a.sched_priority ≤ℤ pos 99

set-IsSupported : (p : ℕ) (a : ThreadAttr) (s : Setter) → IsSupported a → IsSupported (set p a s).1
unfolding set
set-IsSupported p a (detach_state (pos s)) v = ground arith
set-IsSupported p a (detach_state (negsuc s)) v = v
set-IsSupported p a (stack_size s) v = ground arith
set-IsSupported p a (guard_size s) v = ground arith
set-IsSupported p a (stack b s) v = ground arith
set-IsSupported p a (sched_policy s) v = ground arith
set-IsSupported p a (sched_param none) v = v
set-IsSupported p a (sched_param (some s)) v = ground arith

run-IsSupported :
    (p : ℕ) (a : ThreadAttr) (calls : List Setter) → IsSupported a → IsSupported (run p a calls)
unfolding run
run-IsSupported p a [] v = v
run-IsSupported p a (s ∷ rest) v = run-IsSupported p (set p a s).1 rest (set-IsSupported p a s v)

-- After `_pthread_attr_init` at a non-NULL address that is a multiple of 4, every sequence of setter
-- calls, successful or refused, leaves flags below 4, a stack size of at least 8192 that is a multiple
-- of 4096, a page-aligned 32-bit stack base, a policy in 0..2 and a priority in 0..99.
pub init-run-IsSupported :
    (p : ℕ) (garbage : ThreadAttr) (calls : List Setter)
    → is_aligned p ≡ true
    → IsSupported (run p (init p garbage).1 calls)
unfolding init
init-run-IsSupported p garbage calls h = run-IsSupported p (init p garbage).1 calls (ground arith)

-- A setter either returns 0 or returns EINVAL and leaves the structure as it was.
set-einval :
    (p : ℕ) (a : ThreadAttr) (s : Setter)
    → ((set p a s).0 ≡ ok) ⊎ (((set p a s).0 ≡ einval) × ((set p a s).1 ≡ a))
unfolding set
set-einval p a (detach_state (pos s)) = ground arith
set-einval p a (detach_state (negsuc s)) = ground arith
set-einval p a (stack_size s) = ground arith
set-einval p a (guard_size s) = ground arith
set-einval p a (stack b s) = ground arith
set-einval p a (sched_policy s) = ground arith
set-einval p a (sched_param none) = ground arith
set-einval p a (sched_param (some s)) = ground arith

-- The matching getter returns 0 with the value that the setter was given.
abbrev pub Reads : ℕ → ThreadAttr → Setter → Type 0
Reads p a (detach_state (pos s)) = get_detach_state p a true ≡ (ok, some s)
Reads p a (detach_state (negsuc s)) = ⊥
Reads p a (stack_size s) = get_stack_size p a true ≡ (ok, some s)
Reads p a (guard_size s) = get_guard_size p a true ≡ (ok, some s)
Reads p a (stack b s) = get_stack p a true true ≡ (ok, some (b, s))
Reads p a (sched_policy s) = get_sched_policy p a true ≡ (ok, some s)
Reads p a (sched_param none) = ⊥
Reads p a (sched_param (some s)) = get_sched_param p a true ≡ (ok, some s)

-- The fields that the setter does not write.
abbrev pub Keeps : ThreadAttr → ThreadAttr → Setter → Type 0
Keeps a b (detach_state s) = b ≡ record a { flags = b.flags }
Keeps a b (stack_size s) = b ≡ record a { stack_size = b.stack_size }
Keeps a b (guard_size s) = b ≡ record a { guard_size = b.guard_size }
Keeps a b (stack c s) = b ≡ record a { stack_base = b.stack_base; stack_size = b.stack_size }
Keeps a b (sched_policy s) = b ≡ record a { sched_policy = b.sched_policy }
Keeps a b (sched_param s) = b ≡ record a { sched_priority = b.sched_priority }

-- After a setter that returns 0, its getter returns 0 with the value that was set, and no field but
-- those of the setter has changed.
get-set :
    (p : ℕ) (a : ThreadAttr) (s : Setter)
    → (set p a s).0 ≡ ok
    → Reads p (set p a s).1 s × Keeps a (set p a s).1 s
unfolding set get_detach_state get_stack_size get_guard_size get_stack get_sched_policy
    get_sched_param
get-set p a (detach_state (pos s)) h = ground arith
get-set p a (detach_state (negsuc s)) h = cc
get-set p a (stack_size s) h = ground arith
get-set p a (guard_size s) h = ground arith
get-set p a (stack b s) h = ground arith
get-set p a (sched_policy s) h = ground arith
get-set p a (sched_param none) h = cc
get-set p a (sched_param (some s)) h = ground arith

destroy_lem :
    (p : ℕ) (a : ThreadAttr)
    → (destroy p a).0 ≡ ok
    → (is_aligned p ≡ true) × ((destroy p a).1 ≡ poison)
unfolding destroy
destroy_lem p a h = ground arith

set-poison : (p : ℕ) (s : Setter) → set p poison s ≡ (einval, poison)
unfolding set
set-poison p (detach_state (pos s)) = ground arith
set-poison p (detach_state (negsuc s)) = refl
set-poison p (stack_size s) = ground arith
set-poison p (guard_size s) = ground arith
set-poison p (stack b s) = ground arith
set-poison p (sched_policy s) = ground arith
set-poison p (sched_param none) = refl
set-poison p (sched_param (some s)) = ground arith

destroy-poison : (p : ℕ) → destroy p poison ≡ (einval, poison)
unfolding destroy
destroy-poison p = ground arith

-- After a successful `_pthread_attr_destroy` the structure is refused with EINVAL by every setter, by
-- every getter whatever its output pointers and by a second destroy, and `_pthread_attr_init` makes
-- it the default structure again.
destroy-poisons :
    (p : ℕ) (a : ThreadAttr) (s : Setter) (out out' : Bool) (i : ℤ)
    → (destroy p a).0 ≡ ok
    → let d = (destroy p a).1 in
      (set p d s ≡ (einval, d))
      × (get_detach_state p d out ≡ (einval, none))
      × (get_stack_size p d out ≡ (einval, none))
      × (get_guard_size p d out ≡ (einval, none))
      × (get_stack p d out out' ≡ (einval, none))
      × (get_sched_policy p d out ≡ (einval, none))
      × (get_sched_param p d out ≡ (einval, none))
      × (get_scope p d out ≡ (einval, none))
      × (set_scope p d i ≡ einval)
      × (destroy p d ≡ (einval, d))
      × (init p d ≡ (ok, defaults))
unfolding get_detach_state get_stack_size get_guard_size get_stack get_sched_policy get_sched_param
    get_scope set_scope init
destroy-poisons p a s out out' i h =
    let (aligned, e) = destroy_lem p a h in
    rw e (
      set-poison p s,
      ground arith,
      ground arith,
      ground arith,
      ground arith,
      ground arith,
      ground arith,
      ground arith,
      ground arith,
      destroy-poison p,
      ground arith,
    )
