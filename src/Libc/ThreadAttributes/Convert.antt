-- ===== src/Libc/ThreadAttributes/Convert.antt =====
-- `bridge_thread_native_attributes` of bridges/libc/thread_attributes.c, in the build for the device
-- (`__vita__` defined). The native pthread library is a parameter: what each call of it returns.
use vita_arc.Base.{ℕ, ◌-◌, ◌/◌, ◌%◌, ◌<◌, ◌≡◌, ◌↔◌, Bool, true, false, not, ◌&&◌, ◌||◌}
use vita_arc.Base.{List, [], ◌++◌, ◌∷◌, arith, ltb, ◌==◌, if◌then◌else◌}
use vita_arc.Base.Int.{ℤ, pos, ltb_ℤ}
use vita_arc.Libc.Errno.{Status, ok, einval, enotsup, is_ok}
use vita_arc.Libc.ThreadAttributes.Defs.{ThreadAttr, valid, is_stack_size, uint32_max}

-- The calls of the native library, on the one native attribute.
pub data NativeCall : Type 0 where
  attr_init : NativeCall
  attr_detach : Bool → NativeCall
  attr_stack : ℕ → NativeCall
  attr_guard : ℕ → NativeCall
  attr_destroy : NativeCall

abbrev is_nonzero : ℤ → Bool
is_nonzero (pos n) = not (n == 0)
is_nonzero _ = true

-- The first `if`: what the guest may not have asked for.
unfoldable pub is_refused : Bool → ℕ → ThreadAttr → Bool
unfolding valid is_stack_size
is_refused out p g =
    not out
    || not (valid p g)
    || not (is_stack_size g.stack_size)
    || ltb_ℤ g.sched_policy (pos 0)
    || ltb_ℤ (pos 2) g.sched_policy
    || ltb_ℤ g.sched_priority (pos 0)
    || ltb_ℤ (pos 99) g.sched_priority
    || (not (is_nonzero g.sched_policy) && is_nonzero g.sched_priority)
    || (not (g.flags / 2 % 2 == 0) && g.stack_base == 0)
    || (not (g.stack_base == 0)
        && (not (g.stack_base % 4096 == 0) || ltb (uint32_max - g.stack_base) g.stack_size))

-- What the SDK's pthread library cannot express.
unfoldable pub is_unmapped : ThreadAttr → Bool
is_unmapped g =
    not (g.guard_size == 0)
    || not (g.stack_base == 0)
    || is_nonzero g.sched_policy
    || is_nonzero g.sched_priority

module _ (native : NativeCall → Status) where
  -- The calls after a successful `pthread_attr_init`: each runs if all before it returned 0.
  settings : List NativeCall → Status × List NativeCall
  settings [] = (ok, [])
  settings (c ∷ rest) =
      let (s, done) = settings rest in
      if is_ok (native c) then (s, c ∷ done) else (native c, c ∷ [])

  -- The result, with the native calls in their order.
  unfoldable pub native_attributes : Bool → ℕ → ThreadAttr → Status × List NativeCall
  unfolding settings
  native_attributes out p g =
      if is_refused out p g
      then (einval, [])
      else if is_unmapped g
      then (enotsup, [])
      else if not (is_ok (native attr_init))
      then (native attr_init, attr_init ∷ [])
      else let (s, done) = settings (
          attr_detach (not (g.flags % 2 == 0))
          ∷ attr_stack g.stack_size
          ∷ attr_guard g.guard_size
          ∷ []) in
        (s, attr_init ∷ (if is_ok s then done else done ++ attr_destroy ∷ []))

-- Whether the native attribute is initialised after the calls: `attr_init` initialises it if it
-- returned 0, `attr_destroy` releases it.
module _ (native : NativeCall → Status) where
  abbrev pub is_live : Bool → List NativeCall → Bool
  is_live live [] = live
  is_live live (attr_init ∷ rest) = is_live (is_ok (native attr_init)) rest
  is_live live (attr_destroy ∷ rest) = is_live false rest
  is_live live (attr_detach d ∷ rest) = is_live live rest
  is_live live (attr_stack n ∷ rest) = is_live live rest
  is_live live (attr_guard n ∷ rest) = is_live live rest

  -- The native attribute is initialised when the function returns exactly if it returns 0, whatever the
  -- native calls return.
  is_live-native_attributes :
      (out : Bool) (p : ℕ) (g : ThreadAttr)
      → let (s, calls) = native_attributes native out p g in is_live false calls ≡ is_ok s
  unfolding native_attributes
  is_live-native_attributes out p g = ground arith

-- With native calls that succeed, the two tests decide.
decided :
    (native : NativeCall → Status) (p : ℕ) (g : ThreadAttr)
    → ((c : NativeCall) → native c ≡ ok)
    → ((native_attributes native true p g).0 ≡ ok)
      ↔ ((is_refused true p g ≡ false) × (is_unmapped g ≡ false))
unfolding native_attributes
decided native p g h = ground (
  arith,
  h attr_init,
  h (attr_detach (not (g.flags % 2 == 0))),
  h (attr_stack g.stack_size),
  h (attr_guard g.guard_size),
)

plain_accepted :
    (p : ℕ) (g : ThreadAttr)
    → is_refused true p g ≡ false
    → is_unmapped g ≡ false
    → (valid p g ≡ true)
      × (is_stack_size g.stack_size ≡ true)
      × (g.flags < 2)
      × (g.guard_size ≡ 0)
      × (g.stack_base ≡ 0)
      × (g.sched_policy ≡ pos 0)
      × (g.sched_priority ≡ pos 0)
unfolding is_refused is_unmapped
plain_accepted p g r u = ground arith

plain_passes :
    (p : ℕ) (g : ThreadAttr)
    → valid p g ≡ true
    → is_stack_size g.stack_size ≡ true
    → g.flags < 2
    → g.guard_size ≡ 0
    → g.stack_base ≡ 0
    → g.sched_policy ≡ pos 0
    → g.sched_priority ≡ pos 0
    → (is_refused true p g ≡ false) × (is_unmapped g ≡ false)
unfolding is_refused is_unmapped
plain_passes p g v z f u b q r = ground arith

-- When the native calls all succeed, the function returns 0 exactly for a non-NULL output, a valid
-- structure with a stack size of at least 8192 that is a multiple of 4096, and no guard, no stack
-- address, the default policy and priority 0; a guard size alone is refused with ENOTSUP.
native_attributes-ok :
    (native : NativeCall → Status) (p : ℕ) (g : ThreadAttr)
    → ((c : NativeCall) → native c ≡ ok)
    → ((native_attributes native true p g).0 ≡ ok) ↔ (
        (valid p g ≡ true)
        × (is_stack_size g.stack_size ≡ true)
        × (g.flags < 2)
        × (g.guard_size ≡ 0)
        × (g.stack_base ≡ 0)
        × (g.sched_policy ≡ pos 0)
        × (g.sched_priority ≡ pos 0))
native_attributes-ok native p g h = (
  λ e. let (r, u) = (decided native p g h).0 e in plain_accepted p g r u,
  λ (v, z, f, u, b, q, r). (decided native p g h).1 (plain_passes p g v z f u b q r),
)
