-- ===== src/Libc/ThreadAttributes/Defs.antt =====
-- The accessors of bridges/libc/thread_attributes.c. A function takes the guest pointer (an address,
-- 0 for NULL) and the structure that stands there, and returns the status with the structure after
-- the call. A getter takes also whether its output pointer is non-NULL, and returns what it writes.
use vita_arc.Base.{ℕ, ◌+◌, ◌-◌, ◌*◌, ◌/◌, ◌%◌, ◌^◌, Bool, not, ◌&&◌, ◌||◌}
use vita_arc.Base.{Option, none, some, ltb, leb, ◌==◌, if◌then◌else◌}
use vita_arc.Base.Int.{ℤ, pos, negsuc, ltb_ℤ}
use vita_arc.Libc.Errno.{Status, ok, einval, enotsup}

-- `bridge_thread_attr_t`
pub record ThreadAttr : Type 0 where
  pub flags : ℕ
  pub stack_base : ℕ
  pub stack_size : ℕ
  pub guard_size : ℕ
  pub sched_policy : ℤ
  pub sched_priority : ℤ

abbrev pub uint32_max : ℕ
uint32_max = 2 ^ 32 - 1

-- non-NULL, and `!((uintptr_t)attributes & 3)`
unfoldable pub is_aligned : ℕ → Bool
is_aligned address = not (address == 0) && address % 4 == 0

-- `__valid`; `flags & ~3u` is 0 exactly if `flags / 4` is.
unfoldable pub valid : ℕ → ThreadAttr → Bool
unfolding is_aligned
valid address a = is_aligned address && a.flags / 4 == 0

-- `__stack_size`
unfoldable pub is_stack_size : ℕ → Bool
is_stack_size size = leb 8192 size && size % 4096 == 0

abbrev pub defaults : ThreadAttr
defaults = record {
  flags = 0;
  stack_base = 0;
  stack_size = 1024 * 1024;
  guard_size = 4096;
  sched_policy = pos 0;
  sched_priority = pos 0;
}

unfoldable pub init : ℕ → ThreadAttr → Status × ThreadAttr
unfolding is_aligned
init address a = if is_aligned address then (ok, defaults) else (einval, a)

-- `memset(attributes, 0x42, ...)`: each word is 0x42424242, the signed ones too.
abbrev pub poison : ThreadAttr
poison = record {
  flags = 0x42424242;
  stack_base = 0x42424242;
  stack_size = 0x42424242;
  guard_size = 0x42424242;
  sched_policy = pos 0x42424242;
  sched_priority = pos 0x42424242;
}

unfoldable pub destroy : ℕ → ThreadAttr → Status × ThreadAttr
unfolding valid
destroy address a = if valid address a then (ok, poison) else (einval, a)

-- A getter: nothing is written unless the attributes and the output pointer are valid.
abbrev read_field {ℓ} : {A : Type ℓ} → ℕ → ThreadAttr → Bool → A → Status × Option A
read_field address a out value =
    if not (valid address a) || not out then (einval, none) else (ok, some value)

unfoldable pub get_detach_state : ℕ → ThreadAttr → Bool → Status × Option ℕ
unfolding valid
get_detach_state address a out = read_field address a out (a.flags % 2)

-- `(flags & ~1u) | state`, where `state` is 0 or 1
unfoldable pub set_detach_state : ℕ → ThreadAttr → ℤ → Status × ThreadAttr
unfolding valid
set_detach_state address a (negsuc n) = (einval, a)
set_detach_state address a (pos state) =
    if not (valid address a) || (not (state == 0) && not (state == 1))
    then (einval, a)
    else (ok, record a { flags = a.flags - a.flags % 2 + state })

unfoldable pub get_stack_size : ℕ → ThreadAttr → Bool → Status × Option ℕ
unfolding valid
get_stack_size address a out = read_field address a out a.stack_size

unfoldable pub set_stack_size : ℕ → ThreadAttr → ℕ → Status × ThreadAttr
unfolding valid is_stack_size
set_stack_size address a size =
    if not (valid address a) || not (is_stack_size size)
    then (einval, a)
    else (ok, record a { stack_size = size })

unfoldable pub get_guard_size : ℕ → ThreadAttr → Bool → Status × Option ℕ
unfolding valid
get_guard_size address a out = read_field address a out a.guard_size

unfoldable pub set_guard_size : ℕ → ThreadAttr → ℕ → Status × ThreadAttr
unfolding valid
set_guard_size address a size =
    if not (valid address a) then (einval, a) else (ok, record a { guard_size = size })

-- `*base` and `*size`; both output pointers must be non-NULL.
unfoldable pub get_stack : ℕ → ThreadAttr → Bool → Bool → Status × Option (ℕ × ℕ)
unfolding valid
get_stack address a out_base out_size =
    read_field address a (out_base && out_size) (a.stack_base, a.stack_size)

unfoldable pub set_stack : ℕ → ThreadAttr → ℕ → ℕ → Status × ThreadAttr
unfolding valid is_stack_size
set_stack address a base size =
    if not (valid address a)
      || base == 0
      || ltb uint32_max base
      || not (base % 4096 == 0)
      || not (is_stack_size size)
      || ltb (uint32_max - base) size
    then (einval, a)
    else (ok, record a { stack_base = base; stack_size = size })

unfoldable pub get_sched_policy : ℕ → ThreadAttr → Bool → Status × Option ℤ
unfolding valid
get_sched_policy address a out = read_field address a out a.sched_policy

unfoldable pub set_sched_policy : ℕ → ThreadAttr → ℤ → Status × ThreadAttr
unfolding valid
set_sched_policy address a policy =
    if not (valid address a) || ltb_ℤ policy (pos 0) || ltb_ℤ (pos 2) policy
    then (einval, a)
    else (ok, record a { sched_policy = policy })

unfoldable pub get_sched_param : ℕ → ThreadAttr → Bool → Status × Option ℤ
unfolding valid
get_sched_param address a out = read_field address a out a.sched_priority

-- `none` is a NULL `parameters`.
unfoldable pub set_sched_param : ℕ → ThreadAttr → Option ℤ → Status × ThreadAttr
unfolding valid
set_sched_param address a none = (einval, a)
set_sched_param address a (some priority) =
    if not (valid address a) || ltb_ℤ priority (pos 0) || ltb_ℤ (pos 99) priority
    then (einval, a)
    else (ok, record a { sched_priority = priority })

-- Android's PTHREAD_SCOPE_SYSTEM is 0.
unfoldable pub get_scope : ℕ → ThreadAttr → Bool → Status × Option ℕ
unfolding valid
get_scope address a out = read_field address a out 0

unfoldable pub set_scope : ℕ → ThreadAttr → ℤ → Status
unfolding valid
set_scope address a scope =
    if not (valid address a) || ltb_ℤ scope (pos 0) || ltb_ℤ (pos 1) scope
    then einval
    else if ltb_ℤ (pos 0) scope
    then enotsup
    else ok
