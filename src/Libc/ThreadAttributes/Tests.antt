-- ===== src/Libc/ThreadAttributes/Tests.antt =====
-- Runs of the attribute functions on concrete structures.
use vita_arc.Base.{◌≡◌, refl, true, some, List, [], ◌∷◌}
use vita_arc.Base.Int.{pos, negsuc}
use vita_arc.Libc.Errno.{Status, ok, enotsup}
use vita_arc.Libc.ThreadAttributes.Defs.{ThreadAttr, defaults, poison, init}
use vita_arc.Libc.ThreadAttributes.Calls.{Setter, set, run, IsSupported, init-run-IsSupported}
use vita_arc.Libc.ThreadAttributes.Convert.{
  NativeCall, attr_stack, native_attributes, is_refused, is_unmapped,
}

-- Six calls, the second and the fourth refused.
abbrev calls : List Setter
calls =
    Setter.detach_state (pos 1)
    ∷ Setter.stack_size 5000
    ∷ Setter.stack 0x81000000 0x4000
    ∷ Setter.sched_policy (negsuc 0)
    ∷ Setter.sched_param (some (pos 99))
    ∷ Setter.guard_size 0
    ∷ []

after_calls : run 0x1000 (init 0x1000 poison).1 calls ≡ record {
  flags = 1;
  stack_base = 0x81000000;
  stack_size = 0x4000;
  guard_size = 0;
  sched_policy = pos 0;
  sched_priority = pos 99;
}
unfolding run set init
after_calls = refl

init-run-IsSupported_example : IsSupported (run 0x1000 (init 0x1000 poison).1 calls)
unfolding init
init-run-IsSupported_example = init-run-IsSupported 0x1000 poison calls refl

abbrev wanted_stack : Setter
wanted_stack = Setter.stack 0x81000000 0x4000

-- A native library that cannot set the stack size.
abbrev no_stack : NativeCall → Status
no_stack (attr_stack n) = Status.native 22
no_stack c = ok

abbrev no_guard : ThreadAttr
no_guard = record defaults { guard_size = 0 }

default_guard_unsupported : native_attributes no_stack true 8 defaults ≡ (enotsup, [])
unfolding native_attributes is_refused is_unmapped
default_guard_unsupported = refl
