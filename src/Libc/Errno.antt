-- ===== src/Libc/Errno.antt =====
-- The results of the pthread bridge functions: 0, the error codes that the bridge itself returns,
-- and the codes that it passes on from the native pthread library.
use vita_arc.Base.{ℕ, ◌≡◌, Bool, true, false}

pub data Status : Type 0 where
  ok einval ebusy enomem enotsup eperm : Status
  -- a nonzero code of a native call
  native : ℕ → Status

-- `if(result)` is false for 0 alone.
abbrev pub is_ok : Status → Bool
is_ok ok = true
is_ok _ = false

abbrev Fails : Status → Type 0
Fails s = is_ok s ≡ false
