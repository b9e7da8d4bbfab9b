-- ===== src/Libc/Rwlock/Defs.antt =====
-- The functions of bridges/libc/rwlock.c over the registry and the guest words. What `calloc` and the
-- native pthread functions return is an argument; the native lock itself is not modelled.
use vita_arc.Base.{ℕ, ◌+◌, ◌-◌, ◌%◌, Bool, true, false, not, ◌&&◌, ◌||◌, Option, none, some}
use vita_arc.Base.{List, [], ◌∷◌, ltb, ◌==◌, if◌then◌else◌}
use vita_arc.Libc.Errno.{Status, ok, einval, ebusy, enomem, enotsup, eperm, is_ok}

-- `RWLOCK_MARK` and `RWLOCK_DEAD`
abbrev pub mark : ℕ
mark = 0x56415257

abbrev pub dead : ℕ
dead = 0xffffffff

-- `rwlock_t` without its native lock; the list stands for the `next` pointers.
pub record Lock : Type 0 where
  pub guest : ℕ
  pub users : ℕ
  pub holds : ℕ

-- `__locks`, and the words of guest memory by address
pub record Registry : Type 0 where
  pub locks : List Lock
  pub words : ℕ → ℕ

abbrev pub write_word : (ℕ → ℕ) → ℕ → ℕ → ℕ → ℕ
write_word words address value at = if address == at then value else words at

-- `__find`: the link is the rest of the list from the first lock of the guest on.
unfoldable pub find_link : ℕ → List Lock → List Lock
find_link g [] = []
find_link g (l ∷ ls) = if l.guest == g then l ∷ ls else find_link g ls

unfoldable pub is_null : List Lock → Bool
is_null [] = true
is_null (l ∷ ls) = false

-- `*__find(guest)`
unfoldable pub find : ℕ → List Lock → Option Lock
find g [] = none
find g (l ∷ ls) = if l.guest == g then some l else find g ls

-- A write through the pointer that `__find` returned.
unfoldable pub update : ℕ → (Lock → Lock) → List Lock → List Lock
update g f [] = []
update g f (l ∷ ls) = if l.guest == g then f l ∷ ls else l ∷ update g f ls

-- `*link = lock->next` through that link
unfoldable pub unlink : ℕ → List Lock → List Lock
unlink g [] = []
unlink g (l ∷ ls) = if l.guest == g then ls else l ∷ unlink g ls

-- `__create`: `allocated` says whether `calloc` succeeded, `started` is what `pthread_rwlock_init`
-- returns.
unfoldable pub create : ℕ → Bool → Status → Registry → Status × Registry
create g allocated started r =
    if not allocated then (enomem, r) else if not (is_ok started) then (started, r) else (
      ok,
      record {
        locks = record { guest = g; users = 0; holds = 0 } ∷ r.locks;
        words = write_word r.words g mark;
      },
    )

-- What `__remove` returns; `stopped` is what `pthread_rwlock_destroy` returns.
unfoldable pub remove_status : Lock → Status → Status
remove_status l stopped = if not (l.users == 0) || not (l.holds == 0) then ebusy else stopped

-- `__remove` on the link to `l`
unfoldable pub remove : Lock → Status → Registry → Status × Registry
unfolding remove_status
remove l stopped r =
    if is_ok (remove_status l stopped)
    then (ok, record { locks = unlink l.guest r.locks; words = write_word r.words l.guest dead })
    else (remove_status l stopped, r)

-- `__valid`
unfoldable pub valid : ℕ → Bool
valid g = not (g == 0) && g % 4 == 0

unfoldable init_checked : ℕ → Bool → Status → Registry → Status × Registry
init_checked g allocated started r = elim (find g r.locks) [
  | some l ↦ (ebusy, r)
  | none ↦ create g allocated started r
]

-- `attributes` is `none` for NULL and else the word that it points to.
unfoldable pub init : ℕ → Option ℕ → Bool → Status → Registry → Status × Registry
unfolding valid init_checked
init g none allocated started r =
    if not (valid g) then (einval, r) else init_checked g allocated started r
init g (some a) allocated started r =
    if not (valid g)
    then (einval, r)
    else if not (a == 0)
    then (if a == 1 then enotsup else einval, r)
    else init_checked g allocated started r

-- `*link` after the removal was tried: the next lock if it succeeded.
unfoldable pub link_after : Status → List Lock → List Lock
link_after s [] = []
link_after s (l ∷ ls) = if is_ok s then ls else l ∷ ls

-- The last test of `bridge_rwlock_destroy`, for a lock that was never used.
unfoldable destroy_unused : ℕ → List Lock → Status × Registry → Status × Registry
destroy_unused g link (result, r) =
    if is_null link && r.words g == 0
    then (ok, record r { words = write_word r.words g dead })
    else (result, r)

unfoldable pub destroy : ℕ → Status → Registry → Status × Registry
unfolding valid find_link link_after destroy_unused is_null
destroy g stopped r = if not (valid g) then (einval, r) else elim (find g r.locks) [
  | none ↦ destroy_unused g (find_link g r.locks) (einval, r)
  | some l ↦
      let done = remove l stopped r in
      destroy_unused g (link_after done.0 (find_link g r.locks)) done
]

abbrev pub add_user : Lock → Lock
add_user l = record l { users = l.users + 1 }

-- `--users`, and `++holds` if the native call succeeded
abbrev pub settle : Status → Lock → Lock
settle s l = record l { users = l.users - 1; holds = if is_ok s then l.holds + 1 else l.holds }

unfoldable add_user_after : ℕ → Status × Registry → Status × Registry
add_user_after g (s, r) =
    if is_ok s then (ok, record r { locks = update g add_user r.locks }) else (s, r)

-- `__acquire` up to the unlock before the native call; 0 means that the native call is made.
unfoldable pub acquire_enter : ℕ → Bool → Status → Registry → Status × Registry
unfolding valid add_user_after
acquire_enter g allocated started r = if not (valid g) then (einval, r) else elim (find g r.locks) [
  | some l ↦ add_user_after g (ok, r)
  | none ↦
      if not (r.words g == 0) then (einval, r) else add_user_after g (create g allocated started r)
]

-- The rest of `__acquire`, after the native call returned `s`, which is its result.
unfoldable pub acquire_leave : ℕ → Status → Registry → Registry
acquire_leave g s r = record r { locks = update g (settle s) r.locks }

abbrev pub drop_hold : Lock → Lock
drop_hold l = record l { holds = l.holds - 1 }

-- `s` is what `pthread_rwlock_unlock` returns.
unfoldable pub unlock : ℕ → Status → Registry → Status × Registry
unfolding valid
unlock g s r = if not (valid g) then (einval, r) else elim (find g r.locks) [
  | none ↦ (eperm, r)
  | some l ↦
      if l.holds == 0
      then (eperm, r)
      else if is_ok s
      then (s, record r { locks = update g drop_hold r.locks })
      else (s, r)
]

unfoldable pub is_inside : ℕ → ℕ → Lock → Bool
is_inside base size l = not (ltb l.guest base) && ltb (l.guest - base) size

unfoldable pub is_busy : Lock → Bool
is_busy l = not (l.users == 0) || not (l.holds == 0)

-- The first loop of `bridge_rwlock_range`: some lock of the range is in use.
unfoldable pub any_busy : ℕ → ℕ → List Lock → Bool
unfolding is_inside is_busy
any_busy base size [] = false
any_busy base size (l ∷ ls) = (is_inside base size l && is_busy l) || any_busy base size ls

-- `link = &(*link)->next`
abbrev keep_link : Lock → Status × List Lock × (ℕ → ℕ) → Status × List Lock × (ℕ → ℕ)
keep_link l (s, ls, words) = (s, l ∷ ls, words)

-- The second loop, on the rest of the list from `*link` on; `stops` are the results of the native
-- destroy by guest address. It ends with the first failure.
unfoldable pub sweep : ℕ → ℕ → (ℕ → Status) → List Lock → (ℕ → ℕ) → Status × List Lock × (ℕ → ℕ)
unfolding is_inside remove_status
sweep base size stops [] words = (ok, [], words)
sweep base size stops (l ∷ ls) words =
    let skipped = keep_link l (sweep base size stops ls words) in
    let s = remove_status l (stops l.guest) in
    let removed = sweep base size stops ls (write_word words l.guest dead) in
    if not (is_inside base size l) then skipped else if is_ok s then removed else (s, l ∷ ls, words)

unfoldable pub range : ℕ → ℕ → Bool → (ℕ → Status) → Registry → Status × Registry
unfolding any_busy sweep
range base size destroys stops r =
    let (s, ls, words) = sweep base size stops r.locks r.words in
    if any_busy base size r.locks
    then (ebusy, r)
    else if destroys
    then (s, record { locks = ls; words = words })
    else (ok, r)
