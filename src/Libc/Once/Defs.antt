-- ===== src/Libc/Once/Defs.antt =====
-- `_pthread_once` of bridges/libc/once.c, cut where it gives up the mutex: a thread enters, is woken
-- from `pthread_cond_wait`, finishes its initializer, or is cancelled in one of the two. `errno`, which
-- the function saves and restores, is not modelled.
use vita_arc.Base.{ℕ, ◌+◌, ◌-◌, ◌%◌, Bool, true, false, not, ◌&&◌, ◌||◌, Option, none, some}
use vita_arc.Base.{List, ◌∷◌, ltb, ◌==◌, if◌then◌else◌}
use vita_arc.Libc.Errno.{Status, ok, einval, enomem, is_ok}
use vita_arc.Libc.Keyed.{find, update, unlink}

-- `ONCE_INITIAL`, `ONCE_RUNNING`, `ONCE_DONE`
abbrev pub initial : ℕ
initial = 0

abbrev pub running_word : ℕ
running_word = 1

abbrev done_word : ℕ
done_word = 2

-- `once_entry_t`; the list stands for the `next` pointers.
pub record Entry : Type 0 where
  pub control : ℕ
  pub users : ℕ
  pub running : Bool

abbrev pub key : Entry → ℕ
key e = e.control

-- `__once_entries`, `__once_waiters`, and the control words by address
pub record Once : Type 0 where
  pub entries : List Entry
  pub waiters : ℕ
  pub words : ℕ → ℕ

abbrev pub write_word : (ℕ → ℕ) → ℕ → ℕ → ℕ → ℕ
write_word words address value at = if address == at then value else words at

-- What a thread does next: return, run the initializer with the mutex released, or wait.
pub data Next : Type 0 where
  returns : Status → Next
  runs : Next
  waits : Next

-- `__release`, through a pointer to the entry of `g`
unfoldable pub release_entry : ℕ → List Entry → List Entry
release_entry g entries = elim (find key g entries) [
  | none ↦ entries
  | some e ↦
      if e.users - 1 == 0
      then unlink key g entries
      else update key g (λ e. record e { users = e.users - 1 }) entries
]

abbrev pub release : ℕ → Once → Once
release g o = record o { entries = release_entry g o.entries }

abbrev pub set_running : Bool → Entry → Entry
set_running b e = record e { running = b }

-- One round of `for(;;)`, with the mutex held.
unfoldable pub attempt : ℕ → Once → Next × Once
attempt g o =
    if o.words g == done_word then (returns ok, release g o) else elim (find key g o.entries) [
      | none ↦ (returns einval, o)
      | some e ↦ if e.running then (waits, record o { waiters = o.waiters + 1 }) else (
        runs,
        record o {
          entries = update key g (set_running true) o.entries;
          words = write_word o.words g running_word;
        },
      )
    ]

abbrev pub add_user : Entry → Entry
add_user e = record e { users = e.users + 1 }

-- The entry of `g` with one more user, made by `calloc` if there is none.
unfoldable pub take_entry : ℕ → Bool → List Entry → Option (List Entry)
take_entry g allocated entries = elim (find key g entries) [
  | some e ↦ some (update key g add_user entries)
  | none ↦
      if allocated
      then some (record { control = g; users = 1; running = false } ∷ entries)
      else none
]

unfoldable is_missing : Option Entry → Bool
is_missing none = true
is_missing (some e) = false

-- `__pthread_once` up to its first release of the mutex. `callable` says that `initialize` is not
-- NULL; `locked` is what `pthread_mutex_lock` returns.
unfoldable pub enter : ℕ → Bool → Status → Bool → Once → Next × Once
unfolding is_missing
enter g callable locked allocated o =
    if g == 0 || not callable || not (g % 4 == 0)
    then (returns einval, o)
    else if o.words g == done_word
    then (returns ok, o)
    else if not (is_ok locked)
    then (returns locked, o)
    else if ltb running_word (o.words g)
        || (o.words g == running_word && is_missing (find key g o.entries))
    then (returns einval, o)
    else elim (take_entry g allocated o.entries) [
      | none ↦ (returns enomem, o)
      | some entries ↦ attempt g (record o { entries = entries })
    ]

-- `pthread_cond_wait` returned `status`, with the mutex held again.
unfoldable pub wake : ℕ → Status → Once → Next × Once
wake g status o =
    if is_ok status
    then attempt g (record o { waiters = o.waiters - 1 })
    else (returns status, release g (record o { waiters = o.waiters - 1 }))

-- `__waiter_exited`: the thread was cancelled in its wait.
unfoldable pub waiter_exited : ℕ → Once → Once
waiter_exited g o = release g (record o { waiters = o.waiters - 1 })

-- The end of the initializer: the word becomes `word`, and the waiters are woken if there are any.
unfoldable leave : ℕ → ℕ → Once → Bool × Once
leave g word o = (
  not (o.waiters == 0),
  release g (record o {
    entries = update key g (set_running false) o.entries;
    words = write_word o.words g word;
  }),
)

-- After `initialize()` returned.
unfoldable pub finish : ℕ → Once → Bool × Once
unfolding leave
finish g o = leave g done_word o

-- `__initializer_exited`: the thread was cancelled in `initialize()`.
unfoldable pub initializer_exited : ℕ → Once → Bool × Once
unfolding leave
initializer_exited g o = leave g initial o
