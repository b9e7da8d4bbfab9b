-- ===== src/Libc/Once/Keeps.antt =====
-- Each step keeps the registry of bridges/libc/once.c in agreement with the threads.
use vita_arc.Base.{ℕ, ◌+◌, ◌-◌, ◌<◌, ◌≡◌, ◌⊎◌, inl, inr, refl, Bool, false, none, some}
use vita_arc.Base.{
  List, [], ◌∷◌, ◌++◌, length, ap, ◌==◌, if◌then◌else◌, arith, Option-cases, Bool-cases,
}
use vita_arc.Libc.Errno.{Status, is_ok}
use vita_arc.Libc.Keyed.{find, update, find-update, update-Distinct}
use vita_arc.Libc.Once.Defs.{
  Entry, key, Once, Next, returns, runs, waits, enter, wake, waiter_exited, finish,
  initializer_exited, attempt, take_entry, set_running, add_user, write_word,
}
use vita_arc.Libc.Once.Interleave.{World, bump, lower, count, follow, Inv, one, no_extra}
use vita_arc.Libc.Once.Loop.{release-Inv, attempt-Inv}

-- The entry with one more user, made if there is none.
use_entry-Inv :
    (w : World) (g : ℕ)
    → Inv w no_extra
    → (e : Entry) → find key g w.once.entries ≡ some e
    → Inv
        (record w { once = record (w.once) { entries = update key g add_user w.once.entries } })
        (one g)
use_entry-Inv w g i e f = record {
  distinct = update-Distinct key g add_user w.once.entries (λ l. refl) i.distinct;
  waiters = i.waiters;
  agrees =
      λ j. ground (arith, i.agrees j, f, find-update key g j add_user w.once.entries (λ l. refl));
}

new_entry-Inv :
    (w : World) (g : ℕ)
    → Inv w no_extra
    → find key g w.once.entries ≡ none
    → Inv
        (record w {
          once = record (w.once) {
            entries = record { control = g; users = 1; running = false } ∷ w.once.entries;
          };
        })
        (one g)
unfolding find
new_entry-Inv w g i f = record {
  distinct = (f, i.distinct);
  waiters = i.waiters;
  agrees = λ j. ground (arith, i.agrees j, f);
}

take_effect :
    (g : ℕ) (allocated : Bool) (es entries : List Entry)
    → take_entry g allocated es ≡ some entries
    → ((e : Entry) × (find key g es ≡ some e) × (entries ≡ update key g add_user es))
      ⊎ ((find key g es ≡ none)
          × (entries ≡ record { control = g; users = 1; running = false } ∷ es))
unfolding take_entry
take_effect g allocated es entries t = elim (Option-cases (find key g es)) [
  | inl f ↦ inr (ground arith)
  | inr (e, f) ↦ inl (e, f, ground arith)
]

take-Inv :
    (w : World) (g : ℕ) (allocated : Bool) (entries : List Entry)
    → take_entry g allocated w.once.entries ≡ some entries
    → Inv w no_extra
    → Inv (record w { once = record (w.once) { entries = entries } }) (one g)
take-Inv w g allocated entries t i = elim (take_effect g allocated w.once.entries entries t) [
  | inl (e, f, p) ↦ rw p (use_entry-Inv w g i e f)
  | inr (f, p) ↦ rw p (new_entry-Inv w g i f)
]

-- A return that changed nothing.
abbrev Unchanged : Next × Once → Once → Type 0
Unchanged (returns s, p) o = p ≡ o
Unchanged _ o = ⊥

follow-Unchanged : (g : ℕ) (r : Next × Once) (w : World) → Unchanged r w.once → follow g r w ≡ w
follow-Unchanged g (returns s, p) w e = λ i. record w { once = e i }
follow-Unchanged g (runs, p) w e = absurd e
follow-Unchanged g (waits, p) w e = absurd e

enter_cases :
    (g : ℕ) (callable : Bool) (locked : Status) (allocated : Bool) (o : Once) (entries : List Entry)
    → take_entry g allocated o.entries ≡ some entries
    → Unchanged (enter g callable locked allocated o) o
      ⊎ (enter g callable locked allocated o ≡ attempt g (record o { entries = entries }))
unfolding enter
enter_cases g callable locked allocated o entries t = ground arith

-- `enter` returns at once and changes nothing, or goes into the loop with its entry.
enter_effect :
    (g : ℕ) (callable : Bool) (locked : Status) (allocated : Bool) (o : Once)
    → Unchanged (enter g callable locked allocated o) o
      ⊎ ((entries : List Entry) × (take_entry g allocated o.entries ≡ some entries)
          × (enter g callable locked allocated o ≡ attempt g (record o { entries = entries })))
unfolding enter
enter_effect g callable locked allocated o =
    elim (Option-cases (take_entry g allocated o.entries)) [
      | inl t ↦ inl (ground (arith, t))
      | inr (entries, t) ↦ elim (enter_cases g callable locked allocated o entries t) [
        | inl u ↦ inl u
        | inr e ↦ inr (entries, t, e)
      ]
    ]

pub enter-Inv :
    (w : World) (g : ℕ) (callable : Bool) (locked : Status) (allocated : Bool)
    → Inv w no_extra
    → Inv (follow g (enter g callable locked allocated w.once) w) no_extra
enter-Inv w g callable locked allocated i = elim (enter_effect g callable locked allocated w.once) [
  | inl e ↦ rw (follow-Unchanged g _ w e) i
  | inr (entries, t, e) ↦ rw e (attempt-Inv w g _ (take-Inv w g allocated entries t i))
]

pub count-removed :
    (g j : ℕ) (xs ys : List ℕ)
    → count j (xs ++ (g ∷ ys)) ≡ count j (xs ++ ys) + (if g == j then 1 else 0)
count-removed g j [] ys = ground arith
count-removed g j (x ∷ xs) ys = ground (arith, count-removed g j xs ys)

pub length-removed : (g : ℕ) (xs ys : List ℕ) → length (xs ++ (g ∷ ys)) ≡ length (xs ++ ys) + 1
length-removed g [] ys = omega arith
length-removed g (x ∷ xs) ys = omega (arith, length-removed g xs ys)

-- A woken thread has left the list of those that wait, and still uses the entry.
awake-Inv :
    (w : World) (g : ℕ) (xs ys : List ℕ)
    → w.sleepers ≡ xs ++ (g ∷ ys)
    → Inv w no_extra
    → Inv
        (record w { once = record (w.once) { waiters = w.once.waiters - 1 }; sleepers = xs ++ ys })
        (one g)
awake-Inv w g xs ys e i = record {
  distinct = i.distinct;
  waiters = omega (arith, i.waiters, ap length e, length-removed g xs ys);
  agrees = λ j. ground (arith, i.agrees j, ap (count j) e, count-removed g j xs ys);
}

leave-Inv :
    (w : World) (g word : ℕ)
    → 0 < w.active g
    → (word ≡ 0) ⊎ (word ≡ 2)
    → Inv w no_extra
    → Inv
        (record w {
          once = record (w.once) {
            entries = update key g (set_running false) w.once.entries;
            words = write_word w.once.words g word;
          };
          active = lower w.active g;
          completed = if word == 2 then bump w.completed g else w.completed;
        })
        (one g)
leave-Inv w g word p h i = record {
  distinct = update-Distinct key g (set_running false) w.once.entries (λ l. refl) i.distinct;
  waiters = i.waiters;
  agrees = λ j.
      ground
        (arith, i.agrees j, find-update key g j (set_running false) w.once.entries (λ l. refl));
}

pub wake-Inv :
    (w : World) (g : ℕ) (xs ys : List ℕ) (status : Status)
    → w.sleepers ≡ xs ++ (g ∷ ys)
    → Inv w no_extra
    → Inv (follow g (wake g status w.once) (record w { sleepers = xs ++ ys })) no_extra
unfolding wake
wake-Inv w g xs ys status e i = elim (Bool-cases (is_ok status)) [
  | inl t ↦ rw t (attempt-Inv (record w { sleepers = xs ++ ys }) g _ (awake-Inv w g xs ys e i))
  | inr f ↦ rw f (release-Inv _ g (awake-Inv w g xs ys e i))
]

pub cancel-Inv :
    (w : World) (g : ℕ) (xs ys : List ℕ)
    → w.sleepers ≡ xs ++ (g ∷ ys)
    → Inv w no_extra
    → Inv (record w { once = waiter_exited g w.once; sleepers = xs ++ ys }) no_extra
unfolding waiter_exited
cancel-Inv w g xs ys e i = release-Inv _ g (awake-Inv w g xs ys e i)

pub finish-Inv :
    (w : World) (g : ℕ)
    → 0 < w.active g
    → Inv w no_extra
    → Inv
        (record w {
          once = (finish g w.once).1;
          active = lower w.active g;
          completed = bump w.completed g;
        })
        no_extra
unfolding finish
finish-Inv w g p i = release-Inv _ g (leave-Inv w g 2 p (inr refl) i)

pub exit-Inv :
    (w : World) (g : ℕ)
    → 0 < w.active g
    → Inv w no_extra
    → Inv (record w { once = (initializer_exited g w.once).1; active = lower w.active g }) no_extra
unfolding initializer_exited
exit-Inv w g p i = release-Inv _ g (leave-Inv w g 0 p (inl refl) i)
