-- ===== src/Libc/Once/Loop.antt =====
-- The loop of bridges/libc/once.c keeps the registry in agreement with the threads.
use vita_arc.Base.{ℕ, ◌+◌, ◌-◌, ◌≡◌, inl, inr, refl, true, false, none, some}
use vita_arc.Base.{List, ◌∷◌, ◌≢◌, ◌==◌, if◌then◌else◌, arith, Option-cases, Bool-cases}
use native.Mathlib.Decide.{ℕ_discrete}
use vita_arc.Libc.Errno.{ok}
use vita_arc.Libc.Keyed.{
  find, update, find-update, update-Distinct, find-unlink, unlink-Distinct, Distinct,
}
use vita_arc.Libc.Once.Defs.{
  Entry, key, Once, Next, returns, runs, waits, release_entry, release, attempt, set_running,
  write_word, running_word,
}
use vita_arc.Libc.Once.Interleave.{World, bump, follow, Inv, one, no_extra}

abbrev drop_user : Entry → Entry
drop_user e = record e { users = e.users - 1 }

find-release :
    (g j : ℕ) (entries : List Entry) (e : Entry)
    → Distinct key entries
    → find key g entries ≡ some e
    → find key j (release_entry g entries) ≡ (
        if g == j
        then (if e.users - 1 == 0 then none else some (drop_user e))
        else find key j entries)
unfolding release_entry
find-release g j entries e d f =
    ground (arith, find-unlink key g j entries d, find-update key g j drop_user entries (λ l. refl))

release-Distinct :
    (g : ℕ) (entries : List Entry) → Distinct key entries → Distinct key (release_entry g entries)
unfolding release_entry
release-Distinct g entries d =
    ground (
      arith,
      unlink-Distinct key g entries d,
      update-Distinct key g drop_user entries (λ l. refl) d,
    )

pub release-Inv :
    (w : World) (g : ℕ) → Inv w (one g) → Inv (record w { once = release g w.once }) no_extra
release-Inv w g i = record {
  distinct = release-Distinct g w.once.entries i.distinct;
  waiters = i.waiters;
  agrees = λ j. elim (Option-cases (find key g w.once.entries)) [
    | inl e ↦ absurd (ground (arith, i.agrees g))
    | inr (l, e) ↦
        ground (arith, i.agrees j, i.agrees g, find-release g j w.once.entries l i.distinct e)
  ];
}

wait-Inv :
    (w : World) (g : ℕ) (e : Entry)
    → find key g w.once.entries ≡ some e
    → e.running ≡ true
    → Inv w (one g)
    → Inv
        (record w {
          once = record (w.once) { waiters = w.once.waiters + 1 };
          sleepers = g ∷ w.sleepers;
        })
        no_extra
wait-Inv w g e f t i = record {
  distinct = i.distinct;
  waiters = omega (arith, i.waiters);
  agrees = λ j. ground (arith, i.agrees j, f);
}

run-Inv :
    (w : World) (g : ℕ) (e : Entry)
    → find key g w.once.entries ≡ some e
    → e.running ≡ false
    → w.once.words g ≢ 2
    → Inv w (one g)
    → Inv
        (record w {
          once = record (w.once) {
            entries = update key g (set_running true) w.once.entries;
            words = write_word w.once.words g running_word;
          };
          active = bump w.active g;
        })
        no_extra
run-Inv w g e f t n i = record {
  distinct = update-Distinct key g (set_running true) w.once.entries (λ l. refl) i.distinct;
  waiters = i.waiters;
  agrees = λ j.
      ground
        (arith, i.agrees j, f, find-update key g j (set_running true) w.once.entries (λ l. refl));
}

-- The three ways through a round of the loop.
attempt_done : (g : ℕ) (o : Once) → o.words g ≡ 2 → attempt g o ≡ (returns ok, release g o)
unfolding attempt
attempt_done g o h = ground arith

attempt_waits :
    (g : ℕ) (o : Once) (e : Entry)
    → o.words g ≢ 2
    → find key g o.entries ≡ some e
    → e.running ≡ true
    → attempt g o ≡ (waits, record o { waiters = o.waiters + 1 })
unfolding attempt
attempt_waits g o e h f r = ground arith

attempt_runs :
    (g : ℕ) (o : Once) (e : Entry)
    → o.words g ≢ 2
    → find key g o.entries ≡ some e
    → e.running ≡ false
    → attempt g o ≡ (
      runs,
      record o {
        entries = update key g (set_running true) o.entries;
        words = write_word o.words g running_word;
      },
    )
unfolding attempt
attempt_runs g o e h f r = ground arith

loop-Inv : (w : World) (g : ℕ) → Inv w (one g) → Inv (follow g (attempt g w.once) w) no_extra
loop-Inv w g i = elim (ℕ_discrete (w.once.words g) 2) [
  | yes d ↦ rw (attempt_done g w.once d) (release-Inv w g i)
  | no n ↦ elim (Option-cases (find key g w.once.entries)) [
    | inl f ↦ absurd (ground (arith, i.agrees g))
    | inr (e, f) ↦ elim (Bool-cases e.running) [
      | inl t ↦ rw (attempt_waits g w.once e n f t) (wait-Inv w g e f t i)
      | inr t ↦ rw (attempt_runs g w.once e n f t) (run-Inv w g e f t n i)
    ]
  ]
]

-- `follow` takes the bridge's state from the outcome alone.
follow-once :
    (g : ℕ) (r : Next × Once) (o : Once) (w : World)
    → follow g r (record w { once = o }) ≡ follow g r w
follow-once g (returns s, p) o w = refl
follow-once g (runs, p) o w = refl
follow-once g (waits, p) o w = refl

pub attempt-Inv :
    (w : World) (g : ℕ) (o : Once)
    → Inv (record w { once = o }) (one g)
    → Inv (follow g (attempt g o) w) no_extra
attempt-Inv w g o i = rw (follow-once g (attempt g o) o w) at (loop-Inv (record w { once = o }) g i)
