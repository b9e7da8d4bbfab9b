-- ===== src/Libc/Rwlock/Range.antt =====
-- `bridge_rwlock_range`: what becomes of each guest lock.
use vita_arc.Base.{ℕ, ◌+◌, ◌<◌, ◌≡◌, Bool, true, false, Option, none, some, List, [], ◌∷◌}
use vita_arc.Base.{arith, ◌⊎◌, inl, inr, Option-cases, ◌≤◌}
use vita_arc.Libc.Errno.{Status, ok, ebusy, is_ok}
use vita_arc.Libc.Rwlock.Defs.{
  Lock, Registry, dead, find, is_inside, is_busy, any_busy, remove_status, sweep, range, write_word,
}
use vita_arc.Libc.Rwlock.Table.{Distinct, guest-find}

-- An entry that may be removed: that of an unused lock at an address of the range.
abbrev IsRemovable : ℕ → ℕ → Option Lock → Type 0
IsRemovable base size none = ⊥
IsRemovable base size (some l) =
    (base ≤ l.guest) × (l.guest < base + size) × (l.users ≡ 0) × (l.holds ≡ 0)

-- The entry and the word of a guest lock before and after: kept, or removed and marked dead.
abbrev pub Fate : ℕ → ℕ → Option Lock → ℕ → Option Lock → ℕ → Type 0
Fate base size e word e' word' =
    ((e' ≡ e) × (word' ≡ word)) ⊎ ((e' ≡ none) × (word' ≡ dead) × IsRemovable base size e)

remove_status_ok :
    (l : Lock) (s : Status) → is_ok (remove_status l s) ≡ true → (l.users ≡ 0) × (l.holds ≡ 0)
unfolding remove_status
remove_status_ok l s h = ground arith

module _ (base size : ℕ) (stops : ℕ → Status) where
  pub sweep-Fate :
      (ls : List Lock) (words : ℕ → ℕ) (j : ℕ)
      → Distinct ls
      → let (s, ls', words') = sweep base size stops ls words in
        Fate base size (find j ls) (words j) (find j ls') (words' j)
  unfolding sweep find is_inside
  sweep-Fate [] words j d = ground arith
  sweep-Fate (l ∷ ls) words j d = ground (
    arith,
    remove_status_ok l (stops l.guest),
    sweep-Fate ls words j d.1,
    sweep-Fate ls (write_word words l.guest dead) j d.1,
  )

  pub sweep-Distinct :
      (ls : List Lock) (words : ℕ → ℕ) → Distinct ls → Distinct (sweep base size stops ls words).1
  unfolding sweep
  sweep-Distinct [] words d = d
  sweep-Distinct (l ∷ ls) words d = ground (
    arith,
    sweep-Fate ls words l.guest d.1,
    sweep-Distinct ls words d.1,
    sweep-Distinct ls (write_word words l.guest dead) d.1,
  )

  -- No entry of the range is left if the loop ended with 0.
  pub sweep-clears :
      (ls : List Lock) (words : ℕ → ℕ) (j : ℕ) (l : Lock)
      → (sweep base size stops ls words).0 ≡ ok
      → find j (sweep base size stops ls words).1 ≡ some l
      → is_inside base size l ≡ false
  unfolding sweep find
  sweep-clears [] words j l h e = cc
  sweep-clears (x ∷ ls) words j l h e =
      ground (arith, sweep-clears ls words j l, sweep-clears ls (write_word words x.guest dead) j l)

any_busy_at :
    (base size : ℕ) (ls : List Lock) (j : ℕ) (l : Lock)
    → any_busy base size ls ≡ false
    → find j ls ≡ some l
    → is_inside base size l ≡ true
    → (l.users ≡ 0) × (l.holds ≡ 0)
unfolding any_busy find is_busy
any_busy_at base size [] j l h e i = cc
any_busy_at base size (x ∷ ls) j l h e i = ground (arith, any_busy_at base size ls j l)

-- In a registry whose locks have different guest addresses, and whatever `bridge_rwlock_range` returns: each guest
-- lock keeps its entry and its word, or it was an unused lock at an address from `base` up to, but not
-- with, `base + size`, whose entry is gone and whose word is marked dead.
pub range-Fate :
    (base size : ℕ) (doing : Bool) (stops : ℕ → Status) (r : Registry) (j : ℕ)
    → Distinct r.locks
    → let (s, r') = range base size doing stops r in
      Fate base size (find j r.locks) (r.words j) (find j r'.locks) (r'.words j)
unfolding range
range-Fate base size doing stops r j d =
    ground (arith, sweep-Fate base size stops r.locks r.words j d)

pub range-Distinct :
    (base size : ℕ) (doing : Bool) (stops : ℕ → Status) (r : Registry)
    → Distinct r.locks
    → Distinct (range base size doing stops r).1.locks
unfolding range
range-Distinct base size doing stops r d =
    ground (arith, d, sweep-Distinct base size stops r.locks r.words d)

-- The exit status 0 of a destroying call says that no guest lock at an address of the range is
-- registered any more.
pub range-clears :
    (base size : ℕ) (stops : ℕ → Status) (r : Registry) (j : ℕ)
    → (range base size true stops r).0 ≡ ok
    → base ≤ j
    → j < base + size
    → find j (range base size true stops r).1.locks ≡ none
unfolding range is_inside
range-clears base size stops r j h low high =
    elim (Option-cases (find j (sweep base size stops r.locks r.words).1)) [
      | inl gone ↦ ground arith
      | inr (l, e) ↦ ground (
        arith,
        guest-find j (sweep base size stops r.locks r.words).1 l e,
        sweep-clears base size stops r.locks r.words j l,
      )
    ]

-- If some lock of the range is waited for or held, the call returns EBUSY and changes nothing, whether
-- it is to destroy the locks or not.
range-busy :
    (base size : ℕ) (doing : Bool) (stops : ℕ → Status) (r : Registry) (j : ℕ) (l : Lock)
    → find j r.locks ≡ some l
    → base ≤ j
    → j < base + size
    → 0 < l.users + l.holds
    → range base size doing stops r ≡ (ebusy, r)
unfolding range is_inside
range-busy base size doing stops r j l e low high used =
    ground (arith, guest-find j r.locks l e, any_busy_at base size r.locks j l)
