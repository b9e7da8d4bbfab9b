-- ===== src/Libc/Rwlock/Calls.antt =====
-- A destroyed lock, and the holds that unlock spends.
use vita_arc.Base.{ℕ, ◌+◌, ◌≡◌, Bool, true, none, some, List, refl, arith, inl, inr, Option-cases}
use vita_arc.Libc.Errno.{Status, ok, einval, eperm}
use vita_arc.Libc.Rwlock.Defs.{
  Lock, Registry, valid, find, destroy, remove, remove_status, acquire_enter, acquire_leave, unlock,
  settle, update, add_user, drop_hold,
}
use vita_arc.Libc.Rwlock.Table.{Distinct, guest-find, find-unlink, find-update}
use vita_arc.Libc.Rwlock.Effects.{find_link-some}

-- What a successful destroy leaves.
destroy-ok :
    (g : ℕ) (stopped : Status) (r : Registry)
    → Distinct r.locks
    → (destroy g stopped r).0 ≡ ok
    → (find g (destroy g stopped r).1.locks ≡ none) × ((destroy g stopped r).1.words g ≡ 0xffffffff)
unfolding destroy remove
destroy-ok g stopped r d h = elim (Option-cases (find g r.locks)) [
  | inl e ↦ ground arith
  | inr (l, e) ↦ ground (
    arith,
    guest-find g r.locks l e,
    find-unlink l.guest g r.locks d,
    find_link-some g r.locks l (remove_status l stopped) e,
  )
]

destroyed :
    (g : ℕ) (stopped started again unlocked : Status) (allocated : Bool) (r : Registry)
    → valid g ≡ true
    → find g r.locks ≡ none
    → r.words g ≡ 0xffffffff
    → (acquire_enter g allocated started r ≡ (einval, r))
      × (unlock g unlocked r ≡ (eperm, r))
      × (destroy g again r ≡ (einval, r))
unfolding acquire_enter unlock destroy
destroyed g stopped started again unlocked allocated r v e w =
    (ground arith, ground arith, ground arith)

destroy-valid :
    (g : ℕ) (stopped : Status) (r : Registry) → (destroy g stopped r).0 ≡ ok → valid g ≡ true
unfolding destroy
destroy-valid g stopped r h = ground arith

-- After a successful destroy, taking the lock fails with EINVAL, releasing it with EPERM, and a second
-- destroy with EINVAL, and none of these changes the registry or the word.
destroy-refused :
    (g : ℕ) (stopped started again unlocked : Status) (allocated : Bool) (r : Registry)
    → Distinct r.locks
    → (destroy g stopped r).0 ≡ ok
    → let r' = (destroy g stopped r).1 in
      (acquire_enter g allocated started r' ≡ (einval, r'))
      × (unlock g unlocked r' ≡ (eperm, r'))
      × (destroy g again r' ≡ (einval, r'))
destroy-refused g stopped started again unlocked allocated r d h =
    let (e, w) = destroy-ok g stopped r d h in
    destroyed g stopped started again unlocked allocated (destroy g stopped r).1
      (destroy-valid g stopped r h) e w

-- The three changes of an entry, one after the other.
cycle : List Lock → ℕ → List Lock
cycle ls g = update g drop_hold (update g (settle ok) (update g add_user ls))

find-cycle :
    (g j : ℕ) (ls : List Lock) (l : Lock) → find g ls ≡ some l → find j (cycle ls g) ≡ find j ls
unfolding cycle
find-cycle g j ls l e = ground (
  arith,
  find-update g j drop_hold (update g (settle ok) (update g add_user ls)) (λ l. refl),
  find-update g j (settle ok) (update g add_user ls) (λ l. refl),
  find-update g j add_user ls (λ l. refl),
)

held_entry :
    (g : ℕ) (ls : List Lock) (l : Lock)
    → find g ls ≡ some l
    → find g (update g (settle ok) (update g add_user ls)) ≡ some (record l { holds = l.holds + 1 })
held_entry g ls l e = ground (
  arith,
  find-update g g (settle ok) (update g add_user ls) (λ l. refl),
  find-update g g add_user ls (λ l. refl),
)

unlock-cycle :
    (g : ℕ) (allocated : Bool) (started : Status) (r : Registry) (l : Lock)
    → valid g ≡ true
    → find g r.locks ≡ some l
    → unlock g ok (acquire_leave g ok (acquire_enter g allocated started r).1)
      ≡ (ok, record r { locks = cycle r.locks g })
unfolding acquire_enter acquire_leave unlock cycle
unlock-cycle g allocated started r l v e = ground (arith, held_entry g r.locks l e)

-- On a registered lock, an acquisition whose native call succeeds and the unlock that releases it both
-- return 0, and give back the entry and the word of every guest lock.
unlock-acquire :
    (g j : ℕ) (allocated : Bool) (started : Status) (r : Registry) (l : Lock)
    → valid g ≡ true
    → find g r.locks ≡ some l
    → let entered = acquire_enter g allocated started r in
      let released = unlock g ok (acquire_leave g ok entered.1) in
      (entered.0 ≡ ok)
      × (released.0 ≡ ok)
      × (find j released.1.locks ≡ find j r.locks)
      × (released.1.words j ≡ r.words j)
unlock-acquire g j allocated started r l v e =
    rw (unlock-cycle g allocated started r l v e)
      (entered_ok, refl, find-cycle g j r.locks l e, refl)
  where
    entered_ok : (acquire_enter g allocated started r).0 ≡ ok
    entered_ok = unfold acquire_enter in ground arith
