-- ===== src/Libc/Rwlock/Effects.antt =====
-- What each function of bridges/libc/rwlock.c leaves of the registry, branch by branch.
use vita_arc.Base.{ℕ, ◌≡◌, Bool, true, false, Option, none, some, List, []}
use vita_arc.Base.{arith, ◌⊎◌, inl, inr, Option-cases, ◌∷◌}
use vita_arc.Libc.Errno.{Status, ok, is_ok}
use vita_arc.Libc.Rwlock.Defs.{
  Lock, Registry, dead, find, create, update, remove, init, destroy, add_user, find_link,
  link_after, is_null, acquire_enter, write_word,
}
use vita_arc.Libc.Rwlock.Table.{guest-find}

pub init_effect :
    (g : ℕ) (a : Option ℕ) (allocated : Bool) (started : Status) (r : Registry)
    → ((init g a allocated started r).1 ≡ r)
      ⊎ ((find g r.locks ≡ none)
          × ((init g a allocated started r).1 ≡ (create g allocated started r).1))
unfolding init
init_effect g none allocated started r = ground arith
init_effect g (some a) allocated started r = ground arith

remove-words :
    (l : Lock) (stopped : Status) (r : Registry)
    → is_ok (remove l stopped r).0 ≡ true
    → (remove l stopped r).1.words l.guest ≡ dead
unfolding remove
remove-words l stopped r h = ground arith

pub find_link-some :
    (g : ℕ) (ls : List Lock) (l : Lock) (s : Status)
    → find g ls ≡ some l
    → is_ok s ≡ false
    → is_null (link_after s (find_link g ls)) ≡ false
unfolding find find_link link_after is_null
find_link-some g [] l s e f = cc
find_link-some g (x ∷ ls) l s e f = ground (arith, find_link-some g ls l s)

pub destroy_effect :
    (g : ℕ) (stopped : Status) (r : Registry)
    → ((destroy g stopped r).1 ≡ r)
      ⊎ (((find g r.locks ≡ none)
            × ((destroy g stopped r).1 ≡ record r { words = write_word r.words g dead }))
          ⊎ ((l : Lock) × (find g r.locks ≡ some l)
              × ((destroy g stopped r).1 ≡ (remove l stopped r).1)))
unfolding destroy
destroy_effect g stopped r = elim (Option-cases (find g r.locks)) [
  | inl e ↦ ground arith
  | inr (l, e) ↦ ground (
    arith,
    guest-find g r.locks l e,
    find_link-some g r.locks l (remove l stopped r).0 e,
    remove-words l stopped r,
  )
]

find-create :
    (g : ℕ) (allocated : Bool) (started : Status) (r : Registry)
    → is_ok (create g allocated started r).0 ≡ true
    → find g (create g allocated started r).1.locks
      ≡ some (record { guest = g; users = 0; holds = 0 })
unfolding create find
find-create g allocated started r h = ground arith

pub enter_effect :
    (g : ℕ) (allocated : Bool) (started : Status) (r : Registry)
    → (acquire_enter g allocated started r).0 ≡ ok
    → ((l : Lock) × (find g r.locks ≡ some l)
        × ((acquire_enter g allocated started r).1
            ≡ record r { locks = update g add_user r.locks }))
      ⊎ ((find g r.locks ≡ none)
          × (let c = (create g allocated started r).1 in
              (find g c.locks ≡ some (record { guest = g; users = 0; holds = 0 }))
              × ((acquire_enter g allocated started r).1
                  ≡ record c { locks = update g add_user c.locks })))
unfolding acquire_enter
enter_effect g allocated started r h = elim (Option-cases (find g r.locks)) [
  | inl e ↦ inr (ground (arith, find-create g allocated started r))
  | inr (l, e) ↦ inl (l, e, ground arith)
]

pub refuse_effect :
    (g : ℕ) (allocated : Bool) (started : Status) (r : Registry)
    → is_ok (acquire_enter g allocated started r).0 ≡ false
    → (acquire_enter g allocated started r).1 ≡ r
unfolding acquire_enter create
refuse_effect g allocated started r h = ground arith
