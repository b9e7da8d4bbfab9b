-- ===== src/Libc/Rwlock/Table.antt =====
-- The registry list as a table: each guest lock has at most one entry.
use vita_arc.Base.{ℕ, ◌≡◌, Option, none, some, List, [], ◌∷◌}
use vita_arc.Base.{◌==◌, if◌then◌else◌, arith}
use vita_arc.Libc.Rwlock.Defs.{Lock, find, update, unlink}

abbrev pub Distinct : List Lock → Type 0
Distinct [] = Unit
Distinct (l ∷ ls) = (find l.guest ls ≡ none) × Distinct ls

-- A change of counters.
abbrev KeepsGuest : (Lock → Lock) → Type 0
KeepsGuest f = (l : Lock) → (f l).guest ≡ l.guest

-- The entry of a guest, changed.
abbrev pub map_entry : (Lock → Lock) → Option Lock → Option Lock
map_entry f none = none
map_entry f (some l) = some (f l)

pub find-update :
    (g j : ℕ) (f : Lock → Lock) (ls : List Lock)
    → KeepsGuest f
    → find j (update g f ls) ≡ (if g == j then map_entry f (find j ls) else find j ls)
unfolding find update
find-update g j f [] k = ground arith
find-update g j f (l ∷ ls) k = ground (arith, k l, find-update g j f ls k)

pub update-Distinct :
    (g : ℕ) (f : Lock → Lock) (ls : List Lock)
    → KeepsGuest f
    → Distinct ls
    → Distinct (update g f ls)
unfolding find update
update-Distinct g f [] k d = tt
update-Distinct g f (l ∷ ls) k d =
    ground (arith, k l, find-update g l.guest f ls k, update-Distinct g f ls k)

pub find-unlink :
    (g j : ℕ) (ls : List Lock)
    → Distinct ls
    → find j (unlink g ls) ≡ (if g == j then none else find j ls)
unfolding find unlink
find-unlink g j [] d = ground arith
find-unlink g j (l ∷ ls) d = ground (arith, find-unlink g j ls d.1)

pub unlink-Distinct : (g : ℕ) (ls : List Lock) → Distinct ls → Distinct (unlink g ls)
unfolding find unlink
unlink-Distinct g [] d = tt
unlink-Distinct g (l ∷ ls) d =
    ground (arith, find-unlink g l.guest ls d.1, unlink-Distinct g ls d.1)

pub guest-find : (g : ℕ) (ls : List Lock) (l : Lock) → find g ls ≡ some l → l.guest ≡ g
unfolding find
guest-find g [] l h = cc
guest-find g (x ∷ ls) l h = ground (arith, guest-find g ls l)
