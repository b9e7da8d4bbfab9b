-- ===== src/Loader/Registry/Slots.antt =====
-- Writes to the slots of the table, and what the searches find after them.
use vita_arc.Base.{
  ℕ, zero, suc, ◌+◌, ◌≤◌, ◌<◌, ◌≡◌, inl, inr, refl, sym, ap, ◌∙◌, true, false, Option, none, some,
}
use vita_arc.Base.{List, [], ◌∷◌, ◌==◌, if◌then◌else◌, set, length, replicate, arith, Bool-cases}
use mathlib.Core.Option.{some-injective}
use vita_arc.Base.Text.{bytes_eq, bytes_eq_refl}
use vita_arc.Loader.Registry.Defs.{Entry, entry_at, find_from, empty_from}

-- How many slots are taken.
unfoldable pub occupied : List (Option Entry) → ℕ
occupied [] = 0
occupied (none ∷ ss) = occupied ss
occupied (some e ∷ ss) = suc (occupied ss)

pub entry_at-length :
    (ss : List (Option Entry)) (i : ℕ) (e : Entry) → entry_at ss i ≡ some e → i < length ss
unfolding entry_at
entry_at-length [] i e h = cc
entry_at-length (s ∷ ss) zero e h = omega arith
entry_at-length (s ∷ ss) (suc i) e h = omega (arith, entry_at-length ss i e h)

pub entry_at-set :
    (ss : List (Option Entry)) (i j : ℕ) (s : Option Entry)
    → i < length ss
    → entry_at (set ss i s) j ≡ (if i == j then s else entry_at ss j)
unfolding entry_at
entry_at-set [] i j s h = elim h [ ]
entry_at-set (t ∷ ss) zero zero s h = refl
entry_at-set (t ∷ ss) zero (suc j) s h = ground arith
entry_at-set (t ∷ ss) (suc i) zero s h = ground arith
entry_at-set (t ∷ ss) (suc i) (suc j) s h = ground (arith, entry_at-set ss i j s)

pub occupied-set_new :
    (ss : List (Option Entry)) (i : ℕ) (e : Entry)
    → i < length ss
    → entry_at ss i ≡ none
    → occupied (set ss i (some e)) ≡ suc (occupied ss)
unfolding entry_at occupied
occupied-set_new [] i e h n = elim h [ ]
occupied-set_new (none ∷ ss) zero e h n = refl
occupied-set_new (some f ∷ ss) zero e h n = cc
occupied-set_new (none ∷ ss) (suc i) e h n = occupied-set_new ss i e (omega arith) n
occupied-set_new (some f ∷ ss) (suc i) e h n = ap suc (occupied-set_new ss i e (omega arith) n)

pub occupied-set_same :
    (ss : List (Option Entry)) (i : ℕ) (e f : Entry)
    → entry_at ss i ≡ some f
    → occupied (set ss i (some e)) ≡ occupied ss
unfolding entry_at occupied
occupied-set_same [] i e f h = cc
occupied-set_same (none ∷ ss) zero e f h = cc
occupied-set_same (some g ∷ ss) zero e f h = refl
occupied-set_same (none ∷ ss) (suc i) e f h = occupied-set_same ss i e f h
occupied-set_same (some g ∷ ss) (suc i) e f h = ap suc (occupied-set_same ss i e f h)

pub occupied-set-none :
    (ss : List (Option Entry)) (i : ℕ) (f : Entry)
    → entry_at ss i ≡ some f
    → suc (occupied (set ss i none)) ≡ occupied ss
unfolding entry_at occupied
occupied-set-none [] i f h = cc
occupied-set-none (none ∷ ss) zero f h = cc
occupied-set-none (some g ∷ ss) zero f h = refl
occupied-set-none (none ∷ ss) (suc i) f h = occupied-set-none ss i f h
occupied-set-none (some g ∷ ss) (suc i) f h = ap suc (occupied-set-none ss i f h)

pub occupied_bound : (ss : List (Option Entry)) → occupied ss ≤ length ss
unfolding occupied
occupied_bound [] = omega arith
occupied_bound (none ∷ ss) = omega (arith, occupied_bound ss)
occupied_bound (some e ∷ ss) = omega (arith, occupied_bound ss)

-- A slot that is taken and emptied again.
pub set_back :
    (ss : List (Option Entry)) (i : ℕ) (s : Option Entry)
    → entry_at ss i ≡ none
    → i < length ss
    → set (set ss i s) i none ≡ ss
unfolding entry_at
set_back [] i s n h = refl
set_back (none ∷ ss) zero s n h = refl
set_back (some e ∷ ss) zero s n h = cc
set_back (t ∷ ss) (suc i) s n h = ap (λ us. t ∷ us) (set_back ss i s n (omega arith))

-- The empty slot that the loop finds.
pub empty_from-entry_at :
    (k i : ℕ) (ss : List (Option Entry))
    → empty_from k ss ≡ some i
    → (n : ℕ) × (i ≡ k + n) × (n < length ss) × (entry_at ss n ≡ none)
unfolding empty_from entry_at
empty_from-entry_at k i [] h = cc
empty_from-entry_at k i (none ∷ ss) h = (0, ground arith, omega arith, refl)
empty_from-entry_at k i (some e ∷ ss) h =
    let (n, at, low, e) = empty_from-entry_at (k + 1) i ss h in (suc n, omega arith, omega arith, e)

-- A full table has as many entries as slots.
empty_from-occupied :
    (k : ℕ) (ss : List (Option Entry)) → empty_from k ss ≡ none → occupied ss ≡ length ss
unfolding empty_from occupied
empty_from-occupied k [] h = refl
empty_from-occupied k (none ∷ ss) h = cc
empty_from-occupied k (some e ∷ ss) h = ap suc (empty_from-occupied (k + 1) ss h)

-- Where the search for a name ends.
find_from-entry_at :
    (name : List ℕ) (k i : ℕ) (ss : List (Option Entry))
    → find_from name k ss ≡ some i
    → (n : ℕ) × (e : Entry) × (i ≡ k + n) × (entry_at ss n ≡ some e) × (bytes_eq e.name name ≡ true)
unfolding find_from entry_at
find_from-entry_at name k i [] h = cc
find_from-entry_at name k i (none ∷ ss) h =
    let (n, e, at, there, same) = find_from-entry_at name (k + 1) i ss h in
    (suc n, e, omega arith, there, same)
find_from-entry_at name k i (some e ∷ ss) h = elim (Bool-cases (bytes_eq e.name name)) [
  | inl b ↦ (0, e, ground arith, refl, b)
  | inr b ↦
      let (n, f, at, there, same) = find_from-entry_at name (k + 1) i ss (ground arith) in
      (suc n, f, omega arith, there, same)
]

pub find_from-none :
    (name : List ℕ) (k i : ℕ) (ss : List (Option Entry)) (e : Entry)
    → find_from name k ss ≡ none
    → entry_at ss i ≡ some e
    → bytes_eq e.name name ≡ false
unfolding find_from entry_at
find_from-none name k i [] e h t = cc
find_from-none name k zero (none ∷ ss) e h t = cc
find_from-none name k (suc i) (none ∷ ss) e h t = find_from-none name (k + 1) i ss e h t
find_from-none name k zero (some f ∷ ss) e h t =
    ap (λ (x : Entry). bytes_eq x.name name) (sym (some-injective f e t)) ∙ ground arith
find_from-none name k (suc i) (some f ∷ ss) e h t =
    find_from-none name (k + 1) i ss e (ground arith) t

-- A name that was not there is found where it is put.
pub find_from-set_new :
    (name : List ℕ) (k i : ℕ) (ss : List (Option Entry)) (e : Entry)
    → find_from name k ss ≡ none
    → i < length ss
    → e.name ≡ name
    → find_from name k (set ss i (some e)) ≡ some (k + i)
unfolding find_from
find_from-set_new name k i [] e h l n = elim l [ ]
find_from-set_new name k zero (s ∷ ss) e h l n =
    ground (arith, bytes_eq_refl name, ap (λ m. bytes_eq m name) n)
find_from-set_new name k (suc i) (none ∷ ss) e h l n =
    find_from-set_new name (k + 1) i ss e h (omega arith) n ∙ ap some (omega arith)
find_from-set_new name k (suc i) (some f ∷ ss) e h l n =
    ground (arith, find_from-set_new name (k + 1) i ss e)

-- A change that keeps the name of an entry keeps what the search finds.
pub find_from-set_same :
    (name : List ℕ) (k i : ℕ) (ss : List (Option Entry)) (e f : Entry)
    → entry_at ss i ≡ some f
    → e.name ≡ f.name
    → find_from name k (set ss i (some e)) ≡ find_from name k ss
unfolding find_from entry_at
find_from-set_same name k i [] e f h n = cc
find_from-set_same name k zero (none ∷ ss) e f h n = cc
find_from-set_same name k zero (some g ∷ ss) e f h n =
    let same = n ∙ sym (ap (λ (x : Entry). x.name) (some-injective g f h)) in
    ap (λ m. if bytes_eq m name then some k else find_from name (k + 1) ss) same
find_from-set_same name k (suc i) (none ∷ ss) e f h n = find_from-set_same name (k + 1) i ss e f h n
find_from-set_same name k (suc i) (some g ∷ ss) e f h n =
    ap (λ (m : Option ℕ). if bytes_eq g.name name then some k else m)
      (find_from-set_same name (k + 1) i ss e f h n)

pub set_twice :
    (ss : List (Option Entry)) (i : ℕ) (s t : Option Entry) → set (set ss i s) i t ≡ set ss i t
set_twice [] i s t = refl
set_twice (u ∷ ss) zero s t = refl
set_twice (u ∷ ss) (suc i) s t = ap (λ vs. u ∷ vs) (set_twice ss i s t)

pub entry_at-replicate : (n i : ℕ) → entry_at (replicate n none) i ≡ none
unfolding entry_at
entry_at-replicate zero i = refl
entry_at-replicate (suc n) zero = refl
entry_at-replicate (suc n) (suc i) = entry_at-replicate n i
