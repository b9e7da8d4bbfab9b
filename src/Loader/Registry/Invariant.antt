-- ===== src/Loader/Registry/Invariant.antt =====
-- The well-formed tables of libraries, and that every operation keeps them.
use vita_arc.Base.{ℕ, ◌<◌, ◌≡◌, ◌≢◌, ◌⊎◌, inl, inr, sym, ap, ◌∙◌, true, false, Option, none, some}
use vita_arc.Base.{List, set, length, length-set, arith, Bool-cases}
use mathlib.Core.Path.{subst}
use mathlib.Core.Option.{some-injective}
use native.Mathlib.Decide.{ℕ_discrete}
use vita_arc.Base.Text.{bytes_eq}
use vita_arc.Loader.Registry.Defs.{Entry, Registry, slot_limit, entry_at}
use vita_arc.Loader.Registry.Slots.{occupied, entry_at-length, entry_at-set, occupied-set_same}

-- What is left of a library whose finalization ran: it is not entered again.
abbrev pub IsSettled : Entry → Type 0
IsSettled e =
    e.finalized ≡ true
    → (e.unloading ≡ true) × (e.initialized ≡ false) × (e.prepare ≡ false) × (e.finish ≡ false)

-- The table has its 32 slots, the counter is exact, and no two libraries have the same name.
pub record WellFormed (r : Registry) : Type 0 where
  pub size : length r.slots ≡ slot_limit
  pub counted : r.count ≡ occupied r.slots
  pub settled : (i : ℕ) (e : Entry) → entry_at r.slots i ≡ some e → IsSettled e
  pub distinct :
      (i j : ℕ) (e f : Entry)
      → entry_at r.slots i ≡ some e
      → entry_at r.slots j ≡ some f
      → bytes_eq e.name f.name ≡ true
      → i ≡ j

-- What stands in a slot after a write: the new value in its own slot, else what stood there.
set_cases :
    (ss : List (Option Entry)) (i j : ℕ) (s : Option Entry) (e : Entry)
    → i < length ss
    → entry_at (set ss i s) j ≡ some e
    → ((i ≡ j) × (s ≡ some e)) ⊎ ((i ≢ j) × (entry_at ss j ≡ some e))
set_cases ss i j s e h t = elim (ℕ_discrete i j) [
  | yes p ↦ inl (p, ground (arith, entry_at-set ss i j s h))
  | no n ↦ inr (n, ground (arith, entry_at-set ss i j s h))
]

-- The write of an entry whose name clashes with no other.
module _ (r : Registry) (w : WellFormed r) (i : ℕ) (e : Entry) (at : i < length r.slots)
    (new : (j : ℕ) (f : Entry)
      → i ≢ j
      → entry_at r.slots j ≡ some f
      → (bytes_eq e.name f.name ≡ false) × (bytes_eq f.name e.name ≡ false)) where
  put-distinct :
      (j k : ℕ) (f g : Entry)
      → entry_at (set r.slots i (some e)) j ≡ some f
      → entry_at (set r.slots i (some e)) k ≡ some g
      → bytes_eq f.name g.name ≡ true
      → j ≡ k
  put-distinct j k f g a b s = elim (set_cases r.slots i j (some e) f at a) [
    | inl (p, x) ↦ elim (set_cases r.slots i k (some e) g at b) [
      | inl (q, y) ↦ sym p ∙ q
      | inr (q, y) ↦ cc ((new k g q y).0, some-injective e f x)
    ]
    | inr (p, x) ↦ elim (set_cases r.slots i k (some e) g at b) [
      | inl (q, y) ↦ cc ((new j f p x).1, some-injective e g y)
      | inr (q, y) ↦ w.distinct j k f g x y s
    ]
  ]

  pub put-WellFormed :
      (m : Registry)
      → IsSettled e
      → m.slots ≡ set r.slots i (some e)
      → m.count ≡ occupied m.slots
      → WellFormed m
  put-WellFormed m c same n = record {
    size = ap length same ∙ length-set r.slots i (some e) ∙ w.size;
    counted = n;
    settled = λ j f t.
        elim (set_cases r.slots i j (some e) f at (ap (λ ss. entry_at ss j) (sym same) ∙ t)) [
          | inl (p, x) ↦ subst IsSettled (some-injective e f x) c
          | inr (p, x) ↦ w.settled j f x
        ];
    distinct = λ j k f g a b.
        put-distinct j k f g (ap (λ ss. entry_at ss j) (sym same) ∙ a)
          (ap (λ ss. entry_at ss k) (sym same) ∙ b);
  }

-- An entry is changed in its slot, and keeps its name.
pub change-WellFormed :
    (r m : Registry) (i : ℕ) (e f : Entry)
    → WellFormed r
    → entry_at r.slots i ≡ some f
    → e.name ≡ f.name
    → IsSettled e
    → m.slots ≡ set r.slots i (some e)
    → m.count ≡ r.count
    → WellFormed m
change-WellFormed r m i e f w t n c same count =
    put-WellFormed r w i e (entry_at-length r.slots i f t)
      (λ j g q u. (
        elim (Bool-cases (bytes_eq e.name g.name)) [
          | inl b ↦ absurd (q (w.distinct i j f g t u (ap (λ m. bytes_eq m g.name) (sym n) ∙ b)))
          | inr b ↦ b
        ],
        elim (Bool-cases (bytes_eq g.name e.name)) [
          | inl b ↦
              absurd (q (sym (w.distinct j i g f u t (ap (λ m. bytes_eq g.name m) (sym n) ∙ b))))
          | inr b ↦ b
        ],
      ))
      m c same
      (count ∙ w.counted ∙ sym (occupied-set_same r.slots i e f t) ∙ ap occupied (sym same))

stayed :
    (ss : List (Option Entry)) (i j : ℕ) (e : Entry)
    → i < length ss
    → entry_at (set ss i none) j ≡ some e
    → entry_at ss j ≡ some e
stayed ss i j e h t = elim (set_cases ss i j none e h t) [ inl (p, x) ↦ cc | inr (p, x) ↦ x ]

-- An entry is taken out.
pub remove-WellFormed :
    (r m : Registry) (i : ℕ) (f : Entry)
    → WellFormed r
    → entry_at r.slots i ≡ some f
    → m.slots ≡ set r.slots i none
    → m.count ≡ occupied m.slots
    → WellFormed m
remove-WellFormed r m i f w t same n =
    let at = entry_at-length r.slots i f t in
    let old = λ (j : ℕ) (g : Entry) (u : entry_at m.slots j ≡ some g).
      stayed r.slots i j g at (ap (λ ss. entry_at ss j) (sym same) ∙ u) in
    record {
      size = ap length same ∙ length-set r.slots i none ∙ w.size;
      counted = n;
      settled = λ j g u. w.settled j g (old j g u);
      distinct = λ j k g h a b. w.distinct j k g h (old j g a) (old k h b);
    }
