-- ===== src/Android/AssetCache/Refinement.antt =====
-- The cache against the directories: it answers as they would, in every state that threads can leave it in.
use vita_arc.Base.{ℕ, ◌≡◌, Bool, true, false, ◌||◌, Option, none, some}
use vita_arc.Base.{List, [], ◌∷◌}
use vita_arc.Android.AssetCache.Defs.{
  Folder, Cache, Directory, arranged, directory_names, load_folder, asset_path, ask, publish,
  cache_clear,
}

-- Whether one of the names is the same as another, by the comparison of the C library.
unfoldable pub is_listed : (List ℕ → List ℕ → Bool) → List (List ℕ) → List ℕ → Bool
is_listed same [] name = false
is_listed same (n ∷ ns) name = same n name || is_listed same ns name

-- The answer of a directory: whether it lists the name, and true where its names cannot be told.
unfoldable pub directory_answer : (List ℕ → List ℕ → Bool) → Directory → List ℕ → Bool
unfolding is_listed directory_names
directory_answer same d name = elim (directory_names d) [
  | none ↦ true
  | some names ↦ is_listed same names name
]

module _ (sort : List (List ℕ) → List (List ℕ)) (bsearch : List (List ℕ) → List ℕ → Bool)
    (same : List ℕ → List ℕ → Bool) (directory : List ℕ → Directory) where
  -- A folder of the cache has the names of its directory.
  abbrev pub IsCurrent : Folder → Type 0
  IsCurrent f =
      (names : List (List ℕ)) × (directory_names (directory f.path) ≡ some names)
      × (f.names ≡ arranged sort names)

  abbrev pub AllCurrent : List (Option Folder) → Type 0
  AllCurrent [] = Unit
  AllCurrent (none ∷ fs) = AllCurrent fs
  AllCurrent (some f ∷ fs) = IsCurrent f × AllCurrent fs

  -- One section under the mutex, of any thread.
  pub data Step : Cache → Cache → Type 0 where
    asks : (parent name : List ℕ) (c : Cache) → Step c (ask bsearch parent name c).1
    publishes :
        (allocated : Bool) (parent name : List ℕ) (c : Cache)
        → Step c (publish bsearch parent name (load_folder allocated sort (directory parent)) c).1
    clears : (c : Cache) → Step c (cache_clear c)

  pub data Steps (c : Cache) : Cache → Type 0 where
    here : Steps c c
    next : {d e : Cache} → Steps c d → Step d e → Steps c e

  -- The answer for a path, without a cache.
  unfoldable pub path_answer : List ℕ → Bool
  unfolding directory_answer asset_path
  path_answer path = elim (asset_path path) [
    | none ↦ true
    | some (parent, name) ↦ directory_answer same (directory parent) name
  ]
