-- ===== src/Android/AssetCache/Defs.antt =====
-- The cache of directory listings. What a directory holds is a parameter, as are qsort, bsearch and the comparison.
use vita_arc.Base.{ℕ, ◌+◌, ◌-◌, ◌%◌, ◌^◌, Bool, true, false, not, ◌||◌, Option, none, some}
use vita_arc.Base.{List, [], ◌∷◌, ltb, leb, ◌==◌, if◌then◌else◌, length, set, replicate}
use vita_arc.Base.Text.{codes, bytes_eq}

-- `asset_folder_t`; its names are sorted.
pub record Folder : Type 0 where
  pub path : List ℕ
  pub names : List (List ℕ)
  pub used : ℕ

-- `__folders` and `__serial`.
pub record Cache : Type 0 where
  pub folders : List (Option Folder)
  pub serial : ℕ

abbrev pub folder_limit : ℕ
folder_limit = 16

-- What opendir, readdir and closedir say of a path: there is no such directory, an error, or the entries.
pub data Directory : Type 0 where
  absent broken : Directory
  listing : List (List ℕ) → Directory

-- `__append` of the entries after the first `count` names of `bytes` bytes, without `.` and `..`.
unfoldable pub append_all : ℕ → ℕ → List (List ℕ) → Option (List (List ℕ))
unfolding bytes_eq
append_all count bytes [] = some []
append_all count bytes (e ∷ es) =
    let size = length e + 1 in
    let rest = append_all (count + 1) (bytes + size) es in
    let skipped = append_all count bytes es in
    if bytes_eq e (codes ".") || bytes_eq e (codes "..")
    then skipped
    else if count == 4096 || ltb (65536 - bytes) size
    then none
    else elim rest [ none ↦ none | some names ↦ some (e ∷ names) ]

-- The names as they are stored.
unfoldable pub arranged : (List (List ℕ) → List (List ℕ)) → List (List ℕ) → List (List ℕ)
arranged sort names = if ltb 1 (length names) then sort names else names

-- The names of a directory, `none` where they cannot be told or do not fit.
unfoldable pub directory_names : Directory → Option (List (List ℕ))
unfolding append_all
directory_names absent = some []
directory_names broken = none
directory_names (listing es) = append_all 0 0 es

-- `__load`; the first argument is whether the memory is there.
unfoldable pub load_folder :
    Bool → (List (List ℕ) → List (List ℕ)) → Directory → Option (List (List ℕ))
unfolding directory_names arranged
load_folder allocated sort d =
    if not allocated
    then none
    else elim (directory_names d) [ none ↦ none | some names ↦ some (arranged sort names) ]

-- `__find`, from a slot on
unfoldable pub find_folder : List ℕ → ℕ → List (Option Folder) → Option (ℕ × Folder)
unfolding bytes_eq
find_folder path i [] = none
find_folder path i (none ∷ fs) = find_folder path (i + 1) fs
find_folder path i (some f ∷ fs) =
    if bytes_eq f.path path then some (i, f) else find_folder path (i + 1) fs

-- Whether `__contains` finds a name; the first argument is bsearch.
unfoldable pub has_name : (List (List ℕ) → List ℕ → Bool) → List (List ℕ) → List ℕ → Bool
has_name bsearch [] name = false
has_name bsearch (n ∷ ns) name = bsearch (n ∷ ns) name

-- `__contains` of the folder in a slot.
unfoldable pub contains_name :
    (List (List ℕ) → List ℕ → Bool) → ℕ → Folder → List ℕ → Cache → Bool × Cache
unfolding has_name
contains_name bsearch i f name c =
    let serial = (c.serial + 1) % 2 ^ 64 in
    (
      has_name bsearch f.names name,
      record c { serial = serial; folders = set c.folders i (some (record f { used = serial })) },
    )

-- The loop of `__slot`: `best` is the oldest so far, with its use.
unfoldable pub slot_from : ℕ → ℕ → ℕ → List (Option Folder) → ℕ
slot_from i best least [] = best
slot_from i best least (none ∷ fs) = i
slot_from i best least (some f ∷ fs) =
    let newer = slot_from (i + 1) best least fs in
    let older = slot_from (i + 1) i f.used fs in if ltb f.used least then older else newer

abbrev first_use : List (Option Folder) → ℕ
first_use [] = 0
first_use (none ∷ fs) = 0
first_use (some f ∷ fs) = f.used

-- `__slot`
unfoldable pub free_slot : List (Option Folder) → ℕ
unfolding slot_from
free_slot fs = slot_from 0 0 (first_use fs) fs

-- The path before the last '/' and what follows it.
unfoldable pub split_path : List ℕ → Option (List ℕ × List ℕ)
split_path [] = none
split_path (b ∷ bs) = elim (split_path bs) [
  | some (parent, name) ↦ some (b ∷ parent, name)
  | none ↦ if b == 47 then some ([], bs) else none
]

-- The tests at the start of a_asset_cached: `none` is `return true`.
unfoldable pub asset_path : List ℕ → Option (List ℕ × List ℕ)
unfolding split_path
asset_path path = elim (split_path path) [
  | none ↦ none
  | some (parent, name) ↦
      if length name == 0 || length parent == 0 || leb 1024 (length parent)
      then none
      else some (parent, name)
]

-- The first section of a_asset_cached under the mutex, for a directory and a name: an answer, or `none` if the
-- directory is to be loaded.
unfoldable pub ask : (List (List ℕ) → List ℕ → Bool) → List ℕ → List ℕ → Cache → Option Bool × Cache
unfolding find_folder contains_name
ask bsearch parent name c = elim (find_folder parent 0 c.folders) [
  | none ↦ (none, c)
  | some (i, f) ↦ (let r = contains_name bsearch i f name c in (some r.0, r.1))
]

-- The second section, after the directory was loaded.
unfoldable pub publish :
    (List (List ℕ) → List ℕ → Bool)
    → List ℕ
    → List ℕ
    → Option (List (List ℕ))
    → Cache
    → Bool × Cache
unfolding find_folder contains_name free_slot
publish bsearch parent name none c = (true, c)
publish bsearch parent name (some names) c = elim (find_folder parent 0 c.folders) [
  | some (i, f) ↦ contains_name bsearch i f name c
  | none ↦
      (let i = free_slot c.folders in
        let f : Folder = record { path = parent; names = names; used = 0 } in
        contains_name bsearch i f name (record c { folders = set c.folders i (some f) }))
]

-- a_asset_cache_clear
abbrev pub cache_clear : Cache → Cache
cache_clear c = record { folders = replicate folder_limit none; serial = 0 }

-- a_asset_cached; `meanwhile` is what other threads do to the cache between its sections.
unfoldable pub asset_cached :
    (List (List ℕ) → List (List ℕ))
    → (List (List ℕ) → List ℕ → Bool)
    → (List ℕ → Directory)
    → Bool
    → (Cache → Cache)
    → List ℕ
    → Cache
    → Bool × Cache
unfolding asset_path ask load_folder publish
asset_cached sort bsearch directory allocated meanwhile path c = elim (asset_path path) [
  | none ↦ (true, c)
  | some (parent, name) ↦
      (let asked = ask bsearch parent name c in
        elim asked.0 [
          | some found ↦ (found, asked.1)
          | none ↦
              publish bsearch parent name (load_folder allocated sort (directory parent))
                (meanwhile asked.1)
        ])
]
