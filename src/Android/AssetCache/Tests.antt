-- ===== src/Android/AssetCache/Tests.antt =====
-- Two directories, one of them listed; names compare as bytes, and the search looks at each name.
use vita_arc.Base.{
  ℕ, ◌≤◌, ◌≡◌, ◌⊎◌, refl, Bool, true, false, none, some, List, [], ◌∷◌, get_elem?, if◌then◌else◌,
}
use vita_arc.Base.Text.{codes, bytes_eq}
use vita_arc.Android.AssetCache.Defs.{
  Folder, Cache, Directory, absent, listing, free_slot, cache_clear, ask, asset_cached,
}
use vita_arc.Android.AssetCache.Refinement.{is_listed}
use vita_arc.Android.AssetCache.Slots.{free_slot-oldest}

abbrev sort : List (List ℕ) → List (List ℕ)
sort names = names

abbrev bsearch : List (List ℕ) → List ℕ → Bool
bsearch names name = is_listed bytes_eq names name

abbrev directory : List ℕ → Directory
directory path =
    if bytes_eq path (codes "img")
    then listing (codes "." ∷ codes "b.png" ∷ codes "a.png" ∷ [])
    else absent

abbrev empty : Cache
empty = record { folders = []; serial = 0 }

-- Another thread asks for another directory between the sections.
abbrev meanwhile : Cache → Cache
meanwhile c = (ask bsearch (codes "snd") (codes "a.mp3") c).1

listed :
    ((asset_cached sort bsearch directory true meanwhile (codes "img/a.png") (cache_clear empty)).0
      ≡ true)
    × ((asset_cached sort bsearch directory true meanwhile
          (codes "img/c.png")
          (cache_clear empty)).0
        ≡ false)
unfolding asset_cached is_listed
listed = (refl, refl)

abbrev folder : ℕ → Folder
folder n = record { path = codes "img"; names = []; used = n }

free_slot-oldest_example :
    let fs = some (folder 7) ∷ some (folder 3) ∷ some (folder 5) ∷ [] in
    (get_elem? fs (free_slot fs) ≡ some none)
    ⊎ ((f : Folder) × (get_elem? fs (free_slot fs) ≡ some (some f)) × (f.used ≤ 5))
free_slot-oldest_example =
    free_slot-oldest (some (folder 7) ∷ some (folder 3) ∷ some (folder 5) ∷ []) 2 (folder 5) refl
