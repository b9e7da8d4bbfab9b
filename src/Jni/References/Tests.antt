-- ===== src/Jni/References/Tests.antt =====
-- Runs of bridges/jni/references.c and the witnesses of its theorems.
use vita_arc.Base.{ℕ, ◌≡◌, ◌≢◌, true, false, ◌&&◌, none, some, [], ◌∷◌, ◌==◌, if◌then◌else◌, refl}
use vita_arc.Jni.References.Defs.{
  Reference, Frame, Refs, local, global, find, resolve, type_of, is_new_local, ensure, new, link,
  zeroed, contains, available, free_cells, free_slot, first_free, local_slot,
}
use vita_arc.Jni.References.Frames.{delete, leave_native, cleanup_frames}
use vita_arc.Jni.References.Creation.{Fresh, new-local}
use vita_arc.Jni.References.Deletion.{may_delete, delete-find, WellFormed}
use vita_arc.Jni.References.Invariant.{new-WellFormed}
use vita_arc.Jni.References.Popping.{
  leave_native-removes, cleanup-removes, in_frames, in_blocks, left,
}

-- A table with the global reference 5, and a native frame of the thread 1 with room for two references.
abbrev globe : Reference
globe = record { object = 77; type = global; owner = none; call_serial = 0 }

abbrev native_frame : Frame
native_frame = record { blocks = record { base = 100; capacity = 2 } ∷ []; native_boundary = true }

abbrev before : Refs
before = record {
  list = 5 ∷ [];
  cell = λ v. if v == 5 then globe else zeroed;
  frames = λ t. if t == 1 then native_frame ∷ [] else [];
  serial = λ t. 3;
}

abbrev held : Reference
held = record { object = 9; type = local; owner = some 1; call_serial = 3 }

abbrev after : Refs
after = record {
  list = 100 ∷ 5 ∷ [];
  cell = λ v. if 100 == v then held else if v == 5 then globe else zeroed;
  frames = λ t. if t == 1 then native_frame ∷ [] else [];
  serial = λ t. 3;
}

new-after : new 1 9 local true (some 200) before ≡ some (100, after)
unfolding new local_slot ensure available free_cells free_slot first_free link
new-after = refl

before-Fresh : Fresh 1 1 (some 200) before
unfolding available free_cells
before-Fresh = (refl, tt)

new-local_example :
    ((resolve 1 100 after ≡ 9)
      × ((type_of 1 100 after ≡ local)
          × ((is_new_local 1 100 after ≡ true) × ((u : ℕ) → u ≢ 1 → resolve u 100 after ≡ 0))))
    × ((u w : ℕ) → w ≢ 100 → resolve u w after ≡ resolve u w before)
new-local_example = new-local 1 9 true (some 200) before after 100 before-Fresh new-after

before-WellFormed : WellFormed before
unfolding contains
before-WellFormed = ((refl, tt), (refl, tt))

new-WellFormed_example : WellFormed after
new-WellFormed_example =
    new-WellFormed 1 9 true (some 200) before after 100 before-WellFormed before-Fresh new-after

after-WellFormed : WellFormed after
unfolding contains
after-WellFormed = ((refl, (refl, tt)), (refl, (refl, tt)))

delete-find_example :
    WellFormed (delete 1 100 local after)
    × (((w : ℕ)
          → find w (delete 1 100 local after)
            ≡ (if may_delete 1 100 local after && 100 == w then none else find w after))
        × (may_delete 1 100 local after ≡ false → delete 1 100 local after ≡ after))
delete-find_example = delete-find 1 100 local after after-WellFormed

leave_native-removes_example :
    WellFormed (leave_native 1 after)
    × ((w : ℕ)
        → find w (leave_native 1 after)
          ≡ (if in_frames w (left (after.frames 1)) then none else find w after))
leave_native-removes_example = leave_native-removes 1 after after-WellFormed

cleanup-removes_example :
    (WellFormed (cleanup_frames 1 after)
      × ((w : ℕ)
          → find w (cleanup_frames 1 after)
            ≡ (if in_frames w (after.frames 1) then none else find w after)))
    × ((cleanup_frames 1 after).frames 1 ≡ [])
cleanup-removes_example = cleanup-removes 1 after after-WellFormed

-- The new reference stands in the frame, the global one does not.
in_frame : (in_frames 100 (after.frames 1) ≡ true) × (in_frames 5 (after.frames 1) ≡ false)
unfolding in_frames in_blocks
in_frame = (refl, refl)
