-- ===== src/Lib.antt =====
-- A verification library of VitaArc, the loader and the Android compatibility layer that runs a game's ARM
-- library on the console.
--
-- The program maps an ELF library, binds its imports to bridges, and serves the calls that the library makes:
-- the C library and its threads, the JNI environment, audio, OpenGL and hooks into Cocos2d-x. The parts meet at
-- the boundary of the guest: what comes from the guest (a file, an address, a descriptor, a control word) is
-- checked, and what the guest holds is a handle that a table of the bridge knows.
--
-- The modules and the code they model:
-- - Libc.Errno, Libc.Keyed: the results of the native library's calls, and the linked lists that the registries
--   search by a key.
-- - Libc.ThreadAttributes: src/bridges/libc/thread_attributes.c. The attributes that the guest sees are a record
--   (`ThreadAttr`); each `_pthread_attr_*` function is a function of the same name in snake case, and
--   `native_attributes` is bridge_thread_native_attributes, with the native library's results as arguments.
-- - Libc.Rwlock: src/bridges/libc/rwlock.c. `Registry` is the list `__locks` with the guest's words; Interleave has
--   the steps of threads between the sections that hold the registry's mutex.
-- - Libc.Once: src/bridges/libc/once.c. `Once` is the registry with the control words; Interleave has the
--   steps of the threads: they enter, wait, run the initializer, are cancelled, wake and leave.
-- - Loader.Elf: the structures of src/elf.h, read from the bytes of a file. Loader.Validation:
--   src/loader/validation.c, one function for each check of loader_elf_check.
-- - Loader.Image: loader_load_sections of src/loader/image.c and loader_bind of src/loader/relocation.c.
--   `Library` is `dynalib_t` with the memory of the process and the list of the writes to it; Writes, Safety and
--   Bound follow where the writes go, Binding which imports are left. Loader.Validation's result is their hypothesis.
-- - Loader.Registry: src/loader.c. `Registry` is `__libs` with `__count` and the calls that were made into the
--   libraries; a handle is the index of its slot. Symbols has the exports, Unwind loader_find_exidx, Life the
--   loading (it calls Loader.Validation and Loader.Image), Release the initializers and the release.
-- - Jni.References: src/bridges/jni/references.c. A reference is the address of a cell; `Refs` is the list of the
--   references, the memory of the cells, and the frames and the call serial of each thread. Deletion and Popping
--   say which references an operation removes, Creation and Collection what the others do.
-- - Jni.Heap: src/bridges/jni/runtime/heap.c. `Heap` is the list of the objects; Marking and Loop follow the marks
--   of the collector from the roots, which Jni.References' cells are among; Monitors has the monitors' steps.
-- - Jni.Descriptor: src/bridges/jni/descriptor.c, against the grammar of descriptors in Jni.Descriptor.Print.
-- - Audio.Mp3Frame: src/bridges/audio/mp3_frame.c. A file is the list of its bytes from the position on.
-- - Audio.Mp3Marks: src/bridges/audio/mp3_marks.c. `Marks` is the ring `__rows` with `__next`.
-- - Audio.Wav: src/bridges/audio/wav.c. Bounds follows the resampling into the file's samples, Scanning the loop
--   over the chunks.
-- - Cocos.TextureSize: src/bridges/cocos2dx/texture_size.c.
-- - Android.AssetCache: src/bridges/android/asset_cache.c. `ask` and `publish` are the two sections of a_asset_cached
--   under the mutex; Refinement compares them with the directories, with the steps of other threads in between.
-- - Opengl.PixelStore: src/bridges/opengl/pixel_store.c. `unpack` is `__unpack` over the client's memory;
--   Settings follows the calls of bridge_gl_pixel_store_i.
-- - Base: lists and Boolean tests over the native numbers, signed integers, bits, C strings and loops.
--
-- What is a parameter: the results of the native thread library and of allocations, which memory an allocation
-- returns (with the hypothesis, where one is needed, that it holds no reference in the list), the numbers of
-- psp2/audiodec.h, what the guest writes to its own control words, the kernel's answers to the loader, the file
-- that is loaded, what directories hold, qsort and bsearch, and the hooks that other modules set in a library.
--
-- Bounds: sizes and addresses have 32 bits, and a sum that may wrap is written with its wrap, or the code's own
-- guard against it is in the model. Loops over a list or a counted range are structural recursion. The loop of
-- the descriptor parser has 256 rounds of fuel, as the code stops after 255 arguments. The loop over the chunks of
-- a WAV file takes its fuel as an argument; Audio.Wav.Scanning says how much is enough. The halving of texture
-- sizes has five rounds of fuel, enough for sizes up to 16384.
--
-- Not modelled: the versions of the AudioProvider table, the code of the libraries (a constructor is an event, and
-- does not call the loader), the scheduling inside the native library, the classes and fields of the JNI runtime,
-- the audio players, vitaGL, the engine's objects, the file system, logging and the tools. Code that several threads run is modelled at the granularity of the sections under its mutex.
pub mod Base
pub mod Libc
pub mod Loader
pub mod Jni
pub mod Cocos
pub mod Audio
pub mod Android
pub mod Opengl
