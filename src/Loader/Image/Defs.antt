-- ===== src/Loader/Image/Defs.antt =====
-- The mapping of segments in loader_load_sections. Addresses have 32 bits. What the kernel answers is a
-- parameter; `writes` records each write of the loader, with its size.
use vita_arc.Base.{ℕ, ◌+◌, ◌-◌, ◌%◌, ◌^◌, Bool, true, false, not, ◌&&◌, ◌||◌}
use vita_arc.Base.{List, [], ◌∷◌, ltb, leb, ◌==◌, if◌then◌else◌, get_or, take, drop, length}
use vita_arc.Loader.Elf.{Phdr}
use vita_arc.Loader.Validation.Defs.{align_up, align_down, max_segments}

abbrev pub address_limit : ℕ
address_limit = 0xB0000000

-- The answers of the kernel: whether it maps the block of a segment at the address that is asked for, and
-- whether it clears and copies memory at an address, after the writes so far.
pub record Kernel : Type 0 where
  pub maps : ℕ → Bool
  pub places : ℕ → Bool
  pub clears : List (ℕ × ℕ) → ℕ → Bool
  pub copies : List (ℕ × ℕ) → ℕ → Bool

-- `dynalib_t`, as far as the mapping and the relocation use it, with the memory of the process.
pub record Library : Type 0 where
  pub base : ℕ
  pub blocks : List (ℕ × ℕ)
  pub text : ℕ
  pub image_end : ℕ
  pub memory : ℕ → ℕ
  pub writes : List (ℕ × ℕ)

-- `memory` after the bytes are stored at an address.
unfoldable pub store : ℕ → List ℕ → (ℕ → ℕ) → ℕ → ℕ
store at bytes memory a =
    if leb at a && ltb a (at + length bytes) then get_or bytes (a - at) 0 else memory a

abbrev pub wrote : ℕ → ℕ → (ℕ → ℕ) → Library → Library
wrote at size memory l = record l { memory = memory; writes = (at, size) ∷ l.writes }

-- The address and the size of the block for a segment.
unfoldable pub target_start : ℕ → Phdr → ℕ
unfolding align_down
target_start base p = (base + align_down p.vaddr) % 2 ^ 32

unfoldable pub block_size : Phdr → ℕ
unfolding align_up align_down
block_size p = align_up ((p.vaddr - align_down p.vaddr + p.memsz) % 2 ^ 32)

-- The segment is mapped, cleared and filled from the image.
unfoldable pub fill : Kernel → List ℕ → ℕ → Phdr → Library → Bool × Library
unfolding store target_start block_size
fill kernel image index p l =
    let start = target_start l.base p in
    let size = block_size p in
    let mapped = record l { blocks = (start, size) ∷ l.blocks } in
    if not (kernel.places index)
    then (false, mapped)
    else if not (kernel.clears l.writes start)
    then (false, mapped)
    else (let cleared =
          wrote start size (λ a. if leb start a && ltb a (start + size) then 0 else l.memory a)
            mapped in
        let to = (l.base + p.vaddr) % 2 ^ 32 in
        if not (kernel.copies cleared.writes to) then (false, cleared) else (
          true,
          (let copied =
                wrote to p.filesz (store to (take p.filesz (drop p.offset image)) cleared.memory)
                  cleared in
              record copied {
                text = if p.flags % 2 == 1 then to else l.text;
                image_end =
                    if ltb l.image_end ((p.vaddr + p.memsz) % 2 ^ 32)
                    then (p.vaddr + p.memsz) % 2 ^ 32
                    else l.image_end;
              }),
        ))

-- One round of the loop over the program headers.
unfoldable pub load_segment : Kernel → List ℕ → ℕ → Phdr → Library → Bool × Library
unfolding fill block_size
load_segment kernel image index p l =
    if not (p.type == 1) || p.memsz == 0
    then (true, l)
    else if leb max_segments (length l.blocks) || ltb p.memsz p.filesz
    then (false, l)
    else if ltb address_limit (l.base + align_down p.vaddr + block_size p)
    then (false, l)
    else if not (kernel.maps index)
    then (false, l)
    else fill kernel image index p l

-- The loop: it stops at the first failure.
unfoldable pub load_segments : Kernel → List ℕ → ℕ → List Phdr → Library → Bool × Library
unfolding load_segment
load_segments kernel image index [] l = (true, l)
load_segments kernel image index (p ∷ ps) l =
    let r = load_segment kernel image index p l in
    let rest = load_segments kernel image (index + 1) ps r.1 in
    if not r.0 then (false, r.1) else rest
