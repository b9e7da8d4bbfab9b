-- ===== src/Loader/Elf.antt =====
-- The 32-bit structures of src/elf.h, read from the bytes of a file, little-endian. A read past the end
-- of the file gives 0; the loader's range checks rule it out.
use vita_arc.Base.{ℕ, zero, suc, ◌+◌, ◌*◌, ◌/◌, ◌%◌, List, [], ◌∷◌, get_or, take}

abbrev le16 : List ℕ → ℕ → ℕ
le16 image at = get_or image at 0 + 256 * get_or image (at + 1) 0

abbrev le32 : List ℕ → ℕ → ℕ
le32 image at = le16 image at + 65536 * le16 image (at + 2)

-- `Elf32_Ehdr`
pub record Ehdr : Type 0 where
  pub ident : List ℕ
  pub type : ℕ
  pub machine : ℕ
  pub version : ℕ
  pub entry : ℕ
  pub phoff : ℕ
  pub shoff : ℕ
  pub flags : ℕ
  pub ehsize : ℕ
  pub phentsize : ℕ
  pub phnum : ℕ
  pub shentsize : ℕ
  pub shnum : ℕ
  pub shstrndx : ℕ

unfoldable pub read_ehdr : List ℕ → Ehdr
read_ehdr image = record {
  ident = take 16 image;
  type = le16 image 16;
  machine = le16 image 18;
  version = le32 image 20;
  entry = le32 image 24;
  phoff = le32 image 28;
  shoff = le32 image 32;
  flags = le32 image 36;
  ehsize = le16 image 40;
  phentsize = le16 image 42;
  phnum = le16 image 44;
  shentsize = le16 image 46;
  shnum = le16 image 48;
  shstrndx = le16 image 50;
}

-- `Elf32_Phdr`
pub record Phdr : Type 0 where
  pub type : ℕ
  pub offset : ℕ
  pub vaddr : ℕ
  pub paddr : ℕ
  pub filesz : ℕ
  pub memsz : ℕ
  pub flags : ℕ
  pub align : ℕ

unfoldable pub read_phdr : List ℕ → ℕ → Phdr
read_phdr image at = record {
  type = le32 image at;
  offset = le32 image (at + 4);
  vaddr = le32 image (at + 8);
  paddr = le32 image (at + 12);
  filesz = le32 image (at + 16);
  memsz = le32 image (at + 20);
  flags = le32 image (at + 24);
  align = le32 image (at + 28);
}

-- `Elf32_Shdr`
pub record Shdr : Type 0 where
  pub name : ℕ
  pub type : ℕ
  pub flags : ℕ
  pub addr : ℕ
  pub offset : ℕ
  pub size : ℕ
  pub link : ℕ
  pub info : ℕ
  pub addralign : ℕ
  pub entsize : ℕ

unfoldable pub read_shdr : List ℕ → ℕ → Shdr
read_shdr image at = record {
  name = le32 image at;
  type = le32 image (at + 4);
  flags = le32 image (at + 8);
  addr = le32 image (at + 12);
  offset = le32 image (at + 16);
  size = le32 image (at + 20);
  link = le32 image (at + 24);
  info = le32 image (at + 28);
  addralign = le32 image (at + 32);
  entsize = le32 image (at + 36);
}

-- `Elf32_Sym`
pub record Sym : Type 0 where
  pub name : ℕ
  pub value : ℕ
  pub size : ℕ
  pub info : ℕ
  pub other : ℕ
  pub shndx : ℕ

unfoldable pub read_sym : List ℕ → ℕ → Sym
read_sym image at = record {
  name = le32 image at;
  value = le32 image (at + 4);
  size = le32 image (at + 8);
  info = get_or image (at + 12) 0;
  other = get_or image (at + 13) 0;
  shndx = le16 image (at + 14);
}

-- `Elf32_Rel`
pub record Rel : Type 0 where
  pub offset : ℕ
  pub info : ℕ

unfoldable pub read_rel : List ℕ → ℕ → Rel
read_rel image at = record { offset = le32 image at; info = le32 image (at + 4) }

-- `ELF32_R_SYM` and `ELF32_R_TYPE`
abbrev pub rel_sym : Rel → ℕ
rel_sym r = r.info / 256

abbrev pub rel_type : Rel → ℕ
rel_type r = r.info % 256

-- A table of `count` structures of `size` bytes at an offset.
unfoldable pub read_table {ℓ} : {A : Type ℓ} → (List ℕ → ℕ → A) → ℕ → List ℕ → ℕ → ℕ → List A
read_table read size image at zero = []
read_table read size image at (suc count) =
    read image at ∷ read_table read size image (at + size) count

unfoldable pub programs : List ℕ → List Phdr
unfolding read_ehdr read_phdr read_table
programs image = read_table read_phdr 32 image (read_ehdr image).phoff (read_ehdr image).phnum

unfoldable pub sections : List ℕ → List Shdr
unfolding read_ehdr read_shdr read_table
sections image = read_table read_shdr 40 image (read_ehdr image).shoff (read_ehdr image).shnum
