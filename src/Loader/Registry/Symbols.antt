-- ===== src/Loader/Registry/Symbols.antt =====
-- The exports of the loaded libraries.
use vita_arc.Base.{ℕ, ◌+◌, ◌/◌, not, ◌&&◌, Option, none, some}
use vita_arc.Base.{List, [], ◌∷◌, ◌==◌, if◌then◌else◌, drop}
use vita_arc.Base.Text.{codes, until_nul, bytes_eq}
use vita_arc.Loader.Elf.{Shdr, Sym, read_sym, read_table}
use vita_arc.Loader.Image.Relocation.{symbol_address}
use vita_arc.Loader.Registry.Defs.{Entry}

unfoldable symbol_name : List ℕ → Shdr → Sym → List ℕ
unfolding until_nul
symbol_name image strings s = until_nul (drop (strings.offset + s.name) image)

-- The first symbol of the name that is defined.
unfoldable find_symbol : List ℕ → Shdr → List ℕ → List Sym → Option Sym
unfolding symbol_name bytes_eq
find_symbol image strings name [] = none
find_symbol image strings name (s ∷ ss) =
    if not (s.shndx == 0) && bytes_eq (symbol_name image strings s) name
    then some s
    else find_symbol image strings name ss

unfoldable exported : List ℕ → Entry → Option Sym
unfolding find_symbol read_table read_sym
exported name e = elim e.tables [
  | none ↦ none
  | some (symbols, strings) ↦
      find_symbol e.image strings name
        (read_table read_sym 16 e.image symbols.offset (symbols.size / 16))
]

-- loader_lookup, from slot `i` on
unfoldable lookup_from : ℕ → List ℕ → ℕ → List (Option Entry) → ℕ
unfolding exported symbol_address
lookup_from requester name i [] = 0
lookup_from requester name i (none ∷ ss) = lookup_from requester name (i + 1) ss
lookup_from requester name i (some e ∷ ss) =
    let rest = lookup_from requester name (i + 1) ss in
    if i == requester
    then rest
    else elim (exported name e) [ none ↦ rest | some s ↦ symbol_address e.library.base s ]

unfoldable pub lookup : ℕ → List ℕ → List (Option Entry) → ℕ
unfolding lookup_from
lookup requester name slots = lookup_from requester name 0 slots

-- loader_get_import_proc_address: `bridge` is the table of the bridges, `provider` the address that is chosen
-- for the AudioProvider's table.
unfoldable pub import_address : (List ℕ → ℕ) → ℕ → ℕ → List (Option Entry) → List ℕ → ℕ
unfolding lookup bytes_eq
import_address bridge provider requester slots name =
    let target = lookup requester name slots in
    if bytes_eq name (codes "_ZTV24AudioProviderFMODAndroid")
    then provider
    else if not (target == 0)
    then target
    else bridge name

-- loader_get_proc_address
unfoldable proc_address : List ℕ → Entry → ℕ
unfolding exported symbol_address
proc_address name e =
    if e.finalized
    then 0
    else elim (exported name e) [ none ↦ 0 | some s ↦ symbol_address e.library.base s ]

-- loader_get_global_proc_address
unfoldable global_address : List ℕ → List (Option Entry) → ℕ
unfolding proc_address
global_address name [] = 0
global_address name (none ∷ ss) = global_address name ss
global_address name (some e ∷ ss) =
    let address = proc_address name e in
    let rest = global_address name ss in
    if e.unloading then rest else if not (address == 0) then address else rest
