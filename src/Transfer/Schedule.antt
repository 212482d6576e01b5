-- ===== src/Transfer/Schedule.antt =====
-- The order of symbols of core/transfer-engine/src/sender.rs: every source symbol once, round-robin
-- over the blocks, then fresh repair symbols.
pub mod Source
pub mod Repair
pub mod Unique
use air_ferry_i_os_source.Prelude.{
  ℕ, zero, suc, ◌+◌, ◌/◌, ◌%◌, ◌^◌, max, List, ◌∷◌, ◌++◌, Option, none, some, length, get_elem?,
  ltb, leb, if◌then◌else◌,
}
use air_ferry_i_os_source.Codec.Meta.{SourceBlockMeta, ObjectMeta}
use air_ferry_i_os_source.Codec.Config.{checked_add_u32}

abbrev pub Pair : Type 0
Pair = ℕ × ℕ

-- One round of the outer loop: the symbol `esi` of every block that has it.
unfoldable pub row : ℕ → List SourceBlockMeta → List Pair
row esi List.[] = List.[]
row esi (b ∷ blocks) =
    if ltb esi b.num_source_symbols then (b.sbn, esi) ∷ row esi blocks else row esi blocks

-- `for esi in esi..esi + rounds`
unfoldable pub rows : ℕ → ℕ → List SourceBlockMeta → List Pair
unfolding row
rows zero esi blocks = List.[]
rows (suc rounds) esi blocks = row esi blocks ++ rows rounds (suc esi) blocks

unfoldable pub max_k : List SourceBlockMeta → ℕ
max_k List.[] = 0
max_k (b ∷ blocks) = max b.num_source_symbols (max_k blocks)

unfoldable pub build_source_plan : ObjectMeta → List Pair
unfolding rows max_k
build_source_plan meta = rows (max_k meta.blocks) 0 meta.blocks

-- What `repair_symbol_id` does with the block it picked.
unfoldable pub repair_in_block : ℕ → Option SourceBlockMeta → Option Pair
repair_in_block offset none = none
repair_in_block offset (some b) =
    if leb (2 ^ 32) offset then none else elim (checked_add_u32 b.num_source_symbols offset) [
      | none ↦ none
      | some esi ↦ if ltb esi (2 ^ 24) then some (b.sbn, esi) else none
    ]

-- The callers guarantee that `blocks` is not empty.
unfoldable pub repair_symbol_id : List SourceBlockMeta → ℕ → Option Pair
unfolding repair_in_block
repair_symbol_id blocks cursor =
    let nblocks = length blocks in
    repair_in_block (cursor / nblocks) (get_elem? blocks (cursor % nblocks))

-- The two cursors of a `SenderSession`, over its fixed plan and blocks.
pub record Cursors : Type 0 where
  pub source_cursor : ℕ
  pub repair_cursor : ℕ

-- The repair phase of `next_symbol_id`; `none` is `SymbolIdSpaceExhausted`.
unfoldable pub next_repair : List SourceBlockMeta → Cursors → Option (Pair × Cursors)
unfolding repair_symbol_id
next_repair blocks c = elim (repair_symbol_id blocks c.repair_cursor) [
  | none ↦ none
  | some id ↦
      if ltb (c.repair_cursor + 1) (2 ^ 64)
      then some (id, record c { repair_cursor = c.repair_cursor + 1 })
      else none
]

unfoldable pub next_symbol_id : List Pair → List SourceBlockMeta → Cursors → Option (Pair × Cursors)
unfolding next_repair
next_symbol_id source_plan blocks c = elim (get_elem? source_plan c.source_cursor) [
  | some id ↦ some (id, record c { source_cursor = c.source_cursor + 1 })
  | none ↦ next_repair blocks c
]
