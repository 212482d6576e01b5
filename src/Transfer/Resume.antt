-- ===== src/Transfer/Resume.antt =====
-- core/transfer-engine/src/resume.rs: the checkpoint of a receiver, and the gate against hostile ones.
-- A `HashSet<u32>` is a list without repetition. Its JSON form is left out.
use air_ferry_i_os_source.Prelude.{
  ℕ, ◌+◌, ◌*◌, ◌^◌, List, ◌∷◌, Bool, false, not, ◌||◌, length, ltb, leb, ◌==◌, String, Result, ok,
  ◌>>=◌, ◌>>◌, reject_if,
}
use air_ferry_i_os_source.Codec.Meta
use air_ferry_i_os_source.Codec.Meta.{
  ObjectMeta, Oti, max_object_bytes, max_total_source_symbols, checked_u64,
}

pub record ResumeState : Type 0 where
  pub session_id : ℕ
  pub meta : ObjectMeta
  pub received : List (List ℕ)
  pub symbols : List (ℕ × ℕ × List ℕ)

-- `set.iter().any(|&esi| esi >= (1 << 24))`
unfoldable pub any_large : List ℕ → Bool
any_large List.[] = false
any_large (esi ∷ set) = leb (2 ^ 24) esi || any_large set

unfoldable pub check_sets : ℕ → List (List ℕ) → ℕ → Result String (Unit {0})
unfolding any_large
check_sets max_symbol_records List.[] received_count = ok tt
check_sets max_symbol_records (set ∷ sets) received_count = do
  count ← checked_u64 (received_count + length set) "resume received count overflow"
  reject_if (ltb max_symbol_records count || any_large set) "received ESI set exceeds resume budget"
  check_sets max_symbol_records sets count

unfoldable pub check_symbols : ObjectMeta → ℕ → List (ℕ × ℕ × List ℕ) → ℕ → Result String (Unit {0})
check_symbols meta max_symbol_bytes List.[] symbol_bytes = ok tt
check_symbols meta max_symbol_bytes ((sbn, esi, bytes) ∷ symbols) symbol_bytes = do
  reject_if (leb (length meta.blocks) sbn || leb (2 ^ 24) esi)
      "stored resume symbol coordinate out of range"
  reject_if (not (length bytes == meta.symbol_size)) "stored resume symbol has wrong size"
  sum ← checked_u64 (symbol_bytes + length bytes) "resume symbol byte count overflow"
  reject_if (ltb max_symbol_bytes sum) "stored resume symbols exceed byte budget"
  check_symbols meta max_symbol_bytes symbols sum

unfoldable pub validate : (List ℕ → Oti) → ResumeState → Result String (Unit {0})
unfolding Meta.validate check_sets check_symbols
validate deserialize s = do
  Meta.validate deserialize s.meta
  reject_if (ltb (length s.meta.blocks) (length s.received)) "too many received block sets"
  max_symbol_records ←
      checked_u64 (max_total_source_symbols * 2) "resume symbol-count budget overflow"
  check_sets max_symbol_records s.received 0
  reject_if (ltb max_symbol_records (length s.symbols)) "too many stored resume symbols"
  padding ← checked_u64 (s.meta.symbol_size * length s.meta.blocks) "resume padding budget overflow"
  doubled ← checked_u64 (max_object_bytes * 2) "resume byte budget overflow"
  max_symbol_bytes ← checked_u64 (doubled + padding) "resume byte budget overflow"
  check_symbols s.meta max_symbol_bytes s.symbols 0
