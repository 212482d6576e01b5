-- ===== src/Transfer/Receiver.antt =====
-- core/transfer-engine/src/receiver.rs: the receiver's session, from its first frame to the file.
-- A `HashSet<u32>` is a list without repetition and a `HashMap` an association list; the order in which a
-- `HashMap` is iterated is the parameter `iteration`. `usize` is 64 bits wide.
pub mod Gate
pub mod Ingest
pub mod Stable
pub mod Final
pub mod Bounds
pub mod Finish
pub mod Checkpoint
pub mod Recovers
use air_ferry_i_os_source.Prelude.{
  ℕ, zero, suc, ◌+◌, ◌-◌, ◌*◌, ◌/◌, ◌%◌, ◌^◌, min, max, List, ◌∷◌, ◌++◌, Option, none, some, Bool,
  true, false, not, ◌&&◌, ◌||◌, length, get_or, get_elem?, set, replicate, map, ltb, leb, ◌==◌,
  if◌then◌else◌, String, Result, ok, err, ◌>>=◌, map_err, is_err, bytes_eq,
}
use air_ferry_i_os_source.Codec.Meta.{
  SourceBlockMeta, ObjectMeta, validate, max_object_bytes, max_original_bytes,
}
use air_ferry_i_os_source.Codec.Symbol
use air_ferry_i_os_source.Codec.Decoder
use air_ferry_i_os_source.Codec.Decoder.{Raptor, Decoder}
use air_ferry_i_os_source.Protocol.Frame.{Frame}
use air_ferry_i_os_source.Transfer.{Error, raptorq, session_mismatch}
use air_ferry_i_os_source.Transfer.Types.{
  FileMeta, default_file_meta, SegmentMeta, DescriptorInfo, file_meta_eq, option_segment_eq,
}
use air_ferry_i_os_source.Transfer.Segment
use air_ferry_i_os_source.Transfer.Descriptor.{parse_payload, symbol_sum}

abbrev pub pre_meta_symbol_cache_max : ℕ
pre_meta_symbol_cache_max = 12000

abbrev pub pre_meta_cache_bytes_per_entry : ℕ
pre_meta_cache_bytes_per_entry = 64

-- `budget.div_ceil(per_entry)`
unfoldable pub pre_meta_cache_max : ℕ → ℕ
pre_meta_cache_max pending_symbol_size =
    let per_entry = max pending_symbol_size pre_meta_cache_bytes_per_entry in
    if pending_symbol_size == 0
    then pre_meta_symbol_cache_max
    else (max_object_bytes + per_entry - 1) / per_entry

-- The fields of core/transfer-engine/src/progress.rs.
pub record Progress : Type 0 where
  pub decoded_symbols : ℕ
  pub total_symbols : ℕ
  pub symbol_size : ℕ
  pub received_symbols : ℕ
  pub frames_seen : ℕ
  pub frames_duplicate : ℕ
  pub frames_corrupt : ℕ
  pub decoded_blocks : ℕ
  pub total_blocks : ℕ
  pub meta_confirmed : Bool
  pub session_mismatch_streak : ℕ

-- `Progress::is_complete`
unfoldable pub progress_is_complete : Progress → Bool
progress_is_complete p = ltb 0 p.total_blocks && (p.decoded_blocks == p.total_blocks)

abbrev pub Cache : Type 0
Cache = List ((ℕ × ℕ) × List ℕ)

pub record ReceiverSession (S : Type 0) : Type 0 where
  pub session_id : ℕ
  pub meta : Option ObjectMeta
  pub decoder : Option (Decoder S)
  pub meta_confirmed : Bool
  pub descriptor_seen : Bool
  pub file_meta : FileMeta
  pub segment_meta : Option SegmentMeta
  pub received : List (List ℕ)
  pub source_recv : List ℕ
  pub symbol_cache : Cache
  pub progress : Progress
  pub session_mismatch_streak : ℕ
  pub pending_symbol_size : ℕ
  pub last_assemble_error : Option String

-- `HashSet::contains` and `HashMap::contains_key`
unfoldable pub contains : List ℕ → ℕ → Bool
contains List.[] x = false
contains (y ∷ ys) x = (y == x) || contains ys x

unfoldable pub contains_key : Cache → ℕ → ℕ → Bool
contains_key List.[] sbn esi = false
contains_key (((s, e), bytes) ∷ cache) sbn esi =
    ((s == sbn) && (e == esi)) || contains_key cache sbn esi

abbrev pub no_progress : Progress
no_progress = record {
  decoded_symbols = 0;
  total_symbols = 0;
  symbol_size = 0;
  received_symbols = 0;
  frames_seen = 0;
  frames_duplicate = 0;
  frames_corrupt = 0;
  decoded_blocks = 0;
  total_blocks = 0;
  meta_confirmed = false;
  session_mismatch_streak = 0;
}

abbrev pub blocks_of : Option ObjectMeta → List SourceBlockMeta
blocks_of none = List.[]
blocks_of (some m) = m.blocks

abbrev pub symbol_size_of : Option ObjectMeta → ℕ
symbol_size_of none = 0
symbol_size_of (some m) = m.symbol_size

abbrev pub k_at : List SourceBlockMeta → ℕ → ℕ
k_at blocks i = elim (get_elem? blocks i) [ none ↦ 0 | some b ↦ b.num_source_symbols ]

-- `meta.blocks.iter().map(|_| HashSet::new()).collect()`
abbrev pub empty_sets : List SourceBlockMeta → List (List ℕ)
empty_sets blocks = replicate (length blocks) List.[]

module _ {S : Type 0} where
  unfoldable pub build : ℕ → Option ObjectMeta → Option (Decoder S) → Bool → ReceiverSession S
  unfolding symbol_sum
  build session_id meta decoder meta_confirmed = record {
    session_id = session_id;
    meta = meta;
    decoder = decoder;
    meta_confirmed = meta_confirmed;
    descriptor_seen = false;
    file_meta = default_file_meta;
    segment_meta = none;
    received = empty_sets (blocks_of meta);
    source_recv = replicate (length (blocks_of meta)) 0;
    symbol_cache = List.[];
    progress = record no_progress {
      total_symbols = symbol_sum (blocks_of meta);
      total_blocks = length (blocks_of meta) % 2 ^ 32;
    };
    session_mismatch_streak = 0;
    pending_symbol_size = symbol_size_of meta;
    last_assemble_error = none;
  }

  unfoldable pub new_pending : ℕ → ReceiverSession S
  unfolding build
  new_pending session_id = build session_id none none false

  unfoldable pub from_first_frame : Frame → ReceiverSession S
  unfolding build
  from_first_frame frame = build frame.header.session_id none none false

  -- With the authoritative metadata.
  unfoldable pub new_confirmed : Raptor S → ℕ → ObjectMeta → Result Error (ReceiverSession S)
  unfolding build Decoder.new
  new_confirmed rq session_id meta = do
    decoder ← map_err raptorq (Decoder.new rq meta)
    ok (build session_id (some meta) (some decoder) true)

  unfoldable pub progress_of : ReceiverSession S → Progress
  progress_of rx = record rx.progress {
    meta_confirmed = rx.meta_confirmed;
    symbol_size = rx.pending_symbol_size;
  }

  -- `is_some_and(|d| d.is_complete())`
  unfoldable pub completed : Option (Decoder S) → Bool
  unfolding Decoder.is_complete
  completed none = false
  completed (some d) = Decoder.is_complete d

  unfoldable pub is_complete : ReceiverSession S → Bool
  unfolding completed
  is_complete rx = completed rx.decoder

  abbrev pub count_corrupt : ReceiverSession S → ReceiverSession S
  count_corrupt rx = record rx {
    progress = record rx.progress { frames_corrupt = rx.progress.frames_corrupt + 1 };
  }

  abbrev pub count_duplicate : ReceiverSession S → ReceiverSession S
  count_duplicate rx = record rx {
    progress = record rx.progress { frames_duplicate = rx.progress.frames_duplicate + 1 };
  }

  -- The loop of `refresh_decoded_counts`: the symbols and the blocks that are decoded, from block `i` on.
  unfoldable pub decoded_counts : Decoder S → List ℕ → List SourceBlockMeta → ℕ → ℕ × ℕ
  unfolding Decoder.block_progress
  decoded_counts dec source_recv List.[] i = (0, 0)
  decoded_counts dec source_recv (b ∷ blocks) i =
      let (symbols, solved) = decoded_counts dec source_recv blocks (suc i) in
      elim (Decoder.block_progress dec b.sbn) [
        | some k ↦ ((b.num_source_symbols + symbols) % 2 ^ 32, (1 + solved) % 2 ^ 32)
        | none ↦ ((min (get_or source_recv i 0) b.num_source_symbols + symbols) % 2 ^ 32, solved)
      ]

  abbrev refresh_with : ReceiverSession S → Option (Decoder S) → Option ObjectMeta → Progress
  unfolding decoded_counts
  refresh_with rx (some dec) (some meta) =
      let (symbols, solved) = decoded_counts dec rx.source_recv meta.blocks 0 in
      record rx.progress { decoded_symbols = symbols; decoded_blocks = solved }
  refresh_with rx _ _ = rx.progress

  unfoldable pub refresh_decoded_counts : ReceiverSession S → ReceiverSession S
  unfolding refresh_with
  refresh_decoded_counts rx = record rx { progress = refresh_with rx rx.decoder rx.meta }

-- `received[bi].insert(esi)`, and the count of source symbols with it.
unfoldable pub insert_esi : List (List ℕ) → ℕ → ℕ → List (List ℕ)
insert_esi received bi esi = set received bi (esi ∷ get_or received bi List.[])

unfoldable pub bump_source : List SourceBlockMeta → List ℕ → ℕ → ℕ → List ℕ
bump_source blocks source_recv bi esi =
    if ltb esi (k_at blocks bi)
    then set source_recv bi (get_or source_recv bi 0 + 1)
    else source_recv

-- `self.received.iter().map(|s| s.len() as u32).sum()`
unfoldable pub received_sum : List (List ℕ) → ℕ
received_sum List.[] = 0
received_sum (s ∷ sets) = (length s + received_sum sets) % 2 ^ 32
