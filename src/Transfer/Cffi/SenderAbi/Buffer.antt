-- ===== src/Transfer/Cffi/SenderAbi/Buffer.antt =====
-- core/transfer-engine/src/cffi.rs, `airferry_sender_next_frame`: what is written to the caller's buffer.
use mathlib.Core.Path.{subst}
use mathlib.Core.Option.{some-injective}
use air_ferry_i_os_source.Prelude.{
  ℕ, zero, suc, ◌+◌, ◌-◌, ◌^◌, ◌≤◌, ◌<◌, ◌≡◌, refl, sym, ap, ◌∙◌, arith, inl, inr, ◌⊎◌, List, [],
  ◌∷◌, Option, none, some, true, length, get_elem?, get_or, ltb, leb, ◌==◌, Result, ok, err,
  map_err, All, Bool-cases, Option-cases, Result-cases, ok-injective, bind_ok, map_err_ok,
}
use air_ferry_i_os_source.Codec.Encoder
use air_ferry_i_os_source.Codec.Encoder.{RqEncoder, SourceBlock, Encoder}
use air_ferry_i_os_source.Codec.Config.{checked_add_u32}
use air_ferry_i_os_source.Codec.Symbol.{Symbol}
use air_ferry_i_os_source.Protocol.Frame
use air_ferry_i_os_source.Protocol.Frame.{Frame}
use air_ferry_i_os_source.Protocol.Frame.RoundTrip.{length-to_bytes}
use air_ferry_i_os_source.Transfer.{Error, invalid_segment}
use air_ferry_i_os_source.Transfer.Types.{SegmentMeta}
use air_ferry_i_os_source.Transfer.Segment
use air_ferry_i_os_source.Transfer.Schedule.{next_symbol_id}
use air_ferry_i_os_source.Transfer.Descriptor.{
  build_frame, build_segment_frame, build_payload, build_segment_payload,
}
use air_ferry_i_os_source.Transfer.Descriptor.RoundTrip.{length-build_payload_inner}
use air_ferry_i_os_source.Transfer.Sender.{
  SenderConfig, SenderSession, next_frame, next_data, start_clock, advance, descriptor_for, is_due,
  fetch_symbol, k_of, first_of, data_frame, descriptor_frame,
}
use air_ferry_i_os_source.Transfer.Descriptor.Fields.{MetaInRange, TailInRange}
use air_ferry_i_os_source.Transfer.Cffi.{CffiSender}
use air_ferry_i_os_source.Transfer.Cffi.SenderAbi.{
  airferry_sender_next_frame, airferry_sender_frame_capacity, frame_capacity, emitted,
}

-- The documented size of the third-party encoder's packets: one symbol each.
pub record PacketsOf (size : ℕ) (b : SourceBlock) : Type 0 where
  pub source_size : All (λ p. length p ≡ size) b.source_packets
  pub repair_size : (start count : ℕ) → All (λ p. length p ≡ size) (b.repair_packets start count)

All-get_or :
    (size i : ℕ) (ps : List (List ℕ))
    → All (λ p. length p ≡ size) ps
    → i < length ps
    → length (get_or ps i []) ≡ size
All-get_or size i [] h lt = absurd (omega arith)
All-get_or size zero (p ∷ ps) h lt = h.0
All-get_or size (suc i) (p ∷ ps) h lt = All-get_or size i ps h.1 (omega arith)

All-get_elem :
    (size i : ℕ) (bs : List SourceBlock) (b : SourceBlock)
    → All (PacketsOf size) bs
    → get_elem? bs i ≡ some b
    → PacketsOf size b
All-get_elem size i [] b h e = absurd (let k = e in cc)
All-get_elem size zero (c ∷ bs) b h e = subst (PacketsOf size) (some-injective c b e) h.0
All-get_elem size (suc i) (c ∷ bs) b h e = All-get_elem size i bs b h.1 e

-- A session whose packets, layout and descriptors go with its symbol size.
pub record IsSized (s : SenderSession) : Type 0 where
  pub size : s.meta.symbol_size ≡ s.config.codec.symbol_size
  pub in_range : MetaInRange s.meta
  pub tail : TailInRange s.segment_meta
  pub packets : All (PacketsOf s.config.codec.symbol_size) s.encoder.blocks
  pub enough :
      (i : ℕ) (b : SourceBlock)
      → get_elem? s.encoder.blocks i ≡ some b
      → Encoder.k_of (get_elem? s.encoder.meta.blocks i) ≤ length b.source_packets

first_numbered :
    (size sbn esi : ℕ) (packets : List (List ℕ)) (symbol : Symbol)
    → All (λ p. length p ≡ size) packets
    → first_of (Encoder.number_from sbn esi packets) ≡ ok symbol
    → length symbol.bytes ≡ size
unfolding Encoder.number_from
first_numbered size sbn esi [] symbol h e = absurd (let k = e in cc)
first_numbered size sbn esi (p ∷ packets) symbol h e =
    ap (λ (s : Symbol). length s.bytes) (sym (ok-injective e)) ∙ h.0

block-found :
    (e : Encoder) (sbn : ℕ) (b : SourceBlock)
    → Encoder.block e sbn ≡ ok b
    → get_elem? e.blocks sbn ≡ some b
unfolding Encoder.block
block-found e sbn b h = elim (Option-cases (get_elem? e.blocks sbn)) [
  | inl n ↦ absurd (let k = rw (Encoder.block, n) at h in cc)
  | inr (c, f) ↦ let k = rw (Encoder.block, f) at h in f ∙ ap some (ok-injective k)
]

source_of-length :
    (b : SourceBlock) (size k sbn esi : ℕ) (symbol : Symbol)
    → PacketsOf size b
    → k ≤ length b.source_packets
    → Encoder.source_of b k sbn esi ≡ ok symbol
    → length symbol.bytes ≡ size
unfolding Encoder.source_of
source_of-length b size k sbn esi symbol w enough h = elim (Bool-cases (leb k esi)) [
  | inl y ↦ absurd (let j = rw (Encoder.source_of, y) at h in cc)
  | inr n ↦
      let j = rw (Encoder.source_of, n) at h in
      ap (λ (s : Symbol). length s.bytes) (sym (ok-injective j))
      ∙ All-get_or size esi b.source_packets w.source_size (ground arith)
]

repairs_of-length :
    (b : SourceBlock) (size k sbn start : ℕ) (symbols : List Symbol) (symbol : Symbol)
    → PacketsOf size b
    → Encoder.repairs_of b k sbn start 1 ≡ ok symbols
    → first_of symbols ≡ ok symbol
    → length symbol.bytes ≡ size
unfolding Encoder.repairs_of
repairs_of-length b size k sbn start symbols symbol w h f =
    elim (Option-cases (Encoder.last_of (checked_add_u32 k start) 1)) [
      | inl n ↦ absurd (let j = rw (Encoder.repairs_of, n) at h in cc)
      | inr (last, e) ↦
          let j = rw (Encoder.repairs_of, e) at h in
          elim (Bool-cases (leb (2 ^ 24) last)) [
            | inl y ↦ absurd (let i = rw y at j in cc)
            | inr n ↦
                let i = rw n at j in
                first_numbered size sbn (k + start) (b.repair_packets start 1) symbol
                  (w.repair_size start 1) (ap first_of (ok-injective i) ∙ f)
          ]
    ]

fetch_symbol-length :
    (s : SenderSession) (sbn esi : ℕ) (symbol : Symbol)
    → IsSized s
    → fetch_symbol s sbn esi ≡ ok symbol
    → length symbol.bytes ≡ s.config.codec.symbol_size
unfolding fetch_symbol Encoder.source_symbol Encoder.repair_symbols
fetch_symbol-length s sbn esi symbol w e = elim (Bool-cases (ltb esi (k_of s.meta sbn))) [
  | inl y ↦
      let k = rw (fetch_symbol, y) at e in
      let (b, found, rest) = bind_ok (Encoder.block s.encoder sbn) _ (map_err_ok _ _ k) in
      let at = block-found s.encoder sbn b found in
      source_of-length b _ _ sbn esi symbol (All-get_elem _ sbn s.encoder.blocks b w.packets at)
        (w.enough sbn b at) rest
  | inr n ↦
      let k = rw (fetch_symbol, n) at e in
      let (symbols, all, first) =
        bind_ok (map_err _ (Encoder.repair_symbols s.encoder sbn (esi - k_of s.meta sbn) 1)) _ k in
      let (b, found, rest) = bind_ok (Encoder.block s.encoder sbn) _ (map_err_ok _ _ all) in
      let at = block-found s.encoder sbn b found in
      repairs_of-length b _ (Encoder.k_of (get_elem? s.encoder.meta.blocks sbn)) sbn
        (esi - k_of s.meta sbn) symbols symbol (All-get_elem _ sbn s.encoder.blocks b w.packets at)
        rest first
]

started : (s : SenderSession) (start : ℕ) → IsSized s → IsSized (start_clock s start)
started s start w = record {
  size = w.size;
  in_range = w.in_range;
  tail = w.tail;
  packets = w.packets;
  enough = w.enough;
}

module _ (crc32 : List ℕ → ℕ) where
  built-payload :
      (s : SenderSession) (now : ℕ) (segment : Option SegmentMeta) (frame : Frame)
      → MetaInRange s.meta
      → TailInRange segment
      → descriptor_for crc32 s now segment ≡ ok frame
      → length frame.payload ≡ s.meta.symbol_size
  unfolding descriptor_for build_frame build_segment_frame build_payload build_segment_payload
      Frame.build
  built-payload s now none frame hm ht e =
      let (payload, built, k) = bind_ok (build_payload s.meta s.file_meta) _ e in
      ap (λ (f : Frame). length f.payload) (sym (ok-injective k))
      ∙ length-build_payload_inner s.meta s.file_meta none payload hm ht built
  built-payload s now (some segment) frame hm ht e =
      let (u, valid, l) =
        bind_ok (map_err invalid_segment (Segment.validate segment s.session_id s.file_meta)) _ e in
      let (payload, built, k) = bind_ok (build_segment_payload s.meta s.file_meta segment) _ l in
      ap (λ (f : Frame). length f.payload) (sym (ok-injective k))
      ∙ length-build_payload_inner s.meta s.file_meta (some segment) payload hm ht built

  next_data-payload :
      (s s' : SenderSession) (now : ℕ) (frame : Frame)
      → IsSized s
      → next_data crc32 s now ≡ (s', ok frame)
      → length frame.payload ≡ s.config.codec.symbol_size
  unfolding next_data data_frame Frame.build
  next_data-payload s s' now frame w h =
      elim (Option-cases (next_symbol_id s.source_plan s.meta.blocks s.cursors)) [
        | inl n ↦ absurd (let k = ap (λ p. p.1) (rw (n, next_data) at h) in cc)
        | inr (((sbn, esi), cursors), e) ↦ elim (Result-cases (fetch_symbol s sbn esi)) [
          | inr (x, f) ↦ absurd (let k = ap (λ p. p.1) (rw (next_data, e, f) at h) in cc)
          | inl (symbol, f) ↦
              let k = rw (next_data, e, f) at h in
              let same = ok-injective (ap (λ p. p.1) k) in
              ap (λ (f : Frame). length f.payload) (sym same)
              ∙ fetch_symbol-length s sbn esi symbol w f
        ]
      ]

  next_frame-payload :
      (s s' : SenderSession) (start now : ℕ) (frame : Frame)
      → IsSized s
      → next_frame crc32 s start now ≡ (s', ok frame)
      → length frame.payload ≡ s.config.codec.symbol_size
  unfolding next_frame is_due descriptor_frame
  next_frame-payload s s' start now frame w h = elim (Bool-cases (length s.source_plan == 0)) [
    | inl y ↦ absurd (let k = ap (λ p. p.1) (rw y at h) in cc)
    | inr n ↦ elim (Bool-cases (is_due crc32 s)) [
      | inl y ↦
          let k = rw (n, y) at h in
          built-payload (advance (start_clock s start)) now s.segment_meta frame w.in_range w.tail
            (ap (λ p. p.1) k)
          ∙ w.size
      | inr d ↦
          let k = rw (n, d) at h in
          next_data-payload (start_clock s start) s' now frame (started s start w) k
    ]
  ]

  emitted-length :
      (with_defaults : List ℕ → ℕ → RqEncoder) (sha256 : List ℕ → List ℕ) (s : CffiSender)
      (size : ℕ) (r : SenderSession × Result Error Frame)
      → ((s' : SenderSession) (frame : Frame) → r ≡ (s', ok frame) → length frame.payload ≡ size)
      → ((emitted with_defaults sha256 crc32 s r).1 ≡ [])
        ⊎ (length (emitted with_defaults sha256 crc32 s r).1 ≡ 64 + size)
  unfolding emitted Frame.to_bytes
  emitted-length with_defaults sha256 s size (s', err e) h = inl refl
  emitted-length with_defaults sha256 s size (s', ok frame) h =
      inr (length-to_bytes frame ∙ ap (λ n. 64 + n) (h s' frame refl))

  -- For a session whose packets are one symbol each, a call of `airferry_sender_next_frame` writes nothing, or a whole
  -- frame of exactly the announced capacity; either way not more than the capacity `cap` of the caller's buffer.
  pub next_frame-fits :
      (with_defaults : List ℕ → ℕ → RqEncoder) (sha256 : List ℕ → List ℕ) (s : CffiSender)
      (cap start now : ℕ)
      → IsSized s.session
      → s.session.config ≡ s.config
      → s.config.codec.symbol_size < 65536
      → ((airferry_sender_next_frame with_defaults sha256 crc32 (some s) true cap start now).1 ≡ [])
        ⊎ ((length
                (airferry_sender_next_frame with_defaults sha256 crc32
                  (some s)
                  true
                  cap
                  start
                  now).1
              ≡ airferry_sender_frame_capacity with_defaults sha256 crc32 (some s))
            × (length
                  (airferry_sender_next_frame with_defaults sha256 crc32
                    (some s)
                    true
                    cap
                    start
                    now).1
                ≤ cap))
  unfolding airferry_sender_next_frame airferry_sender_frame_capacity
  next_frame-fits with_defaults sha256 s cap start now w same small =
      let size : ℕ = s.config.codec.symbol_size in
      let r = next_frame crc32 s.session start now in
      let capacity : frame_capacity with_defaults sha256 crc32 s ≡ 64 + size = omega arith in
      elim (Bool-cases (ltb cap (frame_capacity with_defaults sha256 crc32 s))) [
        | inl y ↦ rw (airferry_sender_next_frame, y) (inl refl)
        | inr n ↦
            let room : 64 + size ≤ cap = ground (arith, capacity) in
            elim (emitted-length with_defaults sha256 s size r (λ s' frame e.
              next_frame-payload s.session s' start now frame w e
              ∙ ap (λ (c : SenderConfig). c.codec.symbol_size) same)) [
                | inl none_out ↦ rw (airferry_sender_next_frame, n) (inl none_out)
                | inr len ↦
                    rw (airferry_sender_next_frame, n)
                      (inr (len ∙ sym capacity, omega (arith, len, room)))
              ]
      ]
