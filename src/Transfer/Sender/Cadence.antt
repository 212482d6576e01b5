-- ===== src/Transfer/Sender/Cadence.antt =====
-- core/transfer-engine/src/sender.rs: the flags and numbers of the frames of `next_frame`.
use air_ferry_i_os_source.Prelude.{
  ℕ, ◌+◌, ◌%◌, ◌^◌, ◌≡◌, sym, ap, inl, inr, List, Option, none, some, length, ◌==◌, if◌then◌else◌,
  ok, max, refl, ◌∙◌, ==_iff, Bool-cases, Option-cases, Result-cases, ok-injective, bind_ok,
  map_err,
}
use native.Mathlib.Nat.{zero-mod}
use air_ferry_i_os_source.Codec.Meta.{ObjectMeta}
use air_ferry_i_os_source.Protocol.Frame
use air_ferry_i_os_source.Protocol.Frame.{Frame}
use air_ferry_i_os_source.Transfer.{invalid_segment}
use air_ferry_i_os_source.Transfer.Types.{FileMeta, SegmentMeta}
use air_ferry_i_os_source.Transfer.Segment
use air_ferry_i_os_source.Transfer.Descriptor.{
  build_payload, build_segment_payload, build_frame, build_segment_frame,
}
use air_ferry_i_os_source.Transfer.Schedule.{next_symbol_id}
use air_ferry_i_os_source.Transfer.Sender.{
  SenderSession, start_clock, advance, fetch_symbol, descriptor_for, descriptor_frame, data_frame,
  next_data, is_due, next_frame,
}

module _ (crc32 : List ℕ → ℕ) where
  -- The header of a frame as far as the cadence goes.
  abbrev pub stamp : Frame → ℕ × ℕ × ℕ
  stamp f = (f.header.session_id, f.header.flags, f.header.frame_index)

  build_frame-stamp :
      (m : ObjectMeta) (f : FileMeta) (id index now : ℕ) (frame : Frame)
      → build_frame crc32 m f id index now ≡ ok frame
      → stamp frame ≡ (id, 1, index)
  unfolding build_frame Frame.build
  build_frame-stamp m f id index now frame h =
      let (payload, e, k) = bind_ok (build_payload m f) _ h in ap stamp (sym (ok-injective k))

  build_segment_frame-stamp :
      (m : ObjectMeta) (f : FileMeta) (s : SegmentMeta) (id index now : ℕ) (frame : Frame)
      → build_segment_frame crc32 m f s id index now ≡ ok frame
      → stamp frame ≡ (id, 1, index)
  unfolding build_segment_frame Frame.build
  build_segment_frame-stamp m f s id index now frame h =
      let (u, e, k) = bind_ok (map_err invalid_segment (Segment.validate s id f)) _ h in
      let (payload, e', k') = bind_ok (build_segment_payload m f s) _ k in
      ap stamp (sym (ok-injective k'))

  descriptor_for-stamp :
      (s : SenderSession) (now : ℕ) (segment : Option SegmentMeta) (frame : Frame)
      → descriptor_for crc32 s now segment ≡ ok frame
      → stamp frame ≡ (s.session_id, 1, s.frame_index)
  unfolding descriptor_for
  descriptor_for-stamp s now none frame h =
      build_frame-stamp s.meta s.file_meta s.session_id s.frame_index now frame h
  descriptor_for-stamp s now (some segment) frame h =
      build_segment_frame-stamp s.meta s.file_meta segment s.session_id s.frame_index now frame h

  descriptor_frame-stamp :
      (s : SenderSession) (now : ℕ) (frame : Frame)
      → descriptor_frame crc32 s now ≡ ok frame
      → stamp frame ≡ (s.session_id, 1, s.frame_index)
  unfolding descriptor_frame
  descriptor_frame-stamp s now frame h = descriptor_for-stamp s now s.segment_meta frame h

  next_data-stamp :
      (s s' : SenderSession) (now : ℕ) (frame : Frame)
      → next_data crc32 s now ≡ (s', ok frame)
      → stamp frame ≡ (s.session_id, 0, (s.frame_index + 1) % 2 ^ 64)
        × s'.frame_index ≡ (s.frame_index + 1) % 2 ^ 64
  unfolding next_data data_frame Frame.build
  next_data-stamp s s' now frame h =
      elim (Option-cases (next_symbol_id s.source_plan s.meta.blocks s.cursors)) [
        | inl n ↦ absurd (let k = ap (λ p. p.1) (rw (n, next_data) at h) in cc)
        | inr (((sbn, esi), cursors), e) ↦ elim (Result-cases (fetch_symbol s sbn esi)) [
          | inr (x, f) ↦ absurd (let k = ap (λ p. p.1) (rw (next_data, e, f) at h) in cc)
          | inl (symbol, f) ↦
              let k = rw (next_data, e, f) at h in
              let same = ok-injective (ap (λ p. p.1) k) in
              (ap stamp (sym same), ap (λ p. p.0.frame_index) (sym k))
        ]
      ]

  is_due_lem :
      (s : SenderSession) → is_due crc32 s ≡ (s.frame_index % max s.descriptor_interval 1 == 0)
  unfolding is_due
  is_due_lem s = elim (Bool-cases (s.frame_index == 0)) [
    | inl y ↦
        let z : s.frame_index ≡ 0 = (==_iff _ _).0 y in
        let r : s.frame_index % max s.descriptor_interval 1 ≡ 0 =
          ap (λ n. n % max s.descriptor_interval 1) z ∙ zero-mod _ in
        rw y (sym ((==_iff _ _).1 r))
    | inr n ↦ rw n refl
  ]

  -- Every frame that a session emits carries its session id and the number of the frame, one more than that of
  -- the frame before (modulo 2 ^ 64), which the session keeps; it is a descriptor exactly when the number of the frame
  -- before, 0 at the start, is a multiple of the interval, or of 1 for an interval of 0, and else a data frame.
  pub next_frame-stamp :
      (s s' : SenderSession) (start now : ℕ) (frame : Frame)
      → next_frame crc32 s start now ≡ (s', ok frame)
      → stamp frame ≡ (
        s.session_id,
        (if s.frame_index % max s.descriptor_interval 1 == 0 then 1 else 0),
        (s.frame_index + 1) % 2 ^ 64,
      )
        × s'.frame_index ≡ (s.frame_index + 1) % 2 ^ 64
  unfolding next_frame is_due
  next_frame-stamp s s' start now frame h = elim (Bool-cases (length s.source_plan == 0)) [
    | inl y ↦ absurd (let k = ap (λ p. p.1) (rw y at h) in cc)
    | inr n ↦ elim (Bool-cases (is_due crc32 s)) [
      | inl y ↦
          let k = rw (n, y) at h in
          rw (← is_due_lem s, y)
            (
              descriptor_frame-stamp (advance (start_clock s start)) now frame (ap (λ p. p.1) k),
              ap (λ p. p.0.frame_index) (sym k),
            )
      | inr d ↦
          let k = rw (n, d) at h in
          rw (← is_due_lem s, d) (next_data-stamp (start_clock s start) s' now frame k)
    ]
  ]
