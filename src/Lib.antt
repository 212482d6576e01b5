-- ===== src/Lib.antt =====
-- AirFerry sends a file as a stream of QR frames; this library models the Rust core that builds and
-- reads the stream (core/raptorq-core, core/qr-protocol and core/transfer-engine).
--
-- A sender cuts a compressed file into segments, encodes each as a RaptorQ object, and sends its
-- symbols in frames, with a descriptor frame from time to time. A receiver reads frames, caches
-- symbols until a descriptor tells it the layout, feeds a decoder per block, and puts the object
-- together; an assembler puts the segments together.
--
-- The files, by the crate that they model:
--   Codec            core/raptorq-core/src: Config (config.rs), Meta (meta.rs), Symbol (symbol.rs),
--                    Decoder (decoder.rs), Encoder (encoder.rs); Collector, a decoder for the runs.
--   Protocol         core/qr-protocol/src: Frame (frame.rs), Session (session.rs), Chunker
--                    (chunker.rs), Compress and its File (compress.rs), Qr (qr_render.rs).
--   Transfer         core/transfer-engine/src: Segment (segment.rs), Assembler (assembler.rs), Types,
--                    Utf8 and Descriptor (descriptor.rs), Schedule (the order of symbols) and Sender
--                    (sender.rs), Receiver with Gate, Ingest, Finish and Checkpoint (receiver.rs),
--                    Resume (resume.rs), Stats (progress.rs), IngestStatus (ingest_status.rs), Cffi
--                    with SenderAbi and ReceiverAbi (cffi.rs), Wasm with Sessions (wasm.rs).
--   Prelude, Bytes, Bits   lists, results, tests, big-endian numbers, exclusive or, or, masks.
-- Examples modules hold concrete runs; the other modules hold lemmas and theorems on the code of
-- the module above them.
--
-- A function of a model has the name of the Rust function it models. A function that changes its
-- object answers the changed object; a method that can fail after a change answers both. A null
-- pointer of the C ABI is `none`, and a clock is an argument that is read, or `clock` for each frame
-- of a call.
--
-- Numbers are natural numbers. A width is written out where the code checks or wraps it, as in
-- `% 2 ^ 32`; counters of frames and of received symbols are taken not to reach the width of their
-- type, and lengths not to come near `usize::MAX`. Byte strings, strings and digests are lists of
-- numbers. No function needs fuel: each loop of the code is structural recursion.
--
-- Parameters stand for code that is not the repository's own: the RaptorQ block decoder and the parser
-- of its transmission information (`Raptor`), the RaptorQ encoder (`with_defaults`), the checksum
-- `crc32`, the digest `sha256` and their incremental forms (`Hasher`), the zstd and xz decoders and
-- encoders (`Library`), the builder of the vendored fast_qr library (`build`), the text of an error
-- (`describe`), the file system (`Disk`, `Os`: what a file holds, how it is read, what a dropped
-- writer leaves and which calls fail), the allocator (`reserve`), the platform's `usize_max`, and the order in which a hash map is
-- iterated (`iteration`).
--
-- Not modelled: the bindings for Java, the browser calls that write into a buffer of the page or only
-- read a field, the JSON of checkpoints and of the progress, the rounding of rates to floating-point
-- numbers, logging and the freeing of handles, and the Swift application.
pub mod Prelude
pub mod Bytes
pub mod Bits
pub mod Codec
pub mod Protocol
pub mod Transfer
