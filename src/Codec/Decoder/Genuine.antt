-- ===== src/Codec/Decoder/Genuine.antt =====
-- core/raptorq-core/src/decoder.rs: the decoder over the symbols of one object.
use native.Mathlib.Numerals.{add-one}
use native.Mathlib.Nat.{zero-add, add-zero}
use air_ferry_i_os_source.Prelude.{
  ℕ, zero, suc, ◌+◌, ◌%◌, ◌^◌, ◌≤◌, ◌<◌, ◌≡◌, ◌⊎◌, ◌∙◌, refl, sym, ap, arith, List, ◌∷◌, ◌++◌, none,
  some, Bool, true, length, get_elem?, set, take, ok, err, inl, inr, Result, All, Bool-cases, leb,
  length-set, length-map, map_err_ok, ok-injective, if◌then◌else◌, Option-cases, bind_ok, map,
  map_err,
}
use mathlib.Core.Path.{subst}
use mathlib.Core.Option.{some-injective}
use mathlib.Core.List.{append_assoc, append-nil}
use air_ferry_i_os_source.Codec.{Error, invalid_object_meta}
use air_ferry_i_os_source.Codec.Meta.{SourceBlockMeta, ObjectMeta, validate}
use air_ferry_i_os_source.Codec.Meta.Valid.{validate_iff, CanonicalBlocks}
use air_ferry_i_os_source.Codec.Symbol.{Symbol}
use air_ferry_i_os_source.Codec.Decoder.{
  Raptor, BlockState, Decoder, new, fresh_block, feed_block, all_decoded, is_complete,
  concat_decoded, assemble, add_symbol, offer,
}
use air_ferry_i_os_source.Codec.Decoder.Stable.{
  blocks-offer, meta-offer, get_elem?-lt, add_symbol_in_range, add_symbol_out_of_range,
}

shift : (i j : ℕ) → suc i + j ≡ i + suc j
shift i j = omega arith

-- The object that is sent: its layout, the bytes of its blocks, and the packets that encode them.
pub record Object : Type 0 where
  pub meta : ObjectMeta
  pub source : ℕ → List ℕ
  pub packet : ℕ → ℕ → List ℕ

module _ {S : Type 0} (rq : Raptor S) (o : Object) where
  -- The third-party decoder of the i-th block `b`, made for the object's own transmission information and the block's
  -- own length, behind the packets of the block with these ESIs, the last one first.
  unfoldable pub behind : ℕ → SourceBlockMeta → List ℕ → S
  behind i b List.[] = rq.start i (rq.deserialize o.meta.oti_bytes) b.block_length
  behind i b (esi ∷ esis) = (rq.decode (behind i b esis) i esi (o.packet i esi)).0

  abbrev pub IsEsi : ℕ → Type 0
  IsEsi esi = esi < 2 ^ 24

  -- What RFC 6330 promises of the decoder of one block: made for the layout with which the block was encoded, and
  -- given packets of this block only, it solves nothing but the block. Nothing is said of another layout.
  abbrev pub IsSound : Type 0
  IsSound =
      (i : ℕ) (b : SourceBlockMeta) (esis : List ℕ) (esi : ℕ) (r : List ℕ)
      → get_elem? o.meta.blocks i ≡ some b
      → All IsEsi (esi ∷ esis)
      → (rq.decode (behind i b esis) i esi (o.packet i esi)).1 ≡ some r
      → r ≡ o.source i

  pub record Fits (i : ℕ) (s : S) : Type 0 where
    pub block : SourceBlockMeta
    pub known : get_elem? o.meta.blocks i ≡ some block
    pub esis : List ℕ
    pub esi : All IsEsi esis
    pub fed : s ≡ behind i block esis

module _ {S : Type 0} (rq : Raptor S) where
  -- The host offers the symbols one after the other; an error changes nothing.
  abbrev pub after : Decoder S → Result Error (Decoder S × Bool) → Decoder S
  after d (ok (d', complete)) = d'
  after d (err e) = d

  unfoldable pub run : Decoder S → List Symbol → Decoder S
  run d List.[] = d
  run d (s ∷ symbols) = run (after d (add_symbol rq d s)) symbols

module _ (o : Object) where
  abbrev pub IsGenuine : Symbol → Type 0
  IsGenuine s = s.bytes ≡ o.packet s.id.sbn s.id.esi

  -- The bytes of `n` blocks, from the i-th on.
  pub sources : ℕ → ℕ → List ℕ
  sources i zero = List.[]
  sources i (suc n) = o.source i ++ sources (suc i) n

module _ {S : Type 0} (rq : Raptor S) (o : Object) where
  abbrev GoodBlock : ℕ → BlockState S → Type 0
  GoodBlock i b = Fits rq o i b.decoder × ((b.decoded ≡ none) ⊎ (b.decoded ≡ some (o.source i)))

  abbrev pub Good : ℕ → List (BlockState S) → Type 0
  Good i List.[] = Unit {0}
  Good i (b ∷ blocks) = GoodBlock i b × Good (suc i) blocks

  Good-get :
      (i j k : ℕ) (blocks : List (BlockState S)) (b : BlockState S)
      → k ≡ i + j
      → Good i blocks
      → get_elem? blocks j ≡ some b
      → GoodBlock k b
  Good-get i j k List.[] b q g e = cc
  Good-get i zero k (x ∷ blocks) b q g e =
      let same : i ≡ k = omega arith in
      subst (λ n. GoodBlock n b) same (subst (GoodBlock i) (some-injective x b e) g.0)
  Good-get i (suc j) k (x ∷ blocks) b q g e = Good-get (suc i) j k blocks b (omega arith) g.1 e

  Good-set :
      (i j k : ℕ) (blocks : List (BlockState S)) (b : BlockState S)
      → k ≡ i + j
      → Good i blocks
      → GoodBlock k b
      → Good i (set blocks j b)
  Good-set i j k List.[] b e g h = tt
  Good-set i zero k (x ∷ blocks) b e g h =
      let same : k ≡ i = omega arith in (subst (λ n. GoodBlock n b) same h, g.1)
  Good-set i (suc j) k (x ∷ blocks) b e g h =
      (g.0, Good-set (suc i) j k blocks b (omega arith) g.1 h)

  decode-Fits :
      (i esi : ℕ) (s : S)
      → esi < 2 ^ 24
      → Fits rq o i s
      → Fits rq o i (rq.decode s i esi (o.packet i esi)).0
  unfolding behind
  decode-Fits i esi s small f = record {
    block = f.block;
    known = f.known;
    esis = esi ∷ f.esis;
    esi = (small, f.esi);
    fed = ap (λ t. (rq.decode t i esi (o.packet i esi)).0) f.fed;
  }

  decode-source :
      IsSound rq o
      → (i esi : ℕ) (s : S) (r : List ℕ) → esi < 2 ^ 24
      → Fits rq o i s
      → (rq.decode s i esi (o.packet i esi)).1 ≡ some r
      → r ≡ o.source i
  decode-source w i esi s r small f e =
      w i f.block f.esis esi r f.known (small, f.esi)
        (ap (λ t. (rq.decode t i esi (o.packet i esi)).1) (sym f.fed) ∙ e)

  feed-Good :
      IsSound rq o
      → (i esi : ℕ) (b : BlockState S) → esi < 2 ^ 24
      → GoodBlock i b
      → GoodBlock i (feed_block rq b i esi (o.packet i esi))
  unfolding feed_block
  feed-Good w i esi b small g = elim (Option-cases (rq.decode b.decoder i esi (o.packet i esi)).1) [
    | inl e ↦ rw (e, feed_block) (decode-Fits i esi b.decoder small g.0, g.1)
    | inr (r, e) ↦
        rw (e, feed_block)
          (
            decode-Fits i esi b.decoder small g.0,
            inr (ap some (decode-source w i esi b.decoder r small g.0 e)),
          )
  ]

  pub record IsGood (d : Decoder S) : Type 0 where
    pub good : Good 0 d.blocks
    pub few : length d.blocks ≤ 255
    pub shape : length d.blocks ≡ length d.meta.blocks

  offer-IsGood :
      IsSound rq o
      → (d : Decoder S) (s : Symbol) → IsGenuine o s
      → IsGood d
      → IsGood (offer rq d s (get_elem? d.blocks s.id.sbn))
  offer-IsGood w d s genuine g = elim (blocks-offer rq d s (get_elem? d.blocks s.id.sbn)) [
    | inl e ↦ record {
      good = rw e g.good;
      few = rw e g.few;
      shape = rw (e, meta-offer rq d s (get_elem? d.blocks s.id.sbn)) g.shape;
    }
    | inr (b, found, open_block, small, e) ↦
        let i = s.id.sbn in
        let lt = get_elem?-lt d.blocks i found in
        let low : i % 256 ≡ i = omega (arith, g.few) in
        let fed : GoodBlock i (feed_block rq b (i % 256) s.id.esi s.bytes) =
          rw (genuine, low)
            (feed-Good w i s.id.esi b small
              (Good-get 0 i i d.blocks b (omega arith) g.good found)) in
        record {
          good = rw e (Good-set 0 i i d.blocks _ (omega arith) g.good fed);
          few = rw (e, length-set d.blocks i (feed_block rq b (i % 256) s.id.esi s.bytes)) g.few;
          shape =
              rw
                (
                  e,
                  length-set d.blocks i (feed_block rq b (i % 256) s.id.esi s.bytes),
                  meta-offer rq d s (get_elem? d.blocks i),
                )
                g.shape;
        }
  ]

  pub step-meta : (d : Decoder S) (s : Symbol) → (after rq d (add_symbol rq d s)).meta ≡ d.meta
  step-meta d s = elim (Bool-cases (leb (length d.blocks) s.id.sbn)) [
    | inl out ↦ rw (add_symbol_out_of_range rq d s (ground arith)) refl
    | inr inside ↦
        rw (add_symbol_in_range rq d s (ground arith))
          (meta-offer rq d s (get_elem? d.blocks s.id.sbn))
  ]

  pub step-IsGood :
      IsSound rq o
      → (d : Decoder S) (s : Symbol) → IsGenuine o s
      → IsGood d
      → IsGood (after rq d (add_symbol rq d s))
  step-IsGood w d s genuine g = elim (Bool-cases (leb (length d.blocks) s.id.sbn)) [
    | inl out ↦ rw (add_symbol_out_of_range rq d s (ground arith)) g
    | inr inside ↦ rw (add_symbol_in_range rq d s (ground arith)) (offer-IsGood w d s genuine g)
  ]

  run-IsGood :
      IsSound rq o
      → (symbols : List Symbol) (d : Decoder S) → All (IsGenuine o) symbols
      → IsGood d
      → IsGood (run rq d symbols) × ((run rq d symbols).meta ≡ d.meta)
  unfolding run
  run-IsGood w List.[] d genuine g = (g, refl)
  run-IsGood w (s ∷ symbols) d genuine g =
      let g' = step-IsGood w d s genuine.0 g in
      let (g'', m') = run-IsGood w symbols (after rq d (add_symbol rq d s)) genuine.1 g' in
      (g'', m' ∙ step-meta d s)

  concat-Good :
      (i : ℕ) (blocks : List (BlockState S)) (out : List ℕ)
      → Good i blocks
      → all_decoded blocks ≡ true
      → concat_decoded blocks out ≡ some (out ++ sources o i (length blocks))
  unfolding concat_decoded all_decoded sources
  concat-Good i List.[] out g all = ap some (sym (append-nil out))
  concat-Good i (b ∷ blocks) out g all = elim g.0.1 [
    | inl e ↦ ground (arith, e)
    | inr e ↦ rw e (
        concat-Good (suc i) blocks (out ++ o.source i) g.1 (ground (arith, e))
        ∙ ap some (append_assoc out (o.source i) (sources o (suc i) (length blocks))))
  ]

  fresh-Good :
      (t i : ℕ) (blocks : List SourceBlockMeta)
      → i + length blocks ≤ 256
      → ((j : ℕ) (b : SourceBlockMeta)
          → get_elem? blocks j ≡ some b
          → get_elem? o.meta.blocks (i + j) ≡ some b)
      → CanonicalBlocks t i blocks
      → Good i (map (fresh_block rq (rq.deserialize o.meta.oti_bytes)) blocks)
  unfolding behind
  fresh-Good t i List.[] h at c = tt
  fresh-Good t i (b ∷ blocks) h at c =
      let sbn : b.sbn % 256 ≡ i = omega arith in
      (
        (
          rw sbn (record {
            block = b;
            known = ap (get_elem? o.meta.blocks) (sym (add-zero i)) ∙ at 0 b refl;
            esis = List.[];
            esi = tt;
            fed = refl;
          }),
          inl refl,
        ),
        fresh-Good t (suc i) blocks (omega arith)
            (λ j b' e. ap (get_elem? o.meta.blocks) (shift i j) ∙ at (suc j) b' e)
            (subst (λ n. CanonicalBlocks t n blocks) (add-one i) c.1),
      )

  pub new-meta : (meta : ObjectMeta) (d : Decoder S) → new rq meta ≡ ok d → d.meta ≡ meta
  unfolding new
  new-meta meta d e =
      let (u, passed, built) =
        bind_ok (map_err invalid_object_meta (validate rq.deserialize meta)) _ e in
      ap (λ (t : Decoder S). t.meta) (sym (ok-injective built))

  pub new-IsGood : (d : Decoder S) → new rq o.meta ≡ ok d → IsGood d
  unfolding new
  new-IsGood d e =
      let (u, passed, built) =
        bind_ok (map_err invalid_object_meta (validate rq.deserialize o.meta)) _ e in
      let v = (validate_iff rq.deserialize o.meta).0 (map_err_ok invalid_object_meta _ passed) in
      let few : length o.meta.blocks ≤ 255 = v.counts.block_budget in
      let same = length-map o.meta.blocks (fresh_block rq (rq.deserialize o.meta.oti_bytes)) in
      rw (← ok-injective built) (record {
        good =
            fresh-Good o.meta.symbol_size 0 o.meta.blocks (omega arith)
              (λ j b f. ap (get_elem? o.meta.blocks) (zero-add j) ∙ f) v.blocks;
        few = rw same few;
        shape = same;
      })

-- What a good decoder assembles.
pub assemble-IsGood :
    {S : Type 0} (rq : Raptor S) (o : Object) (d : Decoder S)
    → IsGood rq o d
    → assemble d ≡ (
        if is_complete d
        then some (take d.meta.transfer_length (sources o 0 (length d.meta.blocks)))
        else none)
unfolding assemble
assemble-IsGood rq o d g = elim (Bool-cases (all_decoded d.blocks)) [
  | inl all ↦
      let whole = concat-Good rq o 0 d.blocks List.[] g.good all in rw (all, whole, g.shape) refl
  | inr some_open ↦ rw some_open
]

-- If the third-party decoder of a block, made for the object's own layout and fed packets of the block only, solves
-- nothing but the block, then a decoder that is made for the object's metadata and is fed symbols of the object,
-- in whatever order, with repeats and malformed coordinates, assembles the object, cut to its length, if it is
-- complete, and nothing if it is not.
pub decoder_recovers :
    {S : Type 0} (rq : Raptor S) (o : Object) (d : Decoder S) (symbols : List Symbol)
    → IsSound rq o
    → new rq o.meta ≡ ok d
    → All (IsGenuine o) symbols
    → assemble (run rq d symbols) ≡ (
        if is_complete (run rq d symbols)
        then some (take o.meta.transfer_length (sources o 0 (length o.meta.blocks)))
        else none)
decoder_recovers rq o d symbols w built genuine =
    let (g, m) = run-IsGood rq o w symbols d genuine (new-IsGood rq o d built) in
    let d' = run rq d symbols in
    assemble-IsGood rq o d' g
    ∙ ap
        (λ (t : ObjectMeta).
          if is_complete d'
          then some (take t.transfer_length (sources o 0 (length t.blocks)))
          else none)
        (m ∙ new-meta rq o o.meta d built)
