-- ===== src/Codec/Collector.antt =====
-- A decoder for the runs: it has a slot for each source symbol of its block, as many as the block's length in the
-- layout that it is made for, and solves the block when all are filled. Repair symbols do not help it.
use air_ferry_i_os_source.Prelude.{
  ℕ, zero, suc, ◌+◌, ◌/◌, ◌≡◌, sym, ap, ◌∙◌, arith, List, ◌∷◌, ◌++◌, Option, none, some, length,
  get_elem?, set, replicate, Option-cases, inl, inr, length-set, length-replicate,
}
use mathlib.Core.Option.{some-injective}
use air_ferry_i_os_source.Codec.Meta.{ObjectMeta, SourceBlockMeta, Oti}
use air_ferry_i_os_source.Codec.Decoder.{Raptor}
use air_ferry_i_os_source.Codec.Decoder.Genuine.{Object, IsSound, behind}

abbrev pub Slots : Type 0
Slots = List (Option (List ℕ))

unfoldable pub joined : Slots → Option (List ℕ)
joined List.[] = some List.[]
joined (none ∷ s) = none
joined (some bytes ∷ s) = elim (joined s) [ none ↦ none | some rest ↦ some (bytes ++ rest) ]

module _ (deserialize : List ℕ → Oti) where
  unfoldable pub collector : Raptor Slots
  unfolding joined
  collector = record {
    deserialize = deserialize;
    start = λ sbn oti len. replicate (len / oti.symbol_size) none;
    decode = λ s sbn esi bytes. (set s esi (some bytes), joined (set s esi (some bytes)));
  }

-- The symbols of block `i` from the j-th on, `n` of them.
unfoldable pub parts : (ℕ → ℕ → List ℕ) → ℕ → ℕ → ℕ → List ℕ
parts packet i j zero = List.[]
parts packet i j (suc n) = packet i j ++ parts packet i (suc j) n

module _ (packet : ℕ → ℕ → List ℕ) (i : ℕ) where
  abbrev Holds : ℕ → Slots → Type 0
  Holds j List.[] = Unit {0}
  Holds j (none ∷ s) = Holds (suc j) s
  Holds j (some bytes ∷ s) = (bytes ≡ packet i j) × Holds (suc j) s

  fresh-Holds : (j n : ℕ) → Holds j (replicate n none)
  fresh-Holds j zero = tt
  fresh-Holds j (suc n) = fresh-Holds (suc j) n

  set-Holds :
      (j esi k : ℕ) (s : Slots) → k ≡ j + esi → Holds j s → Holds j (set s esi (some (packet i k)))
  set-Holds j esi k List.[] e h = tt
  set-Holds j zero k (none ∷ s) e h = let same : k ≡ j = omega arith in (ap (packet i) same, h)
  set-Holds j zero k (some b ∷ s) e h = let same : k ≡ j = omega arith in (ap (packet i) same, h.1)
  set-Holds j (suc esi) k (none ∷ s) e h = set-Holds (suc j) esi k s (omega arith) h
  set-Holds j (suc esi) k (some b ∷ s) e h = (h.0, set-Holds (suc j) esi k s (omega arith) h.1)

  joined-parts :
      (j : ℕ) (s : Slots) (r : List ℕ)
      → Holds j s
      → joined s ≡ some r
      → r ≡ parts packet i j (length s)
  unfolding joined parts
  joined-parts j List.[] r h e = sym (some-injective _ _ e)
  joined-parts j (none ∷ s) r h e = absurd (let k = e in cc)
  joined-parts j (some b ∷ s) r h e = elim (Option-cases (joined s)) [
    | inl n ↦ absurd (let k = rw (joined, n) at e in cc)
    | inr (rest, w) ↦
        let k = some-injective _ _ (rw (joined, w) at e) in
        sym k
        ∙ ap (λ t. t ++ rest) h.0
        ∙ ap (λ t. packet i j ++ t) (joined-parts (suc j) s rest h.1 w)
  ]

abbrev slots_of : Oti → Option SourceBlockMeta → ℕ
slots_of oti none = 0
slots_of oti (some b) = b.block_length / oti.symbol_size

-- The object of these packets, with as many source symbols in a block as the length of the block says.
module _ (deserialize : List ℕ → Oti) (meta : ObjectMeta) (packet : ℕ → ℕ → List ℕ) where
  unfoldable pub systematic : Object
  unfolding parts
  systematic = record {
    meta = meta;
    source =
        λ i. parts packet i 0 (slots_of (deserialize meta.oti_bytes) (get_elem? meta.blocks i));
    packet = packet;
  }

  behind-Holds :
      (i : ℕ) (b : SourceBlockMeta) (esis : List ℕ)
      → Holds packet i 0 (behind (collector deserialize) systematic i b esis)
        × (length (behind (collector deserialize) systematic i b esis)
            ≡ b.block_length / (deserialize meta.oti_bytes).symbol_size)
  unfolding behind systematic collector
  behind-Holds i b List.[] =
      let n : ℕ = b.block_length / (deserialize meta.oti_bytes).symbol_size in
      (fresh-Holds packet i 0 n, length-replicate n none)
  behind-Holds i b (esi ∷ esis) =
      let (h, same) = behind-Holds i b esis in
      let s = behind (collector deserialize) systematic i b esis in
      (
        set-Holds packet i 0 esi esi s (omega arith) h,
        length-set s esi (some (packet i esi)) ∙ same,
      )

  pub collector-IsSound : IsSound (collector deserialize) systematic
  unfolding systematic behind collector
  collector-IsSound i b esis esi r known small e =
      let (h, same) = behind-Holds i b (esi ∷ esis) in
      joined-parts packet i 0 (behind (collector deserialize) systematic i b (esi ∷ esis)) r h e
      ∙ ap (parts packet i 0) (same ∙ ap (slots_of (deserialize meta.oti_bytes)) (sym known))
