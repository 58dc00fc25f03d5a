-- ===== src/S3/Chunked/Signed.antt =====
-- What the decoder passes on where every chunk carries a signature.
use mathlib.Core.List.{flatten}
use r2storage.Prelude.{
  List, Option, Text, [], ap, append-nil, append_assoc, is_space, none, refl, some, starts_with,
  subst, suc, trim, true, zero, ℕ, ◌++◌, ◌∙◌, ◌∷◌, ◌≡◌,
}
use r2storage.S3.{ChunkCode}
use r2storage.S3.Chunked.{
  Decoder, Phase, Turn, consume, continue_pieces, crlf_phase, cut_at, data_phase, done_phase,
  goes_on, new_decoder, parse_hex, pending, phase_turn, size_line, size_phase, size_turn,
  split_line, throws, trailer_phase, trailer_turn, transform, transform_all, turn, waits,
}
use r2storage.S3.Chunked.Carried.{
  Follows, KeepsPrefix, Partial, SignedBody, seeded, turn-KeepsPrefix,
}
use r2storage.Store.{Bytes}

module _ (signature_of : Text → Bytes → Text) where
  consume-Follows :
      (seed : Text) (fed : Bytes) (fuel : ℕ) (d : Decoder)
      → Follows signature_of seed fed d
      → Follows signature_of seed fed (consume true signature_of fuel d).0
  unfolding consume
  consume-Follows seed fed zero d h = h
  consume-Follows seed fed (suc fuel) d h =
      go (λ next k. consume-Follows seed fed fuel next k) (turn true signature_of d) refl
        (turn-KeepsPrefix signature_of seed fed d h)
    where
      go :
          ((next : Decoder)
            → Follows signature_of seed fed next
            → Follows signature_of seed fed (consume true signature_of fuel next).0)
          → (t : Turn) → turn true signature_of d ≡ t
          → KeepsPrefix signature_of seed fed t
          → Follows signature_of seed fed (consume true signature_of (suc fuel) d).0
      go again waits e k = rw (e, consume) h
      go again (throws c) e k = rw (e, consume) h
      go again (goes_on next) e k = rw (e, consume) (again next k)

  Partial-record :
      (p : Phase) (gone buf : Bytes) (d : Decoder)
      → Partial signature_of p gone d
      → Partial signature_of p gone (record d { buf = buf })
  Partial-record size_phase gone buf d h = h
  Partial-record data_phase gone buf d h = h
  Partial-record crlf_phase gone buf d h = h
  Partial-record trailer_phase gone buf d h = h
  Partial-record done_phase gone buf d h = h

  transform-Follows :
      (seed : Text) (fed piece : Bytes) (d : Decoder)
      → Follows signature_of seed fed d
      → Follows signature_of seed (fed ++ piece) (transform true signature_of piece d).0
  unfolding transform
  transform-Follows seed fed piece d (body, gone, f, chain, part) =
      let d' = record d { buf = d.buf ++ piece } in
      consume-Follows seed (fed ++ piece) (suc (pending true signature_of d')) d' (
        body,
        gone,
        ap (λ s. s ++ piece) f
            ∙ append_assoc body (gone ++ d.buf) piece
            ∙ ap (◌++◌ body) (append_assoc gone d.buf piece),
        chain,
        Partial-record d.phase gone (d.buf ++ piece) d part,
      )

  -- The bytes begin with the chunks that have been passed on.
  abbrev pub IsSignedPrefix : Text → Bytes → Decoder → Type 0
  IsSignedPrefix seed fed d =
      (body : Bytes) × (rest : Bytes) × (fed ≡ body ++ rest)
      × SignedBody signature_of seed body d.prev_signature d.pushed

  continue_pieces-IsSignedPrefix :
      (seed : Text) (fed later : Bytes) (next : Decoder → Decoder × Option ChunkCode)
      → ((d : Decoder)
          → Follows signature_of seed fed d
          → IsSignedPrefix seed (fed ++ later) (next d).0)
      → (r : Decoder × Option ChunkCode) → Follows signature_of seed fed r.0
      → IsSignedPrefix seed (fed ++ later) (continue_pieces true signature_of next r).0
  unfolding continue_pieces
  continue_pieces-IsSignedPrefix seed fed later next k (d, none) h = k d h
  continue_pieces-IsSignedPrefix seed fed later next k (d, some c) (body, gone, f, chain, part) = (
    body,
    (gone ++ d.buf) ++ later,
    ap (λ s. s ++ later) f ∙ append_assoc body (gone ++ d.buf) later,
    chain,
  )

  transform_all-Follows :
      (seed : Text) (fed : Bytes) (pieces : List Bytes) (d : Decoder)
      → Follows signature_of seed fed d
      → IsSignedPrefix seed (fed ++ flatten pieces) (transform_all true signature_of pieces d).0
  unfolding transform_all flatten
  transform_all-Follows seed fed [] d (body, gone, f, chain, part) =
      (body, gone ++ d.buf, append-nil fed ∙ f, chain)
  transform_all-Follows seed fed (p ∷ ps) d h =
      subst (λ s. IsSignedPrefix seed s (transform_all true signature_of (p ∷ ps) d).0)
        (append_assoc fed p (flatten ps))
        (continue_pieces-IsSignedPrefix seed (fed ++ p) (flatten ps)
          (transform_all true signature_of ps)
          (λ next. transform_all-Follows seed (fed ++ p) ps next) (transform true signature_of p d)
          (transform-Follows seed fed p d h))

  -- In the signed mode, however the network cuts the body into pieces and whatever its bytes are: when
  -- the stream ends or fails, the body begins with the chunks whose data has been passed on, and each
  -- of them carries in its size line the size of its data and a signature, the one derived from its
  -- data and from the signature before it, the first of which is the seed.
  pub transform_all-IsSignedPrefix :
      (seed : Text) (pieces : List Bytes)
      → IsSignedPrefix seed
          (flatten pieces)
          (transform_all true signature_of pieces (new_decoder seed)).0
  transform_all-IsSignedPrefix seed pieces =
      transform_all-Follows seed [] pieces (new_decoder seed) ([], [], refl, seeded, refl)

  -- A signed stream can be cut short after any of its chunks: wherever the decoder waits for the next
  -- size line, the five bytes `0 CRLF CRLF`, which carry no signature, end the body without an error.
  pub transform_accepts_cut :
      (d : Decoder)
      → d.buf ≡ []
      → d.phase ≡ size_phase
      → transform true signature_of (48 ∷ 13 ∷ 10 ∷ 13 ∷ 10 ∷ []) d
        ≡ (record d { buf = []; phase = done_phase }, none)
  unfolding transform consume pending turn phase_turn size_turn size_line trailer_turn split_line
      starts_with cut_at parse_hex trim is_space
  transform_accepts_cut d b p = rw (b, p) refl
