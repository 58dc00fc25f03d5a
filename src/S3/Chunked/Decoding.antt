-- ===== src/S3/Chunked/Decoding.antt =====
-- The decoder on a whole framed body.
use mathlib.Core.List.{reverse, reverse-cons, flatten}
use r2storage.Auth.S3Auth.{SigningPrimitives, Streaming}
use r2storage.Prelude.{
  Bool, List, Option, Text, [], ap, append-nil, append_assoc, arith, codes, false, if◌then◌else◌,
  length, length-append, none, refl, some, starts_with, subst, suc, sym, text_eq_refl, true, ℕ,
  ◌&&◌, ◌*◌, ◌++◌, ◌+◌, ◌-◌, ◌∙◌, ◌∷◌, ◌≡◌, ◌≤◌,
}
use r2storage.S3.{ChunkCode, whole}
use r2storage.S3.Chunked.{
  Decoder, consume, continue_pieces, crlf_phase, crlf_turn, data_phase, decode_aws_chunked,
  done_phase, flushed, goes_on, is_done, new_decoder, pending, phase_turn, size_phase,
  trailer_phase, trailer_turn, transform, transform_all, turn,
}
use r2storage.S3.Chunked.Framing.{
  AreChunks, Chunk, IsChunk, IsLast, data_turn-chunk, end_chunk-chunk, frame, payload_of,
  size_turn-chunk, size_turn-last,
}
use r2storage.S3.Chunked.Signature.{chunk_signature, decode_streaming, full_context}
use r2storage.Store.{Bytes}

-- As many turns as the chunks take, three for the end, and k more.
abbrev turns : List Chunk → ℕ → ℕ
turns [] k = suc (suc (suc k))
turns (c ∷ cs) k = suc (suc (suc (turns cs k)))

abbrev pushes : List Chunk → List Bytes → List Bytes
pushes [] ps = ps
pushes (c ∷ cs) ps = pushes cs (c.bytes ∷ ps)

module _ (verify_chunks : Bool) (signature_of : Text → Bytes → Text) where
  consume-goes_on :
      (fuel : ℕ) (d next : Decoder)
      → turn verify_chunks signature_of d ≡ goes_on next
      → consume verify_chunks signature_of (suc fuel) d
        ≡ consume verify_chunks signature_of fuel next
  unfolding consume
  consume-goes_on fuel d next e = rw (e, consume) refl

  -- After a chunk the decoder is between two chunks again, with the payload passed on.
  abbrev After : Decoder → Text → Chunk → Bytes → Decoder → Type 0
  After d previous c rest next =
      (next.phase ≡ size_phase)
      × (next.buf ≡ rest)
      × (next.prev_signature ≡ (if verify_chunks then c.sig else previous))
      × (next.pushed ≡ c.bytes ∷ d.pushed)
      × (next.trailer_checksum ≡ d.trailer_checksum)

  consume-chunk :
      (fuel : ℕ) (d : Decoder) (previous : Text) (c : Chunk) (rest : Bytes)
      → IsChunk verify_chunks signature_of previous c
      → d.phase ≡ size_phase
      → d.buf ≡ c.line ++ 13 ∷ 10 ∷ (c.bytes ++ 13 ∷ 10 ∷ rest)
      → d.prev_signature ≡ previous
      → (next : Decoder) × (consume verify_chunks signature_of (suc (suc (suc fuel))) d
          ≡ consume verify_chunks signature_of fuel next)
        × After d previous c rest next
  unfolding turn phase_turn crlf_turn
  consume-chunk fuel d previous c rest good p e s =
      let d₁ = record d {
        buf = c.bytes ++ 13 ∷ 10 ∷ rest;
        chunk_size = length c.bytes;
        chunk_sig = c.sig;
        payload = [];
        phase = data_phase;
      } in
      let d₂ = record d₁ { payload = c.bytes; buf = 13 ∷ 10 ∷ rest; phase = crlf_phase } in
      let d₃ = record d₂ {
        buf = rest;
        prev_signature = if verify_chunks then c.sig else d.prev_signature;
        pushed = c.bytes ∷ d.pushed;
        phase = size_phase;
      } in
      (
        d₃,
        consume-goes_on (suc (suc fuel)) d d₁ (
              ap (λ q. phase_turn verify_chunks signature_of q d) p
              ∙ size_turn-chunk verify_chunks signature_of d c previous (c.bytes ++ 13 ∷ 10 ∷ rest)
                  good e)
            ∙ consume-goes_on (suc fuel) d₁ d₂
                (data_turn-chunk verify_chunks signature_of d₁ c.bytes (13 ∷ 10 ∷ rest) refl refl)
            ∙ consume-goes_on fuel d₂ d₃ (
                end_chunk-chunk verify_chunks signature_of (record d₂ { buf = rest })
                  (rw s good.7)),
        (refl, refl, rw s refl, refl, refl),
      )

  -- What the loop ends in.
  abbrev Ends : List Bytes → Option Text → Decoder × Option ChunkCode → Type 0
  Ends ps checksum (d, error) =
      (error ≡ none) × (d.phase ≡ done_phase) × (d.pushed ≡ ps) × (d.trailer_checksum ≡ checksum)

  consume-end :
      (last : Text) (k : ℕ) (d : Decoder)
      → IsLast last
      → d.phase ≡ size_phase
      → d.buf ≡ frame last []
      → consume verify_chunks signature_of (suc (suc (suc k))) d
        ≡ (record d { buf = []; phase = done_phase }, none)
  unfolding consume turn phase_turn trailer_turn starts_with
  consume-end last k d good p e =
      let d₁ = record d { buf = 13 ∷ 10 ∷ []; phase = trailer_phase } in
      let d₂ = record d₁ { buf = []; phase = done_phase } in
      consume-goes_on (suc (suc k)) d d₁ (
        ap (λ q. phase_turn verify_chunks signature_of q d) p
        ∙ size_turn-last verify_chunks signature_of d last (13 ∷ 10 ∷ []) good e)
      ∙ consume-goes_on (suc k) d₁ d₂ refl

  consume-Ends :
      (last : Text) (cs : List Chunk) (k : ℕ) (d : Decoder) (previous : Text)
      → IsLast last
      → AreChunks verify_chunks signature_of previous cs
      → d.phase ≡ size_phase
      → d.buf ≡ frame last cs
      → d.prev_signature ≡ previous
      → Ends
          (pushes cs d.pushed)
          d.trailer_checksum
          (consume verify_chunks signature_of (turns cs k) d)
  unfolding consume-chunk
  consume-Ends last [] k d previous ended good p e s =
      rw (consume-end last k d ended p e) (refl, refl, refl, refl)
  consume-Ends last (c ∷ cs) k d previous ended (first, later) p e s =
      let (next, same, (p', e', s', pushed', checksum')) =
        consume-chunk (turns cs k) d previous c (frame last cs) first p e s in
      rw (same, ← pushed', ← checksum') (consume-Ends last cs k next _ ended later p' e' s')

and_false : (b : Bool) → (b && false) ≡ false
and_false true = refl
and_false false = refl

turns-count : (cs : List Chunk) (k : ℕ) → turns cs k ≡ 3 * length cs + 3 + k
turns-count [] k = omega arith
turns-count (c ∷ cs) k = omega (arith, turns-count cs k)

length-frame : (last : Text) (cs : List Chunk) → 4 * length cs + 4 ≤ length (frame last cs)
length-frame last [] = omega (arith, length-append last (13 ∷ 10 ∷ 13 ∷ 10 ∷ []))
length-frame last (c ∷ cs) = omega (
  arith,
  length-frame last cs,
  length-append c.line (13 ∷ 10 ∷ (c.bytes ++ 13 ∷ 10 ∷ frame last cs)),
  length-append c.bytes (13 ∷ 10 ∷ frame last cs),
)

flatten-append : (ps qs : List Bytes) → flatten (ps ++ qs) ≡ flatten ps ++ flatten qs
unfolding flatten
flatten-append [] qs = refl
flatten-append (p ∷ ps) qs =
    ap (◌++◌ p) (flatten-append ps qs) ∙ sym (append_assoc p (flatten ps) (flatten qs))

flatten-pushes :
    (cs : List Chunk) (ps : List Bytes)
    → flatten (reverse (pushes cs ps)) ≡ flatten (reverse ps) ++ payload_of cs
unfolding flatten
flatten-pushes [] ps = sym (append-nil (flatten (reverse ps)))
flatten-pushes (c ∷ cs) ps =
    flatten-pushes cs (c.bytes ∷ ps)
    ∙ rw
        (
          reverse-cons c.bytes ps,
          flatten-append (reverse ps) (c.bytes ∷ []),
          append-nil c.bytes,
          append_assoc (flatten (reverse ps)) c.bytes (payload_of cs),
        )
        refl

module _ (verify_chunks : Bool) (signature_of : Text → Bytes → Text) where
  enough_turns :
      (last : Text) (cs : List Chunk)
      → (k : ℕ) × (suc
            (pending verify_chunks signature_of (record (new_decoder []) { buf = frame last cs }))
          ≡ turns cs k)
  unfolding pending
  enough_turns last cs = (
    2 * length (frame last cs) + 1 - (3 * length cs + 3),
    omega (
      arith,
      length-frame last cs,
      turns-count cs (2 * length (frame last cs) + 1 - (3 * length cs + 3)),
    ),
  )

  Ends-flushed :
      (ps : List Bytes) (result : Decoder × Option ChunkCode)
      → Ends verify_chunks signature_of ps none result
      → flushed verify_chunks signature_of result ≡ whole (flatten (reverse ps)) none
  unfolding flushed is_done
  Ends-flushed ps (d, error) (fine, done, pushed, checksum) =
      rw (fine, done, pushed, checksum, flushed) refl

  last_piece :
      (result : Decoder × Option ChunkCode)
      → continue_pieces verify_chunks signature_of
          (transform_all verify_chunks signature_of [])
          result
        ≡ result
  unfolding continue_pieces transform_all
  last_piece (d, none) = refl
  last_piece (d, some c) = refl

  -- A body without trailers that arrives in one piece, and is framed as the protocol says, decodes to
  -- the payloads of its chunks one after another: each chunk has the size that its hexadecimal numeral
  -- says, no chunk is signed in the unsigned mode, and in the signed mode each carries the signature
  -- derived from the seed on. The last line has the size zero, and a signature or none.
  pub decode_aws_chunked-frame :
      (seed last : Text) (cs : List Chunk)
      → IsLast last
      → AreChunks verify_chunks signature_of seed cs
      → decode_aws_chunked verify_chunks signature_of (some seed) (frame last cs ∷ [])
        ≡ whole (payload_of cs) none
  unfolding decode_aws_chunked transform_all transform pending flatten
  decode_aws_chunked-frame seed last cs ended good =
      let d = record (new_decoder seed) { buf = frame last cs } in
      let (k, enough) = enough_turns last cs in
      let ends : Ends verify_chunks signature_of (pushes cs []) none
          (transform verify_chunks signature_of (frame last cs) (new_decoder seed)) =
        subst
          (λ n.
            Ends verify_chunks signature_of (pushes cs []) none
              (consume verify_chunks signature_of n d))
          (sym enough)
          (consume-Ends verify_chunks signature_of last cs k d seed ended good refl refl refl) in
      rw
        (
          and_false verify_chunks,
          last_piece (transform verify_chunks signature_of (frame last cs) (new_decoder seed)),
        )
        (Ends-flushed (pushes cs [])
            (transform verify_chunks signature_of (frame last cs) (new_decoder seed)) ends
          ∙ ap (λ b. whole b none) (flatten-pushes cs []))

-- The same for a request with a streaming context, under the signatures of its chunks.
decode_streaming-frame :
    (crypto : SigningPrimitives) (c : Streaming) (last : Text) (cs : List Chunk)
    → full_context crypto (some c) ≡ some c
    → IsLast last
    → AreChunks true (chunk_signature crypto c) c.seed_signature cs
    → decode_streaming crypto
        (codes "STREAMING-AWS4-HMAC-SHA256-PAYLOAD")
        (some c)
        (frame last cs ∷ [])
      ≡ whole (payload_of cs) none
unfolding decode_streaming
decode_streaming-frame crypto c last cs given ended good =
    let verified = text_eq_refl (codes "STREAMING-AWS4-HMAC-SHA256-PAYLOAD") in
    rw (given, verified, decode_streaming)
      (decode_aws_chunked-frame true (chunk_signature crypto c) c.seed_signature last cs ended good)
