-- ===== src/S3/Chunked/Progress.antt =====
-- The loop of `consume` ends.
use r2storage.Prelude.{
  Bool, Bool-cases, Option, Option-cases, Text, [], ap, arith, codes, false, inl, inr, length,
  length-drop, ltb, none, not, refl, some, some_inj, starts_with, strip_prefix, suc, text_eq,
  to_lower, trim, true, zero, ℕ, ◌&&◌, ◌*◌, ◌++◌, ◌+◌, ◌<◌, ◌==◌, ◌∷◌, ◌≡◌, ◌≤◌,
}
use r2storage.S3.{ChunkCode}
use r2storage.S3.Chunked.{
  Decoder, Phase, Turn, begin_chunk, consume, crlf_phase, crlf_turn, cut_at, data_phase, data_turn,
  done_phase, end_chunk, goes_on, line_signature, max_chunk_size, max_line_length, parse_hex,
  pending, phase_turn, size_line, size_phase, size_turn, split_line, throws, trailer_line,
  trailer_phase, trailer_turn, trailer_value, transform, turn, wait_for_line, waits,
}
use r2storage.Store.{Bytes}

and_right : (a b : Bool) → (a && b) ≡ true → b ≡ true
and_right true b h = h
and_right false b h = absurd (cc)

starts_with-shorter : (p s : Text) → starts_with p s ≡ true → length p ≤ length s
unfolding starts_with strip_prefix
starts_with-shorter [] s h = omega arith
starts_with-shorter (x ∷ p) [] h = absurd (cc)
starts_with-shorter (x ∷ p) (c ∷ s) h = elim (Bool-cases (x == c)) [
  | inl same ↦ omega (arith, starts_with-shorter p s (rw (same, starts_with, strip_prefix) at h))
  | inr other ↦ absurd (cc (rw (other, starts_with, strip_prefix) at h))
]

split_line-shorter : (s a b : Text) → split_line s ≡ some (a, b) → length b + 2 ≤ length s
unfolding split_line
split_line-shorter [] a b h = absurd (cc)
split_line-shorter (c ∷ s) a b h = elim (Bool-cases (c == 13 && starts_with (10 ∷ []) s)) [
  | inl here ↦
      let e = some_inj (rw (here, split_line) at h) in
      omega (
        arith,
        ap (λ l. length l.1) e,
        length-drop 1 s,
        starts_with-shorter (10 ∷ []) s (and_right (c == 13) (starts_with (10 ∷ []) s) here),
      )
  | inr there ↦ elim (Option-cases (split_line s)) [
    | inl e ↦ absurd (cc (rw (there, e, split_line) at h))
    | inr ((a', b'), e) ↦
        let e' = some_inj (rw (there, e, split_line) at h) in
        omega (arith, ap (λ l. length l.1) e', split_line-shorter s a' b' e)
  ]
]

module _ (verify_chunks : Bool) (signature_of : Text → Bytes → Text) where
  -- What a turn leaves pending is less than n.
  abbrev Shrinks : ℕ → Turn → Type 0
  Shrinks n waits = Unit
  Shrinks n (throws c) = Unit
  Shrinks n (goes_on d) = pending verify_chunks signature_of d < n

  begin_chunk-Shrinks :
      (d : Decoder) (n k : ℕ) (sig : Text)
      → 2 * length d.buf + 1 < k
      → Shrinks k (begin_chunk verify_chunks signature_of d n sig)
  unfolding begin_chunk pending
  begin_chunk-Shrinks d n k sig h = elim (Bool-cases (verify_chunks && text_eq sig [])) [
    | inl missing ↦ rw (missing) tt
    | inr fine ↦ elim (Bool-cases (not verify_chunks && not (text_eq sig []))) [
      | inl unexpected ↦ rw (fine, unexpected) tt
      | inr fine' ↦ rw (fine, fine') h
    ]
  ]

  size_line-Shrinks :
      (d : Decoder) (k : ℕ) (line : Text × Option Text)
      → 2 * length d.buf + 1 < k
      → Shrinks k (size_line verify_chunks signature_of d line)
  unfolding size_line pending
  size_line-Shrinks d k (size_hex, extension) h = elim (Option-cases (parse_hex (trim size_hex))) [
    | inl e ↦ rw (e, size_line) tt
    | inr (n, e) ↦ elim (Bool-cases (n == 0)) [
      | inl last ↦ rw (e, last, size_line) (omega (arith, h))
      | inr more ↦ elim (Bool-cases (ltb max_chunk_size n)) [
        | inl too_big ↦ rw (e, more, too_big, size_line) tt
        | inr fits ↦ elim (Option-cases (line_signature extension)) [
          | inl bad ↦ rw (e, more, fits, bad, size_line) tt
          | inr (sig, good) ↦ rw (e, more, fits, good, size_line) (begin_chunk-Shrinks d n k sig h)
        ]
      ]
    ]
  ]

  trailer_line-Shrinks :
      (d : Decoder) (k : ℕ) (line : Text × Option Text)
      → 2 * length d.buf + 1 < k
      → d.phase ≡ trailer_phase
      → Shrinks k (trailer_line verify_chunks signature_of d line)
  unfolding trailer_line trailer_value pending
  trailer_line-Shrinks d k (name, none) h p = tt
  trailer_line-Shrinks d k ([], some value) h p = tt
  trailer_line-Shrinks d k (c ∷ name, some value) h p =
      elim (Bool-cases (text_eq (to_lower (trim (c ∷ name))) (codes "x-amz-checksum-crc32"))) [
        | inl named ↦ rw (named, p) (omega (arith, h))
        | inr other ↦ rw (other, p) (omega (arith, h))
      ]

  wait_for_line-Shrinks :
      (d : Decoder) (k : ℕ) → Shrinks k (wait_for_line verify_chunks signature_of d)
  unfolding wait_for_line
  wait_for_line-Shrinks d k = elim (Bool-cases (ltb max_line_length (length d.buf))) [
    | inl long ↦ rw long tt
    | inr short ↦ rw short tt
  ]

  size_turn-Shrinks :
      (d : Decoder) (k : ℕ)
      → 2 * length d.buf ≤ k
      → Shrinks k (size_turn verify_chunks signature_of d)
  unfolding size_turn
  size_turn-Shrinks d k h = elim (Option-cases (split_line d.buf)) [
    | inl e ↦ rw (e, size_turn) (wait_for_line-Shrinks d k)
    | inr ((line, rest), e) ↦
        rw (e, size_turn)
          (size_line-Shrinks (record d { buf = rest }) k (cut_at b';' line)
            (omega (arith, h, split_line-shorter d.buf line rest e)))
  ]

  data_turn-Shrinks :
      (d : Decoder) (k : ℕ)
      → 2 * length d.buf + 1 ≤ k
      → Shrinks k (data_turn verify_chunks signature_of d)
  unfolding data_turn pending
  data_turn-Shrinks d k h = elim (Bool-cases (ltb (length d.buf) d.chunk_size)) [
    | inl short ↦ rw short tt
    | inr all_there ↦ rw all_there (omega (arith, h, length-drop d.chunk_size d.buf))
  ]

  end_chunk-Shrinks :
      (d : Decoder) (k : ℕ)
      → 2 * length d.buf < k
      → Shrinks k (end_chunk verify_chunks signature_of d)
  unfolding end_chunk pending
  end_chunk-Shrinks d k h =
      elim (Bool-cases
        (verify_chunks && not (text_eq (signature_of d.prev_signature d.payload) d.chunk_sig))) [
          | inl forged ↦ rw forged tt
          | inr genuine ↦ rw genuine (omega (arith, h))
        ]

  crlf_turn-Shrinks :
      (d : Decoder) (k : ℕ) (s : Bytes)
      → 2 * length s ≤ k
      → Shrinks k (crlf_turn verify_chunks signature_of d s)
  unfolding crlf_turn
  crlf_turn-Shrinks d k [] h = tt
  crlf_turn-Shrinks d k (x ∷ []) h = tt
  crlf_turn-Shrinks d k (x ∷ y ∷ rest) h = elim (Bool-cases (x == 13 && y == 10)) [
    | inl ends ↦ rw ends (end_chunk-Shrinks (record d { buf = rest }) k (omega (arith, h)))
    | inr other ↦ rw other tt
  ]

  trailer_turn-Shrinks :
      (d : Decoder) (k : ℕ)
      → 2 * length d.buf ≤ k
      → d.phase ≡ trailer_phase
      → Shrinks k (trailer_turn verify_chunks signature_of d)
  unfolding trailer_turn pending
  trailer_turn-Shrinks d k h p = elim (Bool-cases (length d.buf == 0)) [
    | inl empty ↦ rw empty tt
    | inr some_left ↦ elim (Bool-cases (starts_with (13 ∷ 10 ∷ []) d.buf)) [
      | inl last ↦
          rw (some_left, last)
            (omega (arith, h, length-drop 2 d.buf, starts_with-shorter (13 ∷ 10 ∷ []) d.buf last))
      | inr more ↦ elim (Option-cases (split_line d.buf)) [
        | inl e ↦ rw (some_left, more, e) (wait_for_line-Shrinks d k)
        | inr ((line, rest), e) ↦
            rw (some_left, more, e)
              (trailer_line-Shrinks (record d { buf = rest }) k (cut_at b':' line)
                (omega (arith, h, split_line-shorter d.buf line rest e)) p)
      ]
    ]
  ]

  turn-Shrinks :
      (p : Phase) (d : Decoder)
      → d.phase ≡ p
      → Shrinks (pending verify_chunks signature_of d) (phase_turn verify_chunks signature_of p d)
  unfolding phase_turn pending
  turn-Shrinks size_phase d e = size_turn-Shrinks d _ (rw e (omega arith))
  turn-Shrinks data_phase d e = data_turn-Shrinks d _ (rw e (omega arith))
  turn-Shrinks crlf_phase d e = crlf_turn-Shrinks d _ d.buf (rw e (omega arith))
  turn-Shrinks trailer_phase d e = trailer_turn-Shrinks d _ (rw e (omega arith)) e
  turn-Shrinks done_phase d e = tt

  -- Nothing is left to do for the bytes that have arrived: another turn would wait, or throw the error.
  abbrev pub Rests : Decoder × Option ChunkCode → Type 0
  Rests (d, none) = turn verify_chunks signature_of d ≡ waits
  Rests (d, some c) = turn verify_chunks signature_of d ≡ throws c

  consume-Rests :
      (fuel : ℕ) (d : Decoder) (t : Turn)
      → turn verify_chunks signature_of d ≡ t
      → Shrinks (pending verify_chunks signature_of d) t
      → pending verify_chunks signature_of d < fuel
      → Rests (consume verify_chunks signature_of fuel d)
  unfolding consume
  consume-Rests zero d t e s h = absurd (omega arith)
  consume-Rests (suc fuel) d waits e s h = rw (e, consume) e
  consume-Rests (suc fuel) d (throws c) e s h = rw (e, consume) e
  consume-Rests (suc fuel) d (goes_on d') e s h =
      rw (e, consume)
        (consume-Rests fuel d' (turn verify_chunks signature_of d') refl
          (turn-Shrinks d'.phase d' refl) (omega (arith, s, h)))

  -- The loop ends for every piece, in every state of the decoder: it stops only where another turn
  -- would wait for more bytes, or with the error that the next turn throws.
  pub transform-Rests :
      (piece : Bytes) (d : Decoder) → Rests (transform verify_chunks signature_of piece d)
  unfolding transform
  transform-Rests piece d =
      let d' = record d { buf = d.buf ++ piece } in
      consume-Rests (suc (pending verify_chunks signature_of d')) d'
        (turn verify_chunks signature_of d') refl (turn-Shrinks d'.phase d' refl) (omega arith)
