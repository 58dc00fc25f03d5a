-- ===== src/S3/Chunked/Framing.antt =====
-- Decoding of bodies that are framed as the protocol says.
use r2storage.Prelude.{
  Bool, Bool-cases, List, Option, Option-cases, Text, [], all, ap, arith, drop-append_length, false,
  if◌then◌else◌, inl, inr, leb, length, length-append, ltb, not, refl, some, some_inj, starts_with,
  strip_prefix, take-append_length, text_eq, trim, true, ℕ, ◌&&◌, ◌*◌, ◌++◌, ◌+◌, ◌-◌, ◌<◌, ◌==◌,
  ◌∙◌, ◌∷◌, ◌≡◌, ◌≤◌,
}
use r2storage.S3.Chunked.{
  Decoder, begin_chunk, crlf_phase, cut_at, data_phase, data_turn, end_chunk, goes_on, hex_digit,
  hex_from, line_signature, max_chunk_size, parse_hex, size_line, size_phase, size_turn, split_line,
  trailer_phase,
}
use r2storage.Store.{Bytes}

-- A chunk with its size line: the text up to a `;`, what follows it, and the signature there.
pub record Chunk : Type 0 where
  pub line : Text
  pub size_hex : Text
  pub extension : Option Text
  pub sig : Text
  pub bytes : Bytes

-- `<line> CRLF <data> CRLF` for each chunk, then `<last line> CRLF CRLF`.
abbrev pub frame : Text → List Chunk → Bytes
frame last [] = last ++ 13 ∷ 10 ∷ 13 ∷ 10 ∷ []
frame last (c ∷ cs) = c.line ++ 13 ∷ 10 ∷ (c.bytes ++ 13 ∷ 10 ∷ frame last cs)

-- Hexadecimal numerals and their values.
pub data IsHexDigit : ℕ → ℕ → Type 0 where
  decimal_digit : (d : ℕ) → (d < 10) → IsHexDigit (b'0' + d) d
  lower_digit : (d : ℕ) → (d < 6) → IsHexDigit (b'a' + d) (10 + d)
  upper_digit : (d : ℕ) → (d < 6) → IsHexDigit (b'A' + d) (10 + d)

pub data IsHexNumber : Text → ℕ → Type 0 where
  one_digit : {c d : ℕ} → IsHexDigit c d → IsHexNumber (c ∷ []) d
  then_digit :
      {s : Text} {n c d : ℕ}
      → IsHexNumber s n
      → IsHexDigit c d
      → IsHexNumber (s ++ c ∷ []) (n * 16 + d)

hex_digit-IsHexDigit : (c d : ℕ) → IsHexDigit c d → hex_digit c ≡ some d
unfolding hex_digit
hex_digit-IsHexDigit _ _ (decimal_digit d h) =
    let test : (leb b'0' (b'0' + d) && leb (b'0' + d) b'9') ≡ true = ground (arith, h) in
    let value : b'0' + d - b'0' ≡ d = omega arith in rw (test, value) refl
hex_digit-IsHexDigit _ _ (lower_digit d h) =
    let test : (leb b'0' (b'a' + d) && leb (b'a' + d) b'9') ≡ false = ground (arith, h) in
    let test' : (leb b'a' (b'a' + d) && leb (b'a' + d) b'f') ≡ true = ground (arith, h) in
    let value : b'a' + d - 87 ≡ 10 + d = omega arith in rw (test, test', value) refl
hex_digit-IsHexDigit _ _ (upper_digit d h) =
    let test : (leb b'0' (b'A' + d) && leb (b'A' + d) b'9') ≡ false = ground (arith, h) in
    let test' : (leb b'a' (b'A' + d) && leb (b'A' + d) b'f') ≡ false = ground (arith, h) in
    let test'' : (leb b'A' (b'A' + d) && leb (b'A' + d) b'F') ≡ true = ground (arith, h) in
    let value : b'A' + d - 55 ≡ 10 + d = omega arith in rw (test, test', test'', value) refl

hex_from-append :
    (acc m c d : ℕ) (s : Text)
    → hex_from acc s ≡ some m
    → hex_digit c ≡ some d
    → hex_from acc (s ++ c ∷ []) ≡ some (m * 16 + d)
unfolding hex_from
hex_from-append acc m c d [] h h' = rw (h', hex_from) (ap (λ x. some (x * 16 + d)) (some_inj h))
hex_from-append acc m c d (x ∷ s) h h' = elim (Option-cases (hex_digit x)) [
  | inl e ↦ absurd (cc (rw (e, hex_from) at h))
  | inr (v, e) ↦
      rw (e, hex_from) (hex_from-append (acc * 16 + v) m c d s (rw (e, hex_from) at h) h')
]

hex_from-IsHexNumber : (s : Text) (n : ℕ) → IsHexNumber s n → hex_from 0 s ≡ some n
unfolding hex_from
hex_from-IsHexNumber _ _ (one_digit {c} {d} h) =
    rw (hex_digit-IsHexDigit c d h, hex_from) (ap some (omega arith))
hex_from-IsHexNumber _ _ (then_digit {s} {n} {c} {d} h h') =
    hex_from-append 0 n c d s (hex_from-IsHexNumber s n h) (hex_digit-IsHexDigit c d h')

length-IsHexNumber : (s : Text) (n : ℕ) → IsHexNumber s n → 0 < length s
length-IsHexNumber _ _ (one_digit h) = omega arith
length-IsHexNumber _ _ (then_digit {s} {n} {c} h h') = omega (arith, length-append s (c ∷ []))

parse_hex-hex_from : (s : Text) → 0 < length s → parse_hex s ≡ hex_from 0 s
unfolding parse_hex
parse_hex-hex_from [] h = absurd (omega (arith, h))
parse_hex-hex_from (c ∷ s) h = refl

parse_hex-IsHexNumber : (s : Text) (n : ℕ) → IsHexNumber s n → parse_hex s ≡ some n
parse_hex-IsHexNumber s n h =
    parse_hex-hex_from s (length-IsHexNumber s n h) ∙ hex_from-IsHexNumber s n h

-- The last line: the size zero, with or without an extension such as a signature.
abbrev pub IsLast : Text → Type 0
IsLast last = (all (λ b. not (b == 13)) last ≡ true) × IsHexNumber (trim (cut_at b';' last).0) 0

abbrev pub payload_of : List Chunk → Bytes
payload_of [] = []
payload_of (c ∷ cs) = c.bytes ++ payload_of cs

split_line-line :
    (line rest : Text)
    → all (λ c. not (c == 13)) line ≡ true
    → split_line (line ++ 13 ∷ 10 ∷ rest) ≡ some (line, rest)
unfolding split_line starts_with strip_prefix
split_line-line [] rest h = refl
split_line-line (c ∷ line) rest h = elim (Bool-cases (c == 13)) [
  | inl ends ↦ absurd (cc (rw ends at h))
  | inr goes ↦ rw (goes, split_line-line line rest (rw goes at h)) refl
]

and_not : (b : Bool) → (b && not b) ≡ false
and_not true = refl
and_not false = refl

not_and : (b : Bool) → (not b && not (not b)) ≡ false
not_and true = refl
not_and false = refl

module _ (verify_chunks : Bool) (signature_of : Text → Bytes → Text) where
  -- What a chunk after the signature `previous` has to be: its size is that of its data, between 1 and
  -- the limit, and it carries a signature exactly in the signed mode, which is the derived one there.
  abbrev pub IsChunk : Text → Chunk → Type 0
  IsChunk previous c =
      (all (λ b. not (b == 13)) c.line ≡ true)
      × (cut_at b';' c.line ≡ (c.size_hex, c.extension))
      × IsHexNumber (trim c.size_hex) (length c.bytes)
      × (0 < length c.bytes)
      × (length c.bytes ≤ max_chunk_size)
      × (line_signature c.extension ≡ some c.sig)
      × (text_eq c.sig [] ≡ not verify_chunks)
      × ((verify_chunks && not (text_eq (signature_of previous c.bytes) c.sig)) ≡ false)

  abbrev pub AreChunks : Text → List Chunk → Type 0
  AreChunks previous [] = Unit
  AreChunks previous (c ∷ cs) =
      IsChunk previous c × AreChunks (if verify_chunks then c.sig else previous) cs

  -- The decoder between two chunks.
  abbrev between : Decoder → Bytes → Text → List Bytes → Decoder
  between d rest previous ps = record d {
    buf = rest;
    phase = size_phase;
    prev_signature = previous;
    pushed = ps;
  }

  begin_chunk-goes_on :
      (d : Decoder) (n : ℕ) (sig : Text)
      → text_eq sig [] ≡ not verify_chunks
      → begin_chunk verify_chunks signature_of d n sig
        ≡ goes_on (record d { chunk_size = n; chunk_sig = sig; payload = []; phase = data_phase })
  unfolding begin_chunk
  begin_chunk-goes_on d n sig h = rw (h, and_not verify_chunks, not_and verify_chunks) refl

  pub size_turn-chunk :
      (d : Decoder) (c : Chunk) (previous : Text) (rest : Bytes)
      → IsChunk previous c
      → d.buf ≡ c.line ++ 13 ∷ 10 ∷ rest
      → size_turn verify_chunks signature_of d
        ≡ goes_on (record d {
          buf = rest;
          chunk_size = length c.bytes;
          chunk_sig = c.sig;
          payload = [];
          phase = data_phase;
        })
  unfolding size_turn size_line
  size_turn-chunk d c previous rest (no_cr, cut, numeral, positive, small, signature, mode, genuine)
        e =
      let hex = parse_hex-IsHexNumber (trim c.size_hex) (length c.bytes) numeral in
      let left : (cut_at b';' c.line).0 ≡ c.size_hex = ap (λ p. p.0) cut in
      let right : (cut_at b';' c.line).1 ≡ c.extension = ap (λ p. p.1) cut in
      let nonzero : (length c.bytes == 0) ≡ false = ground arith in
      let fits : ltb max_chunk_size (length c.bytes) ≡ false = ground arith in
      rw
        (
          e,
          split_line-line c.line rest no_cr,
          left,
          hex,
          nonzero,
          fits,
          right,
          signature,
          size_turn,
          size_line,
        )
        (begin_chunk-goes_on (record d { buf = rest }) (length c.bytes) c.sig mode)

  pub size_turn-last :
      (d : Decoder) (last : Text) (rest : Bytes)
      → IsLast last
      → d.buf ≡ last ++ 13 ∷ 10 ∷ rest
      → size_turn verify_chunks signature_of d
        ≡ goes_on (record d { buf = rest; phase = trailer_phase })
  unfolding size_turn size_line
  size_turn-last d last rest (no_cr, numeral) e =
      let hex = parse_hex-IsHexNumber (trim (cut_at b';' last).0) 0 numeral in
      rw (e, split_line-line last rest no_cr, hex, size_turn, size_line) refl

  pub data_turn-chunk :
      (d : Decoder) (bytes rest : Bytes)
      → d.buf ≡ bytes ++ rest
      → d.chunk_size ≡ length bytes
      → data_turn verify_chunks signature_of d
        ≡ goes_on (record d { payload = bytes; buf = rest; phase = crlf_phase })
  unfolding data_turn
  data_turn-chunk d bytes rest e n =
      let there : ltb (length (bytes ++ rest)) (length bytes) ≡ false =
        ground (arith, length-append bytes rest) in
      rw (e, n, there, take-append_length bytes rest, drop-append_length bytes rest) refl

  pub end_chunk-chunk :
      (d : Decoder)
      → (verify_chunks && not (text_eq (signature_of d.prev_signature d.payload) d.chunk_sig))
        ≡ false
      → end_chunk verify_chunks signature_of d
        ≡ goes_on (record d {
          prev_signature = if verify_chunks then d.chunk_sig else d.prev_signature;
          pushed = d.payload ∷ d.pushed;
          phase = size_phase;
        })
  unfolding end_chunk
  end_chunk-chunk d h = rw h refl
