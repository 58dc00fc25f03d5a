-- ===== src/S3/Chunked.antt =====
-- backend/src/api/aws-chunked.ts: the decoder of aws-chunked bodies, as a state machine that is fed
-- the pieces in which the body arrives. A `while (true)` of `consume` runs on fuel. `signature_of`
-- gives a chunk's signature from the one before it and the payload: `chunk_signature` of
-- Chunked/Signature, which also holds the decoder of a request.
pub mod Progress
pub mod Framing
pub mod Decoding
mod Tests
pub mod Carried
pub mod Signed
pub mod Signature
use mathlib.Core.List.{reverse, flatten}
use r2storage.Prelude.{
  Bool, List, Option, Text, [], codes, drop, false, get_or_else, if◌then◌else◌, is_some, leb,
  length, ltb, none, not, some, starts_with, strip_prefix, suc, take, text_eq, to_lower, trim, true,
  zero, ℕ, ◌&&◌, ◌*◌, ◌++◌, ◌+◌, ◌-◌, ◌==◌, ◌∷◌,
}
use r2storage.S3.{
  BodyRead, ChunkCode, broken, invalid_request, refused, signature_does_not_match, whole,
}
use r2storage.Store.{Bytes}

abbrev max_chunk_size : ℕ
max_chunk_size = 67108864

abbrev max_line_length : ℕ
max_line_length = 4096

pub data Phase : Type 0 where
  size_phase data_phase crlf_phase trailer_phase done_phase : Phase

pub record Decoder : Type 0 where
  pub trailer_checksum : Option Text
  pub buf : Bytes
  pub phase : Phase
  pub chunk_size : ℕ
  pub chunk_sig : Text
  pub payload : Bytes
  pub prev_signature : Text
  pub pushed : List Bytes

-- What a turn of the loop does: it returns to wait for bytes, throws, or goes on.
pub data Turn : Type 0 where
  waits : Turn
  throws : ChunkCode → Turn
  goes_on : Decoder → Turn

-- `new AwsChunkDecoder`, with the seed signature or the empty text.
abbrev pub new_decoder : Text → Decoder
new_decoder seed = record {
  trailer_checksum = none;
  buf = [];
  phase = size_phase;
  chunk_size = 0;
  chunk_sig = [];
  payload = [];
  prev_signature = seed;
  pushed = [];
}

-- The text before the first CRLF and what follows it.
unfoldable pub split_line : Bytes → Option (Text × Bytes)
split_line [] = none
split_line (c ∷ s) =
    let rest = split_line s in
    if c == 13 && starts_with (10 ∷ []) s
    then some ([], drop 1 s)
    else elim rest [ none ↦ none | some (a, b) ↦ some (c ∷ a, b) ]

-- The digit of `[0-9a-fA-F]`.
unfoldable pub hex_digit : ℕ → Option ℕ
hex_digit c =
    if leb b'0' c && leb c b'9'
    then some (c - b'0')
    else if leb b'a' c && leb c b'f'
    then some (c - 87)
    else if leb b'A' c && leb c b'F'
    then some (c - 55)
    else none

unfoldable pub hex_from : ℕ → Text → Option ℕ
unfolding hex_digit
hex_from acc [] = some acc
hex_from acc (c ∷ s) = elim (hex_digit c) [ none ↦ none | some d ↦ hex_from (acc * 16 + d) s ]

-- The value of a text that matches `^[0-9a-fA-F]+$`.
unfoldable pub parse_hex : Text → Option ℕ
unfolding hex_from
parse_hex [] = none
parse_hex (c ∷ s) = hex_from 0 (c ∷ s)

-- `indexOf(c)`, as what stands before the first `c` and after it.
unfoldable pub cut_at : ℕ → Text → Text × Option Text
cut_at sep [] = ([], none)
cut_at sep (c ∷ s) =
    let (before, after) = cut_at sep s in if c == sep then ([], some s) else (c ∷ before, after)

-- The signature of `^chunk-signature=([0-9a-fA-F]{64})$`.
unfoldable pub match_signature : Text → Option Text
match_signature s = elim (strip_prefix (codes "chunk-signature=") s) [
  | none ↦ none
  | some hex ↦ if length hex == 64 && is_some (parse_hex hex) then some (to_lower hex) else none
]

-- The signature of a size line: the empty text where there is no `;`, nothing where it is malformed.
unfoldable pub line_signature : Option Text → Option Text
unfolding match_signature
line_signature none = some []
line_signature (some s) = match_signature s

module _ (verify_chunks : Bool) (signature_of : Text → Bytes → Text) where
  unfoldable pub begin_chunk : Decoder → ℕ → Text → Turn
  begin_chunk d n sig =
      if verify_chunks && text_eq sig []
      then throws signature_does_not_match
      else if not verify_chunks && not (text_eq sig [])
      then throws invalid_request
      else goes_on (record d { chunk_size = n; chunk_sig = sig; payload = []; phase = data_phase })

  unfoldable pub size_line : Decoder → Text × Option Text → Turn
  unfolding begin_chunk
  size_line d (size_hex, extension) = elim (parse_hex (trim size_hex)) [
    | none ↦ throws invalid_request
    | some n ↦
        if n == 0
        then goes_on (record d { phase = trailer_phase })
        else if ltb max_chunk_size n
        then throws invalid_request
        else elim (line_signature extension) [
          | none ↦ throws invalid_request
          | some sig ↦ begin_chunk d n sig
        ]
  ]

  unfoldable pub trailer_value : Decoder → Text → Text → Decoder
  trailer_value d name value =
      if text_eq (to_lower (trim name)) (codes "x-amz-checksum-crc32")
      then record d { trailer_checksum = some (trim value) }
      else d

  unfoldable pub trailer_line : Decoder → Text × Option Text → Turn
  unfolding trailer_value
  trailer_line d (name, none) = throws invalid_request
  trailer_line d ([], some value) = throws invalid_request
  trailer_line d (c ∷ name, some value) = goes_on (trailer_value d (c ∷ name) value)

  -- verifyChunkSignature, where the mode asks for it, then `push`. Both signatures are lower-case
  -- hexadecimal of 32 bytes, and so are equal exactly when their bytes are.
  unfoldable pub end_chunk : Decoder → Turn
  end_chunk d =
      if verify_chunks && not (text_eq (signature_of d.prev_signature d.payload) d.chunk_sig)
      then throws signature_does_not_match
      else goes_on (record d {
        prev_signature = if verify_chunks then d.chunk_sig else d.prev_signature;
        pushed = d.payload ∷ d.pushed;
        phase = size_phase;
      })

  -- No complete line has arrived.
  unfoldable pub wait_for_line : Decoder → Turn
  wait_for_line d = if ltb max_line_length (length d.buf) then throws invalid_request else waits

  unfoldable pub size_turn : Decoder → Turn
  unfolding size_line
  size_turn d = elim (split_line d.buf) [
    | none ↦ wait_for_line d
    | some (line, rest) ↦ size_line (record d { buf = rest }) (cut_at b';' line)
  ]

  unfoldable pub data_turn : Decoder → Turn
  data_turn d =
      if ltb (length d.buf) d.chunk_size
      then waits
      else goes_on (record d {
        payload = take d.chunk_size d.buf;
        buf = drop d.chunk_size d.buf;
        phase = crlf_phase;
      })

  unfoldable pub crlf_turn : Decoder → Bytes → Turn
  unfolding end_chunk
  crlf_turn d (x ∷ y ∷ rest) =
      if x == 13 && y == 10 then end_chunk (record d { buf = rest }) else throws invalid_request
  crlf_turn d (x ∷ []) = waits
  crlf_turn d [] = waits

  unfoldable pub trailer_turn : Decoder → Turn
  unfolding trailer_line
  trailer_turn d =
      if length d.buf == 0
      then waits
      else if starts_with (13 ∷ 10 ∷ []) d.buf
      then goes_on (record d { buf = drop 2 d.buf; phase = done_phase })
      else elim (split_line d.buf) [
        | none ↦ wait_for_line d
        | some (line, rest) ↦ trailer_line (record d { buf = rest }) (cut_at b':' line)
      ]

  unfoldable pub phase_turn : Phase → Decoder → Turn
  unfolding size_turn data_turn crlf_turn trailer_turn
  phase_turn size_phase d = size_turn d
  phase_turn data_phase d = data_turn d
  phase_turn crlf_phase d = crlf_turn d d.buf
  phase_turn trailer_phase d = trailer_turn d
  phase_turn done_phase d = waits

  -- One turn of the loop of `consume`.
  unfoldable pub turn : Decoder → Turn
  unfolding phase_turn
  turn d = phase_turn d.phase d

  -- The decoder after `consume`, with the error that it threw.
  unfoldable pub consume : ℕ → Decoder → Decoder × Option ChunkCode
  unfolding turn
  consume zero d = (d, none)
  consume (suc fuel) d = elim (turn d) [
    | waits ↦ (d, none)
    | throws c ↦ (d, some c)
    | goes_on d' ↦ consume fuel d'
  ]

  -- A turn that goes on shortens the buffer, or has the data of a chunk behind it.
  unfoldable pub pending : Decoder → ℕ
  pending d = 2 * length d.buf + elim d.phase [ data_phase ↦ 1 | _ ↦ 0 ]

  -- `_transform` of a piece.
  unfoldable pub transform : Bytes → Decoder → Decoder × Option ChunkCode
  unfolding consume pending
  transform piece d = let d' = record d { buf = d.buf ++ piece } in consume (suc (pending d')) d'

  unfoldable pub continue_pieces :
      (Decoder → Decoder × Option ChunkCode)
      → Decoder × Option ChunkCode
      → Decoder × Option ChunkCode
  continue_pieces next (d, none) = next d
  continue_pieces next (d, some c) = (d, some c)

  -- The pieces in their order; an error ends the stream.
  unfoldable pub transform_all : List Bytes → Decoder → Decoder × Option ChunkCode
  unfolding transform continue_pieces
  transform_all [] d = (d, none)
  transform_all (p ∷ ps) d = continue_pieces (transform_all ps) (transform p d)

  unfoldable pub is_done : Phase → Bool
  is_done done_phase = true
  is_done other = false

  -- `_flush`, then the whole stream as its reader sees it.
  unfoldable pub flushed : Decoder × Option ChunkCode → BodyRead
  unfolding is_done
  flushed (d, some c) = broken (some c)
  flushed (d, none) =
      if is_done d.phase
      then whole (flatten (reverse d.pushed)) d.trailer_checksum
      else broken (some invalid_request)

  -- decodeAwsChunked with the reading of its stream. The seed signature is absent where the request's
  -- authentication gave no streaming context.
  unfoldable pub decode_aws_chunked : Option Text → List Bytes → BodyRead
  unfolding transform_all flushed
  decode_aws_chunked seed pieces =
      if verify_chunks && not (is_some seed)
      then refused invalid_request
      else flushed (transform_all pieces (new_decoder (get_or_else seed [])))
