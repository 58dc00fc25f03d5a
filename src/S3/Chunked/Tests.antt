-- ===== src/S3/Chunked/Tests.antt =====
-- Runs of the aws-chunked decoder.
use mathlib.Core.List.{flatten}
use r2storage.Prelude.{
  List, Text, [], arith, codes, false, is_space, none, refl, some, starts_with, suc, text_eq,
  to_lower, trim, true, zero, ℕ, ◌++◌, ◌∷◌, ◌≡◌,
}
use r2storage.S3.{whole}
use r2storage.S3.Chunked.{
  Decoder, cut_at, decode_aws_chunked, done_phase, line_signature, new_decoder, parse_hex,
  split_line, transform, transform_all, wait_for_line,
}
use r2storage.S3.Chunked.Decoding.{decode_aws_chunked-frame}
use r2storage.S3.Chunked.Framing.{
  Chunk, IsChunk, IsHexNumber, IsLast, decimal_digit, frame, one_digit, then_digit,
}
use r2storage.S3.Chunked.Progress.{Rests, transform-Rests}
use r2storage.S3.Chunked.Signed.{
  IsSignedPrefix, transform_accepts_cut, transform_all-IsSignedPrefix,
}
use r2storage.Store.{Bytes}

abbrev key_of_test : Text → Bytes → Text
key_of_test previous payload = previous ++ payload

abbrev waiting : Decoder
waiting = new_decoder (codes "seed")

transform-Rests_example : Rests true key_of_test (transform true key_of_test (48 ∷ 13 ∷ []) waiting)
transform-Rests_example = transform-Rests true key_of_test (48 ∷ 13 ∷ []) waiting

-- Under this key every chunk has the same signature of 64 letters.
abbrev letters : ℕ → Text
letters zero = []
letters (suc n) = b'a' ∷ letters n

abbrev constant_key : Text → Bytes → Text
constant_key previous payload = letters 64

-- A chunk of one byte that carries it, in two pieces.
abbrev signed_pieces : List Bytes
signed_pieces =
    (codes "1;chunk-signature=" ++ letters 60)
    ∷ (letters 4 ++ (13 ∷ 10 ∷ 7 ∷ 13 ∷ 10 ∷ 48 ∷ 13 ∷ 10 ∷ 13 ∷ 10 ∷ []))
    ∷ []

passes_signed_chunk :
    (transform_all true constant_key signed_pieces waiting).0.pushed ≡ (7 ∷ []) ∷ []
unfolding transform_all split_line wait_for_line starts_with parse_hex trim cut_at is_space
    line_signature text_eq to_lower
passes_signed_chunk = refl

transform_all-IsSignedPrefix_example :
    IsSignedPrefix constant_key
      (codes "seed")
      (flatten signed_pieces)
      (transform_all true constant_key signed_pieces waiting).0
transform_all-IsSignedPrefix_example =
    transform_all-IsSignedPrefix constant_key (codes "seed") signed_pieces

transform_accepts_cut_example :
    transform true key_of_test (48 ∷ 13 ∷ 10 ∷ 13 ∷ 10 ∷ []) waiting
    ≡ (record waiting { buf = []; phase = done_phase }, none)
transform_accepts_cut_example = transform_accepts_cut key_of_test waiting refl refl

abbrev three_bytes : Chunk
three_bytes = record {
  line = codes "03";
  size_hex = codes "03";
  extension = none;
  sig = [];
  bytes = 7 ∷ 13 ∷ 10 ∷ [];
}

zero_three : IsHexNumber (codes "03") 3
zero_three = then_digit (one_digit (decimal_digit 0 (omega arith))) (decimal_digit 3 (omega arith))

signed_end : IsLast (codes "0;chunk-signature=ab")
unfolding cut_at trim is_space
signed_end = (refl, one_digit (decimal_digit 0 (omega arith)))

is_three_bytes : IsChunk false key_of_test [] three_bytes
unfolding cut_at parse_hex trim is_space line_signature text_eq
is_three_bytes = (refl, refl, zero_three, omega arith, omega arith, refl, refl, refl)

decode_aws_chunked-frame_example :
    decode_aws_chunked false key_of_test
      (some [])
      (frame (codes "0;chunk-signature=ab") (three_bytes ∷ three_bytes ∷ []) ∷ [])
    ≡ whole (7 ∷ 13 ∷ 10 ∷ 7 ∷ 13 ∷ 10 ∷ []) none
decode_aws_chunked-frame_example =
    decode_aws_chunked-frame false key_of_test [] (codes "0;chunk-signature=ab")
      (three_bytes ∷ three_bytes ∷ []) signed_end (is_three_bytes, (is_three_bytes, tt))
