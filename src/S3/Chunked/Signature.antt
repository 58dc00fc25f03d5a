-- ===== src/S3/Chunked/Signature.antt =====
-- backend/src/api/aws-chunked.ts: verifyChunkSignature's signature, and decodeAwsChunked with the
-- streaming context that the authentication of the request left.
use r2storage.Auth.S3Auth.{SigningPrimitives, Streaming}
use r2storage.Prelude.{
  List, Option, Text, [], codes, if◌then◌else◌, none, some, text_eq, ◌++◌, ◌||◌, ◌∷◌,
}
use r2storage.S3.{BodyRead}
use r2storage.S3.Chunked.{decode_aws_chunked}
use r2storage.Store.{Bytes}

-- The fields of the context as far as a chunk's signature needs them, under the request's primitives.
module _ (crypto : SigningPrimitives) where
  chunk_context : Streaming → Text → Text
  chunk_context c previous =
      codes "AWS4-HMAC-SHA256-PAYLOAD"
      ++ 10 ∷ (c.amz_date ++ 10 ∷ (c.scope_str ++ 10 ∷ (previous ++ 10 ∷ [])))

  -- The context, its hash, and the hash of the chunk's data.
  unfoldable pub chunk_string_to_sign : Streaming → Text → Bytes → Text
  unfolding chunk_context
  chunk_string_to_sign c previous payload =
      let context = chunk_context c previous in
      context ++ (crypto.sha256_hex context ++ 10 ∷ crypto.bytes_sha256_hex payload)

  unfoldable pub chunk_signature : Streaming → Text → Bytes → Text
  unfolding chunk_string_to_sign
  chunk_signature c previous payload =
      crypto.hex
        (crypto.hmac_sha256 c.signing_key (crypto.utf8 (chunk_string_to_sign c previous payload)))

  -- The context where none of its texts is empty.
  unfoldable pub full_context : Option Streaming → Option Streaming
  full_context none = none
  full_context (some c) =
      if text_eq c.amz_date [] || text_eq c.scope_str [] || text_eq c.seed_signature []
      then none
      else some c

  -- decodeAwsChunked, told the value of x-amz-content-sha256.
  unfoldable pub decode_streaming : Text → Option Streaming → List Bytes → BodyRead
  unfolding full_context
  decode_streaming sha256_value streaming pieces =
      let verify_chunks = text_eq sha256_value (codes "STREAMING-AWS4-HMAC-SHA256-PAYLOAD") in
      elim (full_context streaming) [
        | none ↦ decode_aws_chunked verify_chunks (λ previous payload. []) none pieces
        | some c ↦
            decode_aws_chunked verify_chunks (chunk_signature c) (some c.seed_signature) pieces
      ]
